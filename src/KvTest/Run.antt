-- ===== src/KvTest/Run.antt =====
-- Clients that append to one key, `OneClientAppend` of src/kvtest1/kvtest.go, over a service that
-- answers as the model of one key allows. JSON is a parameter. A get returns the version that the
-- service has, which the model does not ask. A get with an error ends the test, and is no step.
-- No version overflows.
pub mod Counting
pub mod Agreement
pub mod Invariant
pub mod Passes
use pluggable_sharded_fault.Base.{
  ℕ, zero, suc, ◌+◌, ◌^◌, ◌<◌, ◌≡◌, Bool, true, Option, some, List, [], ◌∷◌, ◌++◌, String,
  if◌then◌else◌, ◌==◌, string_eq, eqb,
}
use pluggable_sharded_fault.KvModel.{KvInput, KvOutput, KvState, step}
use pluggable_sharded_fault.KvTest.{ok_err, err_maybe, ClntRes, EntryN}

-- Between its get and its put a client has the entries and the version that it got.
pub data Phase : Type 0 where
  before_get : Phase
  before_put : List EntryN → ℕ → Phase

-- `i`, `nok` and `nmay`
pub record Client : Type 0 where
  pub phase : Phase
  pub i : ℕ
  pub nok : ℕ
  pub nmay : ℕ

pub record World : Type 0 where
  pub store : KvState
  pub client : ℕ → Client

abbrev pub set_client : (ℕ → Client) → ℕ → Client → ℕ → Client
set_client f me c j = if eqb me j then c else f j

-- `append(es, entry{me, i})`
unfoldable pub appended : ℕ → Client → List EntryN → List EntryN
appended me c es = es ++ (record { id = me; n = c.i } ∷ [])

-- What the client does on the error of its put: with any other error it tries the same `i` again.
unfoldable pub after_put : String → Client → Client
after_put err c =
    if err == ok_err
    then record c { phase = before_get; i = c.i + 1; nok = c.nok + 1 }
    else if err == err_maybe
    then record c { phase = before_get; i = c.i + 1; nmay = c.nmay + 1 }
    else record c { phase = before_get }

abbrev pub get_input : KvInput
get_input = record { op = 0; key = "k"; value = ""; version = 0 }

module _ (encode : List EntryN → String) (decode : String → Option (List EntryN)) where
  unfoldable pub put_input : ℕ → Client → List EntryN → ℕ → KvInput
  put_input me c es ver = record {
    op = 1;
    key = "k";
    value = encode (appended me c es);
    version = ver;
  }

  pub data AppendStep (nclnt : ℕ) (w : World) : World → Type 0 where
    gets :
        (me : ℕ) (out : KvOutput) {es : List EntryN}
        → me < nclnt
        → (w.client me).phase ≡ before_get
        → (step w.store get_input out).0 ≡ true
        → out.version ≡ w.store.version
        → out.err ≡ ok_err
        → decode out.value ≡ some es
        → AppendStep nclnt w (record w {
          client =
              set_client w.client me (record (w.client me) { phase = before_put es out.version });
        })
    puts :
        (me : ℕ) (out : KvOutput) {es : List EntryN} {ver : ℕ} {next : KvState}
        → me < nclnt
        → (w.client me).phase ≡ before_put es ver
        → w.store.version + 1 < 2 ^ 64
        → step w.store (put_input me (w.client me) es ver) out ≡ (true, some next)
        → AppendStep nclnt w (record {
          store = next;
          client = set_client w.client me (after_put out.err (w.client me));
        })

  -- The key was put once, with no entries.
  unfoldable pub start_world : World
  start_world = record {
    store = record { value = encode []; version = 1 };
    client = λ me. record { phase = before_get; i = 0; nok = 0; nmay = 0 };
  }

  pub data AppendRun (nclnt : ℕ) : World → Type 0 where
    started : AppendRun nclnt start_world
    ran : {w u : World} → AppendRun nclnt w → AppendStep nclnt w u → AppendRun nclnt u

-- What the clients return, from the `me`-th on
unfoldable pub results : ℕ → ℕ → (ℕ → Client) → List ClntRes
results me zero client = []
results me (suc left) client =
    record { nok = (client me).nok; nmaybe = (client me).nmay } ∷ results (me + 1) left client
