-- ===== src/Examples/Appends.antt =====
-- Two clients that append to one key.
use Prim.Native.Char.{Char, code}
use Prim.Native.String.{◌∷◌ as push, [] as stop}
use pluggable_sharded_fault.Base.{
  ℕ, zero, suc, ◌+◌, ◌≡◌, refl, ap, ◌∙◌, Option, none, some, List, [], ◌∷◌, String, eqb,
  if◌then◌else◌, arith, ok, string_eq,
}
use pluggable_sharded_fault.KvModel.{KvOutput, step, step_put}
use pluggable_sharded_fault.KvTest.{EntryN, check_appends}
use pluggable_sharded_fault.KvTest.Run.{
  before_get, before_put, Client, World, set_client, appended, after_put, put_input, gets, puts,
  start_world, AppendRun, started, ran, results,
}
use pluggable_sharded_fault.KvTest.Run.Passes.{check_appends-passes}

-- An entry is its id in `a`s and its number in `b`s, up to a `c`.
abbrev marks : Char → ℕ → String → String
marks c zero s = s
marks c (suc k) s = push c (marks c k s)

abbrev pub encode : List EntryN → String
encode [] = ""
encode (e ∷ es) = marks "a" e.id (marks "b" e.n (push "c" (encode es)))

abbrev also : EntryN → Option (List EntryN) → Option (List EntryN)
also e none = none
also e (some es) = some (e ∷ es)

abbrev decode_from : ℕ → ℕ → String → Option (List EntryN)
decode_from id n stop = some []
decode_from id n (push c s) =
    let more_id = decode_from (id + 1) n s in
    let more_n = decode_from id (n + 1) s in
    let rest = also (record { id = id; n = n }) (decode_from 0 0 s) in
    if eqb (code c) 97 then more_id else if eqb (code c) 98 then more_n else rest

abbrev pub decode : String → Option (List EntryN)
decode s = decode_from 0 0 s

skip_a : (id n k : ℕ) (s : String) → decode_from id n (marks "a" k s) ≡ decode_from (id + k) n s
skip_a id n zero s = ap (λ i. decode_from i n s) (omega arith)
skip_a id n (suc k) s = skip_a (id + 1) n k s ∙ ap (λ i. decode_from i n s) (omega arith)

skip_b : (id n k : ℕ) (s : String) → decode_from id n (marks "b" k s) ≡ decode_from id (n + k) s
skip_b id n zero s = ap (λ i. decode_from id i s) (omega arith)
skip_b id n (suc k) s = skip_b id (n + 1) k s ∙ ap (λ i. decode_from id i s) (omega arith)

pub decode-encode : (es : List EntryN) → decode (encode es) ≡ some es
decode-encode [] = refl
decode-encode (e ∷ es) =
    skip_a 0 0 e.id (marks "b" e.n (push "c" (encode es)))
    ∙ skip_b (0 + e.id) 0 e.n (push "c" (encode es))
    ∙ ap (λ l. also (record { id = 0 + e.id; n = 0 + e.n }) l) (decode-encode es)
    ∙ ap (λ x. some (x ∷ es)) (same_entry e)
  where
    same_entry : (x : EntryN) → record { id = 0 + x.id; n = 0 + x.n } ≡ x
    same_entry x = ground arith

abbrev empty_value : KvOutput
empty_value = record { value = ""; version = 1; err = "OK" }

abbrev idle : Client
idle = record { phase = before_get; i = 0; nok = 0; nmay = 0 }

abbrev begun : World
begun = record { store = record { value = ""; version = 1 }; client = λ me. idle }

began : start_world encode decode ≡ begun
unfolding start_world
began = refl

abbrev first_got : World
first_got = record begun {
  client = set_client begun.client 0 (record idle { phase = before_put [] 1 });
}

abbrev both_got : World
both_got = record first_got {
  client = set_client first_got.client 1 (record idle { phase = before_put [] 1 });
}

abbrev answer : String → KvOutput
answer err = record { value = ""; version = 0; err = err }

abbrev first_put : World
first_put = record {
  store = record { value = encode (record { id = 0; n = 0 } ∷ []); version = 2 };
  client = set_client both_got.client 0 (after_put "OK" (both_got.client 0));
}

-- The other client's put fails, since the version has changed.
abbrev both_put : World
both_put = record {
  store = first_put.store;
  client = set_client first_put.client 1 (after_put "ErrVersion" (first_put.client 1));
}

AppendRun-both_got : AppendRun encode decode 2 both_got
unfolding start_world step
AppendRun-both_got =
    ran (ran started (gets 0 empty_value (omega arith) refl refl refl refl refl))
      (gets 1 empty_value (omega arith) refl refl refl refl refl)

AppendRun-first_put : AppendRun encode decode 2 first_put
unfolding step step_put put_input appended
AppendRun-first_put =
    ran AppendRun-both_got (puts 0 (answer "OK") (omega arith) refl (omega arith) refl)

AppendRun-both_put : AppendRun encode decode 2 both_put
unfolding step step_put put_input appended after_put
AppendRun-both_put =
    ran AppendRun-first_put (puts 1 (answer "ErrVersion") (omega arith) refl (omega arith) refl)

check_appends-passes_example :
    (es : List EntryN) × (decode both_put.store.value ≡ some es)
    × (check_appends es 2 (results 0 2 both_put.client) both_put.store.version ≡ ok tt)
check_appends-passes_example =
    check_appends-passes encode decode decode-encode 2 both_put AppendRun-both_put
