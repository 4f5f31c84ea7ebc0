-- ===== src/KvTest/Run/Agreement.antt =====
-- How a client agrees with the store, and what its own steps and those of others do to that.
use pluggable_sharded_fault.Base.{
  ℕ, ◌+◌, ◌≤◌, ◌<◌, ◌≡◌, ◌≢◌, some, List, [], String, string_eq, nat_eq, eqb, eqb_iff, arith, All,
  length, get_or, Bool-cases, inl, inr, ◌⊎◌,
}
use mathlib.Core.Path.{subst}
use pluggable_sharded_fault.KvTest.{ok_err, err_maybe, EntryN, Counts, count_entries, clear_from}
use pluggable_sharded_fault.KvTest.Appends.{entries}
use pluggable_sharded_fault.KvTest.Run.{
  before_get, before_put, Client, World, set_client, appended, after_put,
}
use pluggable_sharded_fault.KvTest.Run.Counting.{entries-append}

-- Where the count of the entries starts
abbrev pub cleared : ℕ → Counts
cleared n = record { expect = clear_from 0 n []; skipped = clear_from 0 n [] }

-- A client agrees with the store: what it got is not newer, and the same where the version is the
-- same; its numbers were all used; each put that was answered with OK is an entry; and no entry of
-- it has a number that it has not used.
pub record Agrees (version : ℕ) (es : List EntryN) (r : Counts) (me : ℕ) (c : Client) : Type 0 where
  pub seen :
      (got : List EntryN) (ver : ℕ)
      → c.phase ≡ before_put got ver
      → (ver ≤ version) × (ver ≡ version → got ≡ es)
  pub tried : c.i ≡ c.nok + c.nmay
  pub kept : c.nok ≤ entries me es
  pub due : get_or me 0 r.expect ≤ c.i

pub record Holds (n : ℕ) (encode : List EntryN → String) (w : World) (es : List EntryN) (r : Counts)
    : Type 0 where
  pub value : w.store.value ≡ encode es
  pub version : w.store.version ≡ length es + 1
  pub ids : All (λ e. e.id < n) es
  pub counted : count_entries es (cleared n) ≡ some r
  pub clients : (me : ℕ) → Agrees w.store.version es r me (w.client me)

-- A client that does not put
pub Agrees-quiet :
    {version : ℕ} {es : List EntryN} {r : Counts} {me : ℕ} {c d : Client}
    → Agrees version es r me c
    → d.phase ≡ before_get
    → d.nok ≡ c.nok
    → c.i ≤ d.i
    → d.i ≡ d.nok + d.nmay
    → Agrees version es r me d
Agrees-quiet a phase nok i tried = record {
  seen = λ got ver h. cc;
  tried = tried;
  kept = omega (arith, nok, a.kept);
  due = omega (arith, i, a.due);
}

-- The put of a client is accepted, and answered with OK or not.
pub Agrees-put :
    {version : ℕ} {es : List EntryN} {r q : Counts} {me : ℕ} {c d : Client}
    → Agrees version es r me c
    → get_or me 0 q.expect ≡ c.i + 1
    → d.phase ≡ before_get
    → d.nok ≤ c.nok + 1
    → d.i ≡ c.i + 1
    → d.i ≡ d.nok + d.nmay
    → Agrees (version + 1) (appended me c es) q me d
unfolding appended
Agrees-put {es = es} {me = me} {c = c} a next phase nok i tried = record {
  seen = λ got ver h. cc;
  tried = tried;
  kept =
      ground
        (arith, nok, a.kept, entries-append me es (record { id = me; n = c.i }), eqb_iff me me);
  due = omega (arith, next, i);
}

-- Another client when a put is accepted
pub Agrees-other :
    {version : ℕ} {es : List EntryN} {r q : Counts} {me j : ℕ} (c : Client) {d : Client}
    → me ≢ j
    → Agrees version es r j d
    → get_or j 0 q.expect ≡ get_or j 0 r.expect
    → Agrees (version + 1) (appended me c es) q j d
unfolding appended
Agrees-other {es = es} {me = me} {j = j} c other a same = record {
  seen = λ got ver h.
      let (older, _) = a.seen got ver h in
      (omega (arith, older), λ e. absurd (omega (arith, older, e)));
  tried = a.tried;
  kept = ground (arith, a.kept, entries-append j es (record { id = me; n = c.i }), eqb_iff me j);
  due = omega (arith, same, a.due);
}

-- An answer to a put that was accepted
pub after_put-answered :
    (err : String) (c : Client)
    → (err ≡ ok_err) ⊎ (err ≡ err_maybe)
    → c.i ≡ c.nok + c.nmay
    → ((after_put err c).phase ≡ before_get)
      × ((after_put err c).nok ≤ c.nok + 1)
      × ((after_put err c).i ≡ c.i + 1)
      × ((after_put err c).i ≡ (after_put err c).nok + (after_put err c).nmay)
unfolding after_put
after_put-answered err c h tried = (
  ground arith,
  ground arith,
  ground (arith, h, string_eq.same_iff err ok_err, string_eq.same_iff err err_maybe),
  ground (arith, tried),
)

-- Any answer but OK
pub after_put-failed :
    (err : String) (c : Client)
    → err ≢ ok_err
    → c.i ≡ c.nok + c.nmay
    → ((after_put err c).phase ≡ before_get)
      × ((after_put err c).nok ≡ c.nok)
      × (c.i ≤ (after_put err c).i)
      × ((after_put err c).i ≡ (after_put err c).nok + (after_put err c).nmay)
unfolding after_put
after_put-failed err c h tried = (
  ground arith,
  ground (arith, h, string_eq.same_iff err ok_err),
  ground arith,
  ground (arith, tried),
)

pub set_client_all :
    (f : ℕ → Client) (me : ℕ) (d : Client) (P : ℕ → Client → Type 0)
    → P me d
    → ((j : ℕ) → me ≢ j → P j (f j))
    → (j : ℕ) → P j (set_client f me d j)
set_client_all f me d P now rest j = elim (Bool-cases (eqb me j)) [
  | inl same ↦ rw same (subst (λ k. P k d) ((eqb_iff me j).0 same) now)
  | inr other ↦ rw other (rest j (ground (arith, other)))
]
