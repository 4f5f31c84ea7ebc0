-- ===== src/KvTest/Run/Passes.antt =====
-- The check of the appended entries passes after every run.
use pluggable_sharded_fault.Base.{
  ℕ, zero, suc, ◌+◌, ◌≤◌, ◌<◌, ◌≡◌, refl, sym, ap, ◌∙◌, true, Option, some, List, [], ◌∷◌, String,
  nat_eq, eqb_iff, arith, All, get_elem?, get_or, has, keys, Distinct, insert, lookup, has-insert,
  insert-Distinct, Map, Option-cases, inl, inr, ok,
}
use mathlib.Core.Path.{subst}
use mathlib.Core.Option.{some-injective}
use pluggable_sharded_fault.KvTest.{
  ClntRes, EntryN, Counts, count_entry, count_entries, clear_from, check_clients, check_appends,
}
use pluggable_sharded_fault.KvTest.Appends.{count_entries-entries}
use pluggable_sharded_fault.KvTest.Run.{Client, World, AppendRun, results}
use pluggable_sharded_fault.KvTest.Run.Counting.{clear_from-zero}
use pluggable_sharded_fault.KvTest.Run.Agreement.{cleared, Agrees}
use pluggable_sharded_fault.KvTest.Run.Invariant.{AppendRun-Holds}

-- The counts have one entry for each client, and no others.
abbrev IsCounts : ℕ → Counts → Type 0
IsCounts n c = Distinct (keys c.expect) × ((k : ℕ) → has k c.expect ≡ true → k < n)

expect-count_entry :
    (e : EntryN) (c r : Counts)
    → count_entry e c ≡ some r
    → r.expect ≡ insert e.id (e.n + 1) c.expect
unfolding count_entry
expect-count_entry e c r h = ground (arith, h)

count_entry-IsCounts :
    (n : ℕ) (e : EntryN) (c r : Counts)
    → e.id < n
    → IsCounts n c
    → count_entry e c ≡ some r
    → IsCounts n r
count_entry-IsCounts n e c r small (distinct, known) h =
    subst (λ m. Distinct (keys m) × ((k : ℕ) → has k m ≡ true → k < n))
      (sym (expect-count_entry e c r h))
      (
        insert-Distinct e.id (e.n + 1) c.expect distinct,
        λ k here.
            ground
              (arith, here, has-insert e.id k (e.n + 1) c.expect, eqb_iff e.id k, known k, small),
      )

count_entries-IsCounts :
    (n : ℕ) (es : List EntryN) (c r : Counts)
    → All (λ e. e.id < n) es
    → IsCounts n c
    → count_entries es c ≡ some r
    → IsCounts n r
unfolding count_entries
count_entries-IsCounts n [] c r small a h = subst (IsCounts n) (some-injective c r h) a
count_entries-IsCounts n (e ∷ es) c r (this, small) a h = elim (Option-cases (count_entry e c)) [
  | inl old ↦ absurd (ground (arith, h, old))
  | inr (d, one) ↦
      count_entries-IsCounts n es d r small (count_entry-IsCounts n e c d this a one)
        (ground (arith, h, one))
]

clear_from-IsCounts :
    (n i left : ℕ) (m : Map ℕ ℕ)
    → i + left ≤ n
    → Distinct (keys m) × ((k : ℕ) → has k m ≡ true → k < n)
    → Distinct (keys (clear_from i left m)) × ((k : ℕ) → has k (clear_from i left m) ≡ true → k < n)
unfolding clear_from
clear_from-IsCounts n i zero m small a = a
clear_from-IsCounts n i (suc left) m small (distinct, known) =
    clear_from-IsCounts n (i + 1) left (insert i 0 m) (omega (arith, small)) (
      insert-Distinct i 0 m distinct,
      λ k here. ground (arith, here, has-insert i k 0 m, eqb_iff i k, known k, small),
    )

abbrev result : Client → ClntRes
result c = record { nok = c.nok; nmaybe = c.nmay }

get_elem?-results :
    (me left j : ℕ) (client : ℕ → Client)
    → j < left
    → get_elem? (results me left client) j ≡ some (result (client (me + j)))
unfolding results
get_elem?-results me zero j client h = absurd (omega (arith, h))
get_elem?-results me (suc left) zero client h = ap (λ i. some (result (client i))) (omega arith)
get_elem?-results me (suc left) (suc j) client h =
    get_elem?-results (me + 1) left j client (omega (arith, h))
    ∙ ap (λ i. some (result (client i))) (omega arith)

-- The last loop passes where each entry does.
check_clients-ok :
    (expect skipped : Map ℕ ℕ) (rs : List ClntRes)
    → Distinct (keys expect)
    → ((k : ℕ)
        → has k expect ≡ true
        → (res : ClntRes) × (get_elem? rs k ≡ some res)
          × (get_or k 0 skipped ≤ res.nmaybe)
          × (get_or k 0 expect ≤ res.nok + res.nmaybe))
    → check_clients expect skipped rs ≡ ok tt
unfolding check_clients lookup
check_clients-ok [] skipped rs distinct fine = refl
check_clients-ok ((c, n) ∷ expect) skipped rs (new, distinct) fine =
    let (res, at, few, all) = fine c (ground (arith, eqb_iff c c)) in
    let rest = check_clients-ok expect skipped rs distinct (λ k here.
      let (res, at, few, all) = fine k (ground (arith, here)) in
      (res, at, few, ground (arith, all, here, new, eqb_iff c k))) in
    ground (arith, at, few, all, rest, eqb_iff c c)

-- A client's entries that are missing are at most its puts that may have failed.
few :
    (n : ℕ) (es : List EntryN) (r : Counts) (k : ℕ) {version : ℕ} (c : Client)
    → count_entries es (cleared n) ≡ some r
    → Agrees version es r k c
    → get_or k 0 r.skipped ≤ c.nmay
unfolding lookup
few n es r k c counted a = omega (
  arith,
  count_entries-entries k es (cleared n) r counted,
  clear_from-zero k 0 n [] refl,
  a.due,
  a.tried,
  a.kept,
)

-- Clients append to one key, over any service that answers as the linearizability model allows
-- and whose gets return its version: at every point of every run, `CheckAppends` on the entries
-- that the service has, the counts of the clients and the version passes. JSON decodes what it
-- encodes, and no version overflows.
pub check_appends-passes :
    (encode : List EntryN → String) (decode : String → Option (List EntryN))
    → ((es : List EntryN) → decode (encode es) ≡ some es)
    → (n : ℕ) (w : World) → AppendRun encode decode n w
    → (es : List EntryN) × (decode w.store.value ≡ some es)
      × (check_appends es n (results 0 n w.client) w.store.version ≡ ok tt)
unfolding check_appends
check_appends-passes encode decode decodes n w run =
    let (es, r, a) = AppendRun-Holds encode decode decodes run in
    let zero_start =
      clear_from-IsCounts n 0 n [] (omega arith) (tt, λ k h. absurd (ground (arith, h))) in
    let (distinct, known) = count_entries-IsCounts n es (cleared n) r a.ids zero_start a.counted in
    let passes : check_clients r.expect r.skipped (results 0 n w.client) ≡ ok tt =
      check_clients-ok r.expect r.skipped (results 0 n w.client) distinct (λ k here. (
        result (w.client k),
        get_elem?-results 0 n k w.client (known k here)
            ∙ ap (λ i. some (result (w.client i))) (omega arith),
        few n es r k (w.client k) a.counted (a.clients k),
        omega (arith, (a.clients k).due, (a.clients k).tried),
      )) in
    (es, ap decode a.value ∙ decodes es, ground (arith, a.counted, a.version, passes))
