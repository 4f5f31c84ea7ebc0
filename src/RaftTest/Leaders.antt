-- ===== src/RaftTest/Leaders.antt =====
-- What one round of `checkOneLeader` finds: the servers that claim a term, in order.
use pluggable_sharded_fault.Base.{
  ℕ, zero, suc, ◌≤◌, ◌<◌, ◌≡◌, ◌≢◌, true, some, List, [], ◌∷◌, ◌++◌, ℤ, Map, keys, lookup, has,
  get_or, arith, ltb, ltb_ℤ, eqb_ℤ_iff, if◌then◌else◌, ok, panic, fatal, stuck, length, Distinct,
  lookup-insert, has-insert, insert-Distinct, lookup-has, int_eq, ◌⊎◌, inl, inr, ◌≤ℤ◌, Bool-cases,
}
use pluggable_sharded_fault.RaftTest.Claimants.{claimants}
use pluggable_sharded_fault.RaftTest.{Readings, collect, last_term}

nonempty : (xs : List ℕ) (x : ℕ) → xs ++ (x ∷ []) ≢ []
nonempty [] x h = cc
nonempty (y ∷ xs) x h = cc

pub get_or-collect : (r : Readings) (t : ℤ) (n : ℕ) → get_or t [] (collect r n) ≡ claimants r t n
unfolding collect claimants lookup
get_or-collect r t zero = ground arith
get_or-collect r t (suc n) = ground (
  arith,
  get_or-collect r t n,
  lookup-insert (r.state n).0 t (get_or (r.state n).0 [] (collect r n) ++ (n ∷ [])) (collect r n),
  eqb_ℤ_iff (r.state n).0 t,
)

pub has-collect : (r : Readings) (t : ℤ) (n : ℕ) → has t (collect r n) ≡ true → claimants r t n ≢ []
unfolding collect claimants
has-collect r t zero h = absurd (ground arith)
has-collect r t (suc n) h = ground (
  arith,
  has-collect r t n,
  has-insert (r.state n).0 t (get_or (r.state n).0 [] (collect r n) ++ (n ∷ [])) (collect r n),
  eqb_ℤ_iff (r.state n).0 t,
  nonempty (claimants r t n) n,
)

pub collect-Distinct : (r : Readings) (n : ℕ) → Distinct (keys (collect r n))
unfolding collect
collect-Distinct r zero = tt
collect-Distinct r (suc n) = ground (
  arith,
  collect-Distinct r n,
  insert-Distinct (r.state n).0 (get_or (r.state n).0 [] (collect r n) ++ (n ∷ [])) (collect r n),
)

pub last_term-fatal :
    (last : ℤ) (m : Map ℤ (List ℕ))
    → Distinct (keys m)
    → last_term last m ≡ fatal
    → (t : ℤ) × (ids : List ℕ) × (lookup t m ≡ some ids) × (1 < length ids)
unfolding last_term lookup
last_term-fatal last [] d h = cc
last_term-fatal last ((term, leaders) ∷ rest) d h = elim (Bool-cases (ltb 1 (length leaders))) [
  | inl e ↦ (term, leaders, ground (arith, eqb_ℤ_iff term term), ground arith)
  | inr e ↦
      let (t, ids, found, more) =
        last_term-fatal (if ltb_ℤ last term then term else last) rest d.1 (ground arith) in
      (t, ids, ground (arith, d.0, eqb_ℤ_iff term t, lookup-has t rest ids found), more)
]

pub last_term-panic : (last : ℤ) (m : Map ℤ (List ℕ)) → last_term last m ≢ panic
unfolding last_term
last_term-panic last [] h = cc
last_term-panic last ((term, leaders) ∷ rest) h =
    ground (arith, last_term-panic (if ltb_ℤ last term then term else last) rest)

pub last_term-stuck : (last : ℤ) (m : Map ℤ (List ℕ)) → last_term last m ≢ stuck
unfolding last_term
last_term-stuck last [] h = cc
last_term-stuck last ((term, leaders) ∷ rest) h =
    ground (arith, last_term-stuck (if ltb_ℤ last term then term else last) rest)

-- The last term is the largest, and no term has two leaders.
pub last_term-ok :
    (last top : ℤ) (m : Map ℤ (List ℕ))
    → last_term last m ≡ ok top
    → ((top ≡ last) ⊎ (has top m ≡ true))
      × (last ≤ℤ top)
      × ((t : ℤ) → has t m ≡ true → t ≤ℤ top)
      × ((t : ℤ) (ids : List ℕ) → lookup t m ≡ some ids → length ids ≤ 1)
unfolding last_term lookup
last_term-ok last top [] h =
    (inl (ground arith), ground arith, λ t h. absurd (ground arith), λ t ids h. cc)
last_term-ok last top ((term, leaders) ∷ rest) h =
    let (which, after, largest, few) =
      last_term-ok (if ltb_ℤ last term then term else last) top rest (ground arith) in
    (
      ground (arith, which, eqb_ℤ_iff term top),
      ground (arith, after),
      λ t i. ground (arith, largest t, after, eqb_ℤ_iff term t),
      λ t ids i. ground (arith, few t ids, eqb_ℤ_iff term t),
    )
