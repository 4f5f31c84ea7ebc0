-- ===== src/RaftTest/Claimants.antt =====
-- The servers that claim one term, in the order in which a round reads them.
use pluggable_sharded_fault.Base.{
  ℕ, zero, suc, ◌≤◌, ◌<◌, ◌≡◌, refl, Bool, true, ◌&&◌, List, [], ◌∷◌, ◌++◌, ℤ, eqb_iff,
  length-append, arith, eqb_ℤ, if◌then◌else◌, length, int_eq, inl, inr, Bool-cases,
}
use pluggable_sharded_fault.RaftTest.{Readings}

-- A connected server says that it leads a term.
abbrev pub claims : Readings → ℕ → ℤ → Bool
claims r i t = r.connected i && (r.state i).1 && eqb_ℤ (r.state i).0 t

unfoldable pub claimants : Readings → ℤ → ℕ → List ℕ
claimants r t zero = []
claimants r t (suc i) =
    let before = claimants r t i in if claims r i t then before ++ (i ∷ []) else before

pub claimant :
    (r : Readings) (t : ℤ) (n l : ℕ) (rest : List ℕ)
    → claimants r t n ≡ l ∷ rest
    → (l < n) × (claims r l t ≡ true)
unfolding claimants
claimant r t zero l rest h = cc
claimant r t (suc n) l rest h = elim (Bool-cases (claims r n t)) [
  | inl e ↦ head_of (claimants r t n) (ground (arith, e, h)) (λ w k. claimant r t n l w k) e
  | inr e ↦
      let (small, ours) = claimant r t n l rest (ground (arith, e, h)) in
      (omega (arith, small), ours)
]
  where
    head_of :
        (before : List ℕ)
        → before ++ (n ∷ []) ≡ l ∷ rest
        → ((w : List ℕ) → before ≡ l ∷ w → (l < n) × (claims r l t ≡ true))
        → claims r n t ≡ true
        → (l < suc n) × (claims r l t ≡ true)
    head_of [] e deeper mine = ground (arith, e, mine)
    head_of (x ∷ before) e deeper mine = ground (arith, e, deeper before)

-- A term that has two claimants in the list has two that differ.
pub two_claimants :
    (r : Readings) (t : ℤ) (n : ℕ)
    → 1 < length (claimants r t n)
    → (i : ℕ) × (j : ℕ) × (i < j) × (j < n) × (claims r i t ≡ true) × (claims r j t ≡ true)
unfolding claimants
two_claimants r t zero h = absurd (omega (arith, h))
two_claimants r t (suc n) h = elim (Bool-cases (claims r n t)) [
  | inl e ↦
      first (claimants r t n) refl (ground (arith, e, h, length-append (claimants r t n) (n ∷ [])))
        e
  | inr e ↦
      let (i, j, less, small, ci, cj) = two_claimants r t n (ground (arith, e, h)) in
      (i, j, less, omega (arith, small), ci, cj)
]
  where
    first :
        (before : List ℕ)
        → claimants r t n ≡ before
        → 0 < length before
        → claims r n t ≡ true
        → (i : ℕ) × (j : ℕ) × (i < j) × (j < suc n) × (claims r i t ≡ true) × (claims r j t ≡ true)
    first [] e some_one mine = absurd (omega (arith, some_one))
    first (l ∷ rest) e some_one mine =
        let (small, ours) = claimant r t n l rest e in (l, n, small, omega arith, ours, mine)

pub length-claimants :
    (r : Readings) (t : ℤ) (n i : ℕ) → i < n → claims r i t ≡ true → 1 ≤ length (claimants r t n)
unfolding claimants
length-claimants r t zero i h c = absurd (omega (arith, h))
length-claimants r t (suc n) i h c =
    ground (arith, length-claimants r t n i, eqb_iff i n, length-append (claimants r t n) (n ∷ []))

pub one_claimant :
    (r : Readings) (t : ℤ) (n i j : ℕ)
    → i < j
    → j < n
    → claims r i t ≡ true
    → claims r j t ≡ true
    → 2 ≤ length (claimants r t n)
unfolding claimants
one_claimant r t zero i j less h ci cj = absurd (omega (arith, h))
one_claimant r t (suc n) i j less h ci cj = ground (
  arith,
  one_claimant r t n i j less,
  length-claimants r t n i,
  eqb_iff j n,
  length-append (claimants r t n) (n ∷ []),
)
