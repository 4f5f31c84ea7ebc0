-- ===== src/RaftTest/Terms.antt =====
-- What `checkTerms` and `checkNoLeader` tell when they do not fail the test, and when they do.
use pluggable_sharded_fault.Base.{
  ℕ, zero, suc, ◌<◌, ◌≡◌, ◌≢◌, refl, true, false, ℤ, minus_one, arith, eqb_ℤ, eqb_ℤ_iff, eqb_iff,
  Outcome, ok, panic, fatal, stuck, Bool-cases, inl, inr, ◌⊎◌, ◌<ℤ◌,
}
use mathlib.Core.Path.{subst, sym}
use pluggable_sharded_fault.RaftTest.{Readings, check_terms_from, check_terms, check_no_leader}
use pluggable_sharded_fault.RaftTest.OneLeader.{says, term_of}

-- How `checkTerms` ends: with the term of every connected server, -1 where there is none, or
-- because two connected servers are in different terms.
abbrev pub TermsEnd : ℕ → Readings → Outcome ℤ → Type 0
TermsEnd n r (ok t) =
    ((i : ℕ) → i < n → r.connected i ≡ true → term_of r i ≡ t)
    × ((t ≡ minus_one) ⊎ ((i : ℕ) × (i < n) × (r.connected i ≡ true)))
TermsEnd n r fatal =
    (i : ℕ) × (j : ℕ) × (i < n)
    × (j < n)
    × (r.connected i ≡ true)
    × (r.connected j ≡ true)
    × (term_of r i ≢ term_of r j)
TermsEnd n r _ = ⊥

check_terms_none : (r : Readings) → TermsEnd 0 r (check_terms_from 0 r)
unfolding check_terms_from
check_terms_none r = (λ i h. absurd (omega (arith, h)), inl refl)

terms_after :
    (n : ℕ) (r : Readings) (o : Outcome ℤ)
    → check_terms_from n r ≡ o
    → TermsEnd n r o
    → ((i : ℕ) → i < suc n → r.connected i ≡ true → minus_one <ℤ term_of r i)
    → TermsEnd (suc n) r (check_terms_from (suc n) r)
unfolding check_terms_from
terms_after n r fatal e (i, j, hi, hj, ci, cj, differ) born =
    let ended : check_terms_from (suc n) r ≡ fatal = ground (arith, e) in
    subst (TermsEnd (suc n) r) (sym ended)
      (i, j, omega (arith, hi), omega (arith, hj), ci, cj, differ)
terms_after n r (ok t) e (same, some_one) born = elim (Bool-cases (r.connected n)) [
  | inr off ↦
      let ended : check_terms_from (suc n) r ≡ ok t = ground (arith, e, off) in
      subst (TermsEnd (suc n) r) (sym ended) (
        λ i h c. ground (arith, same i, off, eqb_iff i n),
        elim some_one [ inl z ↦ inl z | inr (i, h, c) ↦ inr (i, omega (arith, h), c) ],
      )
  | inl on ↦ elim (Bool-cases (eqb_ℤ t minus_one)) [
    | inl first ↦
        let ended : check_terms_from (suc n) r ≡ ok (term_of r n) = ground (arith, e, on, first) in
        subst (TermsEnd (suc n) r) (sym ended) (
          λ i h c. ground (arith, same i, born i h c, first, eqb_ℤ_iff t minus_one, eqb_iff i n),
          inr (n, omega arith, on),
        )
    | inr again ↦ elim some_one [
      | inl z ↦ absurd (ground (arith, z, again, eqb_ℤ_iff t minus_one))
      | inr (i, h, c) ↦ elim (Bool-cases (eqb_ℤ t (term_of r n))) [
        | inl agree ↦
            let ended : check_terms_from (suc n) r ≡ ok t = ground (arith, e, on, again, agree) in
            subst (TermsEnd (suc n) r) (sym ended) (
              λ j hj cj. ground (arith, same j, agree, eqb_ℤ_iff t (term_of r n), eqb_iff j n),
              inr (i, omega (arith, h), c),
            )
        | inr differ ↦
            let ended : check_terms_from (suc n) r ≡ fatal = ground (arith, e, on, again, differ) in
            subst (TermsEnd (suc n) r) (sym ended) (
              i,
              n,
              omega (arith, h),
              omega arith,
              c,
              on,
              ground (arith, same i h c, differ, eqb_ℤ_iff t (term_of r n)),
            )
      ]
    ]
  ]
]
terms_after n r panic e f born = absurd f
terms_after n r stuck e f born = absurd f

-- On terms that are not negative, `checkTerms` returns the term that all connected servers are
-- in, -1 only when none is connected, or fails because two of them differ.
pub check_terms_lem :
    (n : ℕ) (r : Readings)
    → ((i : ℕ) → i < n → r.connected i ≡ true → minus_one <ℤ term_of r i)
    → TermsEnd n r (check_terms n r)
unfolding check_terms
check_terms_lem n r = go n
  where
    go :
        (m : ℕ)
        → ((i : ℕ) → i < m → r.connected i ≡ true → minus_one <ℤ term_of r i)
        → TermsEnd m r (check_terms_from m r)
    go zero h = check_terms_none r
    go (suc m) h =
        terms_after m r (check_terms_from m r) refl (go m (λ i less. h i (omega (arith, less)))) h

-- `checkNoLeader` fails exactly when a connected server claims to lead.
pub check_no_leader_lem :
    (n : ℕ) (r : Readings)
    → ((check_no_leader n r ≡ ok tt) × ((i : ℕ) → i < n → says r i ≡ false))
      ⊎ ((check_no_leader n r ≡ fatal) × ((i : ℕ) × (i < n) × (says r i ≡ true)))
unfolding check_no_leader
check_no_leader_lem zero r = inl (refl, λ i h. absurd (omega (arith, h)))
check_no_leader_lem (suc n) r = elim (check_no_leader_lem n r) [
  | inr (e, (i, h, c)) ↦ inr (ground (arith, e), (i, omega (arith, h), c))
  | inl (e, quiet) ↦ elim (Bool-cases (says r n)) [
    | inl c ↦ inr (ground (arith, e, c), (n, omega arith, c))
    | inr c ↦ inl (ground (arith, e, c), λ i h. ground (arith, quiet i, c, eqb_iff i n))
  ]
]
