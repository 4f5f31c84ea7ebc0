-- ===== src/RaftTest/OneLeader.antt =====
-- What `checkOneLeader` promises, and that Raft keeps it from failing on two leaders.
use pluggable_sharded_fault.Base.{
  ℕ, ◌≤◌, ◌<◌, ◌≡◌, ◌≢◌, refl, sym, Bool, true, false, ◌&&◌, Option, none, some, List, [], ◌∷◌, ℤ,
  minus_one, Map, lookup, has, get_or, arith, eqb_ℤ_iff, Outcome, ok, panic, fatal, stuck, length,
  int_eq, ◌<ℤ◌, ◌≤ℤ◌, lookup-none_iff, has-lookup, ◌⊎◌, inl, inr,
}
use mathlib.Core.Path.{subst}
use pluggable_sharded_fault.RaftTest.{Readings, collect, last_term, one_leader_round}
use pluggable_sharded_fault.RaftTest.Claimants.{
  claims, claimants, claimant, two_claimants, length-claimants, one_claimant,
}
use pluggable_sharded_fault.RaftTest.Leaders.{
  get_or-collect, has-collect, collect-Distinct, last_term-fatal, last_term-panic, last_term-stuck,
  last_term-ok,
}

abbrev pub says : Readings → ℕ → Bool
says r i = r.connected i && (r.state i).1

abbrev pub term_of : Readings → ℕ → ℤ
term_of r i = (r.state i).0

-- What the end of a round tells of the readings: nobody says that it leads; or the server found is
-- the one of the last term, and no term has two; or one term has two.
abbrev pub Finds : ℕ → Readings → Outcome (Option ℕ) → Type 0
Finds n r (ok none) = (i : ℕ) → i < n → says r i ≡ false
Finds n r (ok (some l)) =
    (l < n)
    × (says r l ≡ true)
    × ((i : ℕ) → i < n → says r i ≡ true → term_of r i ≤ℤ term_of r l)
    × ((i j : ℕ)
        → i < n
        → j < n
        → says r i ≡ true
        → says r j ≡ true
        → term_of r i ≡ term_of r j
        → i ≡ j)
Finds n r fatal =
    (i : ℕ) × (j : ℕ) × (i < j)
    × (j < n)
    × (says r i ≡ true)
    × (says r j ≡ true)
    × (term_of r i ≡ term_of r j)
Finds n r _ = ⊥

claims_own : (r : Readings) (i : ℕ) → says r i ≡ true → claims r i (term_of r i) ≡ true
claims_own r i h = ground (arith, h, eqb_ℤ_iff (term_of r i) (term_of r i))

-- A server's claim puts its term among the keys, with a list that is not empty.
claimed :
    (r : Readings) (n i : ℕ) → i < n → says r i ≡ true → has (term_of r i) (collect r n) ≡ true
claimed r n i small h = ground (
  arith,
  length-claimants r (term_of r i) n i small (claims_own r i h),
  get_or-collect r (term_of r i) n,
  lookup-none_iff (term_of r i) (collect r n),
)

length-lookup :
    (r : Readings) (n : ℕ) (t : ℤ) (ids : List ℕ)
    → lookup t (collect r n) ≡ some ids
    → ids ≡ claimants r t n
length-lookup r n t ids h = ground (arith, get_or-collect r t n)

-- Two claimants of a term fill its entry.
apart :
    (r : Readings) (n : ℕ)
    → ((t : ℤ) (ids : List ℕ) → lookup t (collect r n) ≡ some ids → length ids ≤ 1)
    → (i j : ℕ) → i < j
    → j < n
    → says r i ≡ true
    → says r j ≡ true
    → term_of r i ≢ term_of r j
apart r n few i j less small hi hj same =
    let (ids, found) =
      has-lookup (term_of r i) (collect r n) (claimed r n i (omega (arith, less, small)) hi) in
    let two =
      one_claimant r (term_of r i) n i j less small (claims_own r i hi)
        (ground (arith, hj, same, eqb_ℤ_iff (term_of r j) (term_of r i))) in
    ground (arith, few (term_of r i) ids found, length-lookup r n (term_of r i) ids found, two)

empty_or_key : (m : Map ℤ (List ℕ)) → (m ≡ []) ⊎ ((length m ≢ 0) × ((k : ℤ) × (has k m ≡ true)))
empty_or_key [] = inl refl
empty_or_key ((k, v) ∷ m) = inr (ground arith, (k, ground (arith, eqb_ℤ_iff k k)))

module _ (n : ℕ) (r : Readings)
    (born : (i : ℕ) → i < n → says r i ≡ true → minus_one <ℤ term_of r i) where
  -- A term that is a key has a first claimant.
  leader_of :
      (t : ℤ)
      → has t (collect r n) ≡ true
      → (l : ℕ) × (rest : List ℕ) × (claimants r t n ≡ l ∷ rest)
  leader_of t h = go (claimants r t n) refl
    where
      go :
          (ids : List ℕ)
          → claimants r t n ≡ ids
          → (l : ℕ) × (rest : List ℕ) × (claimants r t n ≡ l ∷ rest)
      go [] e = absurd (has-collect r t n h e)
      go (l ∷ rest) e = (l, rest, e)

  proper : (t : ℤ) → has t (collect r n) ≡ true → minus_one <ℤ t
  proper t h =
      let (l, rest, e) = leader_of t h in
      let (small, ours) = claimant r t n l rest e in
      ground (arith, born l small, ours, eqb_ℤ_iff (term_of r l) t)

  largest_found :
      (top : ℤ)
      → last_term minus_one (collect r n) ≡ ok top
      → (k : ℤ) → has k (collect r n) ≡ true
      → has top (collect r n) ≡ true
  largest_found top e k key =
      let (which, after, largest, few) = last_term-ok minus_one top (collect r n) e in
      ground (arith, which, largest k key, proper k key)

  -- The first claimant of the last term, where no term has two.
  top_leader :
      (top : ℤ) (l : ℕ) (rest : List ℕ)
      → last_term minus_one (collect r n) ≡ ok top
      → claimants r top n ≡ l ∷ rest
      → Finds n r (ok (some l))
  top_leader top l rest e first =
      let (which, after, largest, few) = last_term-ok minus_one top (collect r n) e in
      let (small, ours) = claimant r top n l rest first in
      (
        small,
        ground (arith, ours),
        λ i h c.
            ground
              (arith, largest (term_of r i) (claimed r n i h c), ours, eqb_ℤ_iff (term_of r l) top),
        λ i j hi hj ci cj same. ground (arith, apart r n few i j, apart r n few j i, same),
      )

  round-top :
      (top : ℤ) → last_term minus_one (collect r n) ≡ ok top → Finds n r (one_leader_round n r)
  unfolding one_leader_round
  round-top top e = elim (empty_or_key (collect r n)) [
    | inl bare ↦
        let found : one_leader_round n r ≡ ok none = ground (arith, e, bare) in
        subst (Finds n r) (sym found) (λ i h. ground (arith, claimed r n i h, bare))
    | inr (some_entry, (k, key)) ↦
        let here = largest_found top e k key in
        let (l, rest, first) = leader_of top here in
        let got : get_or top [] (collect r n) ≡ l ∷ rest =
          ground (arith, get_or-collect r top n, first) in
        let found : one_leader_round n r ≡ ok (some l) = ground (arith, e, got, some_entry) in
        subst (Finds n r) (sym found) (top_leader top l rest e first)
  ]

  round-two : last_term minus_one (collect r n) ≡ fatal → Finds n r (one_leader_round n r)
  unfolding one_leader_round
  round-two e =
      let (t, ids, found, more) =
        last_term-fatal minus_one (collect r n) (collect-Distinct r n) e in
      let (i, j, less, small, ci, cj) =
        two_claimants r t n (ground (arith, more, length-lookup r n t ids found)) in
      let ended : one_leader_round n r ≡ fatal = ground (arith, e) in
      subst (Finds n r) (sym ended) (
        i,
        j,
        less,
        small,
        ground (arith, ci),
        ground (arith, cj),
        ground (arith, ci, cj, eqb_ℤ_iff (term_of r i) t, eqb_ℤ_iff (term_of r j) t),
      )

  -- Where the servers that claim to lead have terms that are not negative, a round of
  -- `checkOneLeader` returns, and says what the readings are: it goes on exactly when no connected
  -- server claims to lead; it finds the server that claims the last term that is claimed, when no
  -- two servers claim one term; and it fails when two do. It never panics.
  pub one_leader_round_lem : Finds n r (one_leader_round n r)
  one_leader_round_lem = go (last_term minus_one (collect r n)) refl
    where
      go :
          (o : Outcome ℤ) → last_term minus_one (collect r n) ≡ o → Finds n r (one_leader_round n r)
      go (ok top) e = round-top top e
      go fatal e = round-two e
      go panic e = absurd (last_term-panic minus_one (collect r n) e)
      go stuck e = absurd (last_term-stuck minus_one (collect r n) e)
