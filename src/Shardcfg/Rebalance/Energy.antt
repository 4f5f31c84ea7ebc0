-- ===== src/Shardcfg/Rebalance/Energy.antt =====
-- Sums over the groups, and the one that falls with each move: the squares of the counts.
use pluggable_sharded_fault.Base.{
  ℕ, ◌∙◌, ◌+◌, ◌*◌, ◌≤◌, ◌≡◌, ◌≢◌, refl, true, List, [], ◌∷◌, arith, ℤ, eqb_ℤ_iff, if◌then◌else◌,
  ◌==◌, int_eq, length, mem, count, count-le-length, Distinct, Bool-cases, inl, inr,
}

abbrev pub sum_over : (ℤ → ℕ) → List ℤ → ℕ
sum_over f [] = 0
sum_over f (g ∷ gs) = f g + sum_over f gs

sum_over-eq :
    (f h : ℤ → ℕ) (gs : List ℤ)
    → ((g : ℤ) → mem g gs ≡ true → h g ≡ f g)
    → sum_over h gs ≡ sum_over f gs
sum_over-eq f h [] same = refl
sum_over-eq f h (g ∷ gs) same = omega (
  arith,
  same g (ground (arith, eqb_ℤ_iff g g)),
  sum_over-eq f h gs (λ j hj. same j (ground arith)),
)

-- Two functions that differ at one item of a list without repetition.
pub sum_over_point :
    (f h : ℤ → ℕ) (a : ℤ) (gs : List ℤ)
    → Distinct gs
    → mem a gs ≡ true
    → ((g : ℤ) → g ≢ a → h g ≡ f g)
    → sum_over h gs + f a ≡ sum_over f gs + h a
sum_over_point f h a [] d m same = absurd (ground arith)
sum_over_point f h a (g ∷ gs) d m same = elim (Bool-cases (g == a)) [
  | inl here ↦
      let e : g ≡ a = (eqb_ℤ_iff g a).0 here in
      let rest : sum_over h gs ≡ sum_over f gs =
        sum_over-eq f h gs (λ j hj. same j (λ q. ground (arith, eqb_ℤ_iff g a))) in
      rw e (omega (arith, rest))
  | inr other ↦ omega (
    arith,
    sum_over_point f h a gs d.1 (ground arith) same,
    same g (λ q. ground (arith, eqb_ℤ_iff g a)),
  )
]

-- One unit goes from `a` to `b`.
pub energy_falls :
    (f h : ℤ → ℕ) (a b : ℤ) (gs : List ℤ)
    → Distinct gs
    → mem a gs ≡ true
    → mem b gs ≡ true
    → a ≢ b
    → h a + 1 ≡ f a
    → h b ≡ f b + 1
    → ((g : ℤ) → g ≢ a → g ≢ b → h g ≡ f g)
    → sum_over (λ g. h g * h g) gs + 2 * f a ≡ sum_over (λ g. f g * f g) gs + 2 * f b + 2
energy_falls f h a b gs d ma mb ne ha hb same = omega (
  arith,
  sum_over_point (λ g. f g * f g) mid a gs d ma (λ g q. ground (arith, eqb_ℤ_iff g a)),
  sum_over_point mid (λ g. h g * h g) b gs d mb (λ g q. ground (arith, eqb_ℤ_iff g a, same g)),
  mid_a,
  mid_b,
  squares_a,
  squares_b,
)
  where
    mid : ℤ → ℕ
    mid g = if g == a then h a * h a else f g * f g

    mid_a : mid a ≡ h a * h a
    mid_a = ground (arith, eqb_ℤ_iff a a)

    mid_b : mid b ≡ f b * f b
    mid_b = ground (arith, eqb_ℤ_iff b a, eqb_ℤ_iff a b)

    squares_a : f a * f a ≡ h a * h a + 2 * h a + 1
    squares_a = rw (← ha) (omega arith)

    squares_b : h b * h b ≡ f b * f b + 2 * f b + 1
    squares_b = rw hb (omega arith)

sum_over_zero :
    (f : ℤ → ℕ) (gs : List ℤ) → ((g : ℤ) → mem g gs ≡ true → f g ≡ 0) → sum_over f gs ≡ 0
sum_over_zero f gs none_at = sum_over-eq (λ _. 0) f gs none_at ∙ zeros gs
  where
    zeros : (l : List ℤ) → sum_over (λ _. 0) l ≡ 0
    zeros [] = refl
    zeros (j ∷ l) = omega (arith, zeros l)

sum_over_add :
    (f h : ℤ → ℕ) (gs : List ℤ) → sum_over (λ g. f g + h g) gs ≡ sum_over f gs + sum_over h gs
sum_over_add f h [] = refl
sum_over_add f h (g ∷ gs) = omega (arith, sum_over_add f h gs)

sum_over_scale :
    (f h : ℤ → ℕ) (n : ℕ) (gs : List ℤ)
    → ((g : ℤ) → f g ≤ n * h g)
    → sum_over f gs ≤ n * sum_over h gs
sum_over_scale f h n [] le = omega arith
sum_over_scale f h n (g ∷ gs) le = omega (arith, le g, sum_over_scale f h n gs le)

sum_over-one : (x : ℤ) (gs : List ℤ) → Distinct gs → sum_over (λ g. if x == g then 1 else 0) gs ≤ 1
sum_over-one x [] d = omega arith
sum_over-one x (g ∷ gs) d = elim (Bool-cases (x == g)) [
  | inl here ↦ rw here (omega (arith, none_left ((eqb_ℤ_iff x g).0 here)))
  | inr other ↦ rw other (omega (arith, sum_over-one x gs d.1))
]
  where
    none_left : x ≡ g → sum_over (λ j. if x == j then 1 else 0) gs ≡ 0
    none_left e =
        sum_over_zero (λ j. if x == j then 1 else 0) gs
          (λ j hj. ground (arith, eqb_ℤ_iff x j, d.0, e))

-- Each shard counts for at most one of the groups.
sum_over-count :
    (gs shards : List ℤ) → Distinct gs → sum_over (λ g. count g shards) gs ≤ length shards
sum_over-count gs [] d = omega (arith, sum_over_zero (λ g. count g []) gs (λ g _. refl))
sum_over-count gs (x ∷ shards) d = omega (
  arith,
  sum_over_add (λ g. if x == g then 1 else 0) (λ g. count g shards) gs,
  sum_over-one x gs d,
  sum_over-count gs shards d,
)

-- The sum of squares is within the fuel of `Rebalance`.
pub energy_bound :
    (gs shards : List ℤ)
    → Distinct gs
    → sum_over (λ g. count g shards * count g shards) gs ≤ length shards * length shards
energy_bound gs shards d = grind (
  arith,
  sum_over_scale (λ g. count g shards * count g shards) (λ g. count g shards) (length shards) gs
      (λ g. grind (arith, count-le-length g shards)),
  sum_over-count gs shards d,
)
