-- ===== src/Shardcfg/Rebalance/Bounds.antt =====
-- How many shards a group gets.
use pluggable_sharded_fault.Base.{
  ℕ, ◌+◌, ◌*◌, ◌≤◌, ◌<◌, ◌≡◌, refl, true, List, [], ◌∷◌, arith, ℤ, eqb_ℤ_iff, ◌==◌, int_eq, length,
  mem, count, Distinct, has, keys, All, Bool-cases, inl, inr, some,
}
use mathlib.Core.Path.{subst, sym}
use pluggable_sharded_fault.Shardcfg.Config.{ShardConfig, IsConfig}
use pluggable_sharded_fault.Shardcfg.Rebalance.{rebalance}
use pluggable_sharded_fault.Shardcfg.Rebalance.Energy.{sum_over, sum_over_point}
use pluggable_sharded_fault.Shardcfg.Rebalance.Laws.{IsRebalanced, rebalance-IsRebalanced}

sum_over_zero : (gs : List ℤ) → sum_over (λ g. 0) gs ≡ 0
sum_over_zero [] = refl
sum_over_zero (g ∷ gs) = omega (arith, sum_over_zero gs)

module _ (f : ℤ → ℕ) (x : ℕ) where
  sum_over-le :
      (gs : List ℤ)
      → ((h : ℤ) → mem h gs ≡ true → f h ≤ x + 1)
      → sum_over f gs ≤ length gs * (x + 1)
  sum_over-le [] most = omega arith
  sum_over-le (h ∷ gs) most = omega (
    arith,
    most h (ground (arith, eqb_ℤ_iff h h)),
    sum_over-le gs (λ j hj. most j (ground (arith, hj))),
  )

  sum_over-ge :
      (gs : List ℤ)
      → ((h : ℤ) → mem h gs ≡ true → x ≤ f h + 1)
      → length gs * x ≤ sum_over f gs + length gs
  sum_over-ge [] least = omega arith
  sum_over-ge (h ∷ gs) least = omega (
    arith,
    least h (ground (arith, eqb_ℤ_iff h h)),
    sum_over-ge gs (λ j hj. least j (ground (arith, hj))),
  )

  -- One item has exactly `x`.
  sum_over-lt :
      (gs : List ℤ) (g : ℤ)
      → mem g gs ≡ true
      → f g ≡ x
      → ((h : ℤ) → mem h gs ≡ true → (f h ≤ x + 1) × (x ≤ f h + 1))
      → (sum_over f gs < length gs * (x + 1)) × (length gs * x < sum_over f gs + length gs)
  sum_over-lt [] g m same near = absurd (ground arith)
  sum_over-lt (h ∷ gs) g m same near = elim (Bool-cases (h == g)) [
    | inl here ↦
        let own : f h ≡ x = ground (arith, here, same, eqb_ℤ_iff h g) in
        let up = sum_over-le gs (λ j hj. (near j (ground (arith, hj))).0) in
        let down = sum_over-ge gs (λ j hj. (near j (ground (arith, hj))).1) in
        (omega (arith, own, up), omega (arith, own, down))
    | inr other ↦
        let (up, down) =
          sum_over-lt gs g (ground (arith, m, other)) same (λ j hj. near j (ground (arith, hj))) in
        let this = near h (ground (arith, eqb_ℤ_iff h h)) in
        (omega (arith, up, this.0), omega (arith, down, this.1))
  ]

-- Every shard is counted for one group.
sum_over-count :
    (gs shards : List ℤ)
    → Distinct gs
    → All (λ g. mem g gs ≡ true) shards
    → sum_over (λ g. count g shards) gs ≡ length shards
sum_over-count gs [] d all = sum_over_zero gs
sum_over-count gs (s ∷ shards) d (here, all) =
    let moved =
      sum_over_point (λ g. count g shards) (λ g. count g (s ∷ shards)) s gs d here
        (λ g ne. ground (arith, ne, eqb_ℤ_iff s g)) in
    let one : count s (s ∷ shards) ≡ 1 + count s shards = ground (arith, eqb_ℤ_iff s s) in
    omega (arith, moved, one, sum_over-count gs shards d all)

near :
    {c r : ShardConfig}
    → IsRebalanced c r
    → (g k : ℤ) → has g c.groups ≡ true
    → has k c.groups ≡ true
    → count k r.shards ≤ count g r.shards + 1
near {c} {r} a g k hg hk =
    a.balanced k g (subst (λ m. has k m ≡ true) (sym a.groups) hk)
      (subst (λ m. has g m ≡ true) (sym a.groups) hg)

-- With a group, Rebalance returns, and a group then has the number of shards divided by the number
-- of groups, rounded down or up: with `k` of `s` shards among `n` groups, `n * k < s + n` and
-- `s < n * (k + 1)`.
pub count-rebalance :
    (c : ShardConfig) (g : ℤ)
    → IsConfig c
    → has g c.groups ≡ true
    → (r : ShardConfig) × (rebalance c ≡ some r)
      × (length (keys c.groups) * count g r.shards < length c.shards + length (keys c.groups))
      × (length c.shards < length (keys c.groups) * (count g r.shards + 1))
count-rebalance c g v h =
    let (r, done, a) = rebalance-IsRebalanced c g v h in
    let in_groups : All (λ k. mem k (keys c.groups) ≡ true) r.shards =
      subst (λ m. All (λ k. mem k (keys m) ≡ true) r.shards) a.groups a.assigned in
    let all = sum_over-count (keys c.groups) r.shards v.distinct in_groups in
    let (up, down) =
      sum_over-lt (λ k. count k r.shards) (count g r.shards) (keys c.groups) g h refl
        (λ k hk. (near a g k h hk, near a k g hk h)) in
    (r, done, omega (arith, down, all, a.sized), omega (arith, up, all, a.sized))
