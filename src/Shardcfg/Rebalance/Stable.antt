-- ===== src/Shardcfg/Rebalance/Stable.antt =====
-- `Rebalance` of a configuration that is assigned and balanced.
use mathlib.Core.Path.{ap₂}
use pluggable_sharded_fault.Base.{
  ℕ, suc, ◌+◌, ◌<◌, ◌≡◌, refl, true, false, some, List, [], ◌∷◌, arith, ℤ, pos, ltb, ltb_ℤ, int_eq,
  length, Map, has,
}
use pluggable_sharded_fault.Shardcfg.Config.{ShardConfig, Servers, IsConfig}
use pluggable_sharded_fault.Shardcfg.Analyze.{analyze}
use pluggable_sharded_fault.Shardcfg.Analyze.Extremes.{analyze-IsExtreme}
use pluggable_sharded_fault.Shardcfg.Rebalance.{assign_all, move_loop, enough, rebalance}
use pluggable_sharded_fault.Shardcfg.Rebalance.Assign.{Assigned, Keeps, assign_all-Assigned}
use pluggable_sharded_fault.Shardcfg.Rebalance.Laws.{IsBalanced, length_pos}

Keeps-eq :
    (groups : Map ℤ Servers) (was now : List ℤ)
    → Assigned groups was
    → Keeps groups was now
    → now ≡ was
Keeps-eq groups [] [] a k = refl
Keeps-eq groups [] (h ∷ now) a k = absurd k
Keeps-eq groups (g ∷ was) [] a k = absurd k
Keeps-eq groups (g ∷ was) (h ∷ now) a k = ap₂ ◌∷◌ (k.0 a.0) (Keeps-eq groups was now a.1 k.1)

config-eq : (a b : ShardConfig) → a.num ≡ b.num → a.groups ≡ b.groups → a.shards ≡ b.shards → a ≡ b
config-eq a b p q r = λ i. record { num = p i; shards = r i; groups = q i }

-- Rebalance leaves a configuration alone whose shards all have a group and whose groups are
-- balanced, so a second Rebalance changes nothing.
pub rebalance_stable :
    (c : ShardConfig) (g : ℤ)
    → IsConfig c
    → has g c.groups ≡ true
    → Assigned c.groups c.shards
    → IsBalanced c
    → rebalance c ≡ some c
unfolding rebalance move_loop
rebalance_stable c g v h a b = rw nonempty loop
  where
    nonempty : ltb (length c.groups) 1 ≡ false
    nonempty = ground (arith, length_pos g c.groups h)

    small : length c.shards < 257
    small = omega (arith, v.sized)

    same : assign_all c ≡ c
    same =
        let (n, groups, _, kept) = assign_all-Assigned c g h small in
        config-eq (assign_all c) c n groups
          (Keeps-eq c.groups c.shards (assign_all c).shards a kept)

    stop : ltb_ℤ (analyze c).mostn (pos ((analyze c).leastn + 2)) ≡ true
    stop =
        let x = analyze-IsExtreme c g h small in
        ground (
          arith,
          x.most_count,
          x.least_count,
          b (analyze c).most (analyze c).least x.most_in x.least_in,
        )

    ends : (fuel : ℕ) → move_loop (suc fuel) c ≡ some c
    ends fuel = rw stop

    loop : move_loop (enough (assign_all c)) (assign_all c) ≡ some c
    loop = rw same (ends _)
