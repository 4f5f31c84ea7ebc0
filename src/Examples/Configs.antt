-- ===== src/Examples/Configs.antt =====
-- Configurations: the empty one, two groups that join it, and a group that leaves.
use mathlib.Core.List.{Permᴰ}
use mathlib.Core.Option
use mathlib.Core.Path.{subst}
use pluggable_sharded_fault.Base.{
  ◌≡◌, ◌<◌, ◌+◌, ◌*◌, length, ◌↔◌, refl, true, false, some, List, [], ◌∷◌, arith, ℤ, pos, int_eq,
  ok, count, eqb_ℤ_iff, Map, keys, lookup, has, insert, delete, incr,
}
use pluggable_sharded_fault.Shardcfg.Config.{ShardConfig, Servers, IsConfig, make_shard_config}
use pluggable_sharded_fault.Shardcfg.Analyze.{analyze}
use pluggable_sharded_fault.Shardcfg.Analyze.Extremes.{IsExtreme, analyze-IsExtreme}
use pluggable_sharded_fault.Shardcfg.Rebalance.{rebalance}
use pluggable_sharded_fault.Shardcfg.Rebalance.Bounds.{count-rebalance}
use pluggable_sharded_fault.Shardcfg.Rebalance.Assign.{Assigned}
use pluggable_sharded_fault.Shardcfg.Rebalance.Laws.{
  IsBalanced, IsRebalanced, rebalance-IsRebalanced,
}
use pluggable_sharded_fault.Shardcfg.Rebalance.Stable.{rebalance_stable}
use pluggable_sharded_fault.Shardcfg.Rebalance.Order.{with_groups, rebalance-eq_of_perm}
use pluggable_sharded_fault.Shardcfg.Membership.{
  join, join_from, leave, leave_from, join_balance, leave_balance,
}
use pluggable_sharded_fault.Shardcfg.Membership.Joining.{Joined, join-Joined, join-IsConfig}
use pluggable_sharded_fault.Shardcfg.Membership.Leaving.{Left, leave-Left}
use pluggable_sharded_fault.Shardcfg.Membership.RoundTrip.{leave-join}
use pluggable_sharded_fault.Shardcfg.Membership.Balance.{join_balance-passes, leave_balance-passes}
use pluggable_sharded_fault.Shardcfg.Check.{check_config, IsGood, check_config_iff}

abbrev twelve : ℤ → List ℤ
twelve g = g ∷ g ∷ g ∷ g ∷ g ∷ g ∷ g ∷ g ∷ g ∷ g ∷ g ∷ g ∷ []

abbrev new_groups : Map ℤ Servers
new_groups = (pos 1, "a" ∷ "b" ∷ []) ∷ (pos 2, "c" ∷ []) ∷ []

abbrev empty_config : ShardConfig
empty_config = record { num = pos 0; shards = twelve (pos 0); groups = [] }

abbrev joined : ShardConfig
joined = record { num = pos 1; shards = twelve (pos 0); groups = new_groups }

abbrev left : ShardConfig
left = record { num = pos 2; shards = twelve (pos 0); groups = (pos 2, "c" ∷ []) ∷ [] }

made : make_shard_config ≡ empty_config
unfolding make_shard_config
made = refl

empty_config-IsConfig : IsConfig empty_config
empty_config-IsConfig = record { sized = refl; distinct = tt }

joins : join new_groups empty_config ≡ ok (joined, true)
unfolding join join_from insert incr
joins = refl

joined-valid : IsConfig joined
joined-valid = join-IsConfig new_groups empty_config joined joins empty_config-IsConfig

leaves : leave (pos 1 ∷ []) joined ≡ ok (left, true)
unfolding leave leave_from delete incr
leaves = refl

join_balance-passes_example :
    (r : ShardConfig) × (join_balance new_groups empty_config ≡ ok (r, true))
    × (r.num ≡ pos 1)
    × (r.groups ≡ new_groups)
    × (check_config (keys new_groups) r ≡ ok tt)
join_balance-passes_example =
    join_balance-passes new_groups empty_config joined empty_config-IsConfig joins

leave_balance-passes_example :
    (r : ShardConfig) × (leave_balance (pos 1 ∷ []) joined ≡ ok (r, true))
    × (r.num ≡ pos 2)
    × (r.groups ≡ left.groups)
    × (check_config (keys left.groups) r ≡ ok tt)
leave_balance-passes_example = leave_balance-passes (pos 1 ∷ []) joined left joined-valid leaves

rebalance-IsRebalanced_example :
    (r : ShardConfig) × (rebalance joined ≡ some r) × IsRebalanced joined r
rebalance-IsRebalanced_example = rebalance-IsRebalanced joined (pos 1) joined-valid refl

count-rebalance_example :
    (r : ShardConfig) × (rebalance joined ≡ some r)
    × (length (keys joined.groups) * count (pos 2) r.shards
        < length joined.shards + length (keys joined.groups))
    × (length joined.shards < length (keys joined.groups) * (count (pos 2) r.shards + 1))
count-rebalance_example = count-rebalance joined (pos 2) joined-valid refl

abbrev single : ShardConfig
single = record { num = pos 1; shards = twelve (pos 1); groups = (pos 1, "a" ∷ []) ∷ [] }

single-IsConfig : IsConfig single
single-IsConfig = record { sized = refl; distinct = (refl, tt) }

single-Assigned : Assigned single.groups single.shards
single-Assigned = ground arith

only_group : (g : ℤ) → has g single.groups ≡ true → count g single.shards ≡ 12
only_group g h = subst (λ x. count x single.shards ≡ 12) (the_one g h) refl
  where
    the_one : (x : ℤ) → has x single.groups ≡ true → pos 1 ≡ x
    the_one x h = ground (arith, eqb_ℤ_iff (pos 1) x)

single-IsBalanced : IsBalanced single
single-IsBalanced g h hg hh = omega (arith, only_group g hg, only_group h hh)

rebalance_stable_example : rebalance single ≡ some single
rebalance_stable_example =
    rebalance_stable single (pos 1) single-IsConfig refl single-Assigned single-IsBalanced

analyze-IsExtreme_example : IsExtreme joined (analyze joined)
analyze-IsExtreme_example = analyze-IsExtreme joined (pos 2) refl (omega arith)

check_config_iff_example : (check_config (pos 1 ∷ []) single ≡ ok tt) ↔ IsGood (pos 1 ∷ []) single
check_config_iff_example = check_config_iff (pos 1 ∷ []) single single-IsConfig

join-Joined_example : (pos 1 ≡ incr (pos 0)) × Joined new_groups empty_config joined
join-Joined_example = join-Joined new_groups empty_config joined joins

leave-Left_example : (pos 2 ≡ incr (pos 1)) × Left (pos 1 ∷ []) joined left
leave-Left_example = leave-Left (pos 1 ∷ []) joined left leaves

leave-join_example :
    (q : ShardConfig) × (leave (keys new_groups) joined ≡ ok (q, true))
    × (q.shards ≡ empty_config.shards)
    × ((g : ℤ) → lookup g q.groups ≡ lookup g empty_config.groups)
leave-join_example = leave-join new_groups empty_config joined joins

single-fresh : has (pos 5) single.groups ≡ false
single-fresh = refl

abbrev swapped : Map ℤ Servers
swapped = (pos 2, "c" ∷ []) ∷ (pos 1, "a" ∷ "b" ∷ []) ∷ []

rebalance-eq_of_perm_example :
    Option.map (with_groups swapped) (rebalance (with_groups new_groups empty_config))
    ≡ rebalance (with_groups swapped empty_config)
rebalance-eq_of_perm_example = rebalance-eq_of_perm (Permᴰ.swap refl refl) empty_config
