-- ===== src/Shardcfg/Rebalance.antt =====
-- `Rebalance`: assign the shards that have no group, then move shards one at a time.
mod Energy
pub mod Assign
pub mod Bounds
pub mod Moves
pub mod Laws
pub mod Stable
pub mod Order
use pluggable_sharded_fault.Base.{
  ℕ, zero, suc, ◌+◌, ◌*◌, Option, none, some, List, [], ◌∷◌, map, ℤ, pos, ltb, ltb_ℤ, if◌then◌else◌,
  ◌==◌, int_eq, length, set, Map, has,
}
use mathlib.Core.Option
use pluggable_sharded_fault.Shardcfg.Config.{ShardConfig, Servers}
use pluggable_sharded_fault.Shardcfg.Analyze.{Load, analyze, least}

-- The loop over a copy of the array: `s` is the index, `rest` the copy's rest.
unfoldable pub assign_from : List ℤ → ℕ → ShardConfig → ShardConfig
assign_from [] s c = c
assign_from (g ∷ rest) s c =
    assign_from rest (s + 1)
      (if has g c.groups then c else record c { shards = set c.shards s (least c) })

unfoldable pub assign_all : ShardConfig → ShardConfig
unfolding assign_from
assign_all c = assign_from c.shards 0 c

-- The inner loop: the first shard of `mg` goes to `lg`.
unfoldable pub move_one : ℤ → ℤ → List ℤ → List ℤ
move_one mg lg [] = []
move_one mg lg (g ∷ shards) = if g == mg then lg ∷ shards else g ∷ move_one mg lg shards

unfoldable pub move : ShardConfig → ShardConfig
unfolding move_one
move c = let l = analyze c in record c { shards = move_one l.most l.least c.shards }

-- The outer loop. `none` means that the fuel ran out.
unfoldable pub move_loop : ℕ → ShardConfig → Option ShardConfig
move_loop zero c = none
move_loop (suc fuel) c =
    let l = analyze c in
    let again = move_loop fuel (move c) in
    if ltb_ℤ l.mostn (pos (l.leastn + 2)) then some c else again

-- Enough for a move to each level of a sum of squares of counts.
abbrev pub enough : ShardConfig → ℕ
enough c = suc (length c.shards * length c.shards)

unfoldable pub rebalance : ShardConfig → Option ShardConfig
rebalance c =
    let assigned = assign_all c in
    if ltb (length c.groups) 1
    then some (record c { shards = map (λ _. pos 0) c.shards })
    else move_loop (enough assigned) assigned
