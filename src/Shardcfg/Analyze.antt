-- ===== src/Shardcfg/Analyze.antt =====
-- `analyze` and `least`: the groups with the most and the fewest shards.
pub mod Extremes
pub mod Order
use pluggable_sharded_fault.Base.{
  ℕ, ◌+◌, Bool, Option, none, some, List, [], ◌∷◌, ℤ, pos, minus_one, ltb, ltb_ℤ, if◌then◌else◌,
  int_eq, Map, keys, insert, get_or, sort,
}
use pluggable_sharded_fault.Shardcfg.Config.{ShardConfig}

-- `counts[g] += 1` for each shard
unfoldable pub tally : Map ℤ ℕ → List ℤ → Map ℤ ℕ
tally counts [] = counts
tally counts (g ∷ shards) = tally (insert g (get_or g 0 counts + 1) counts) shards

-- `mg`, `mn`, `lg`, `ln`
pub record Load : Type 0 where
  pub most : ℤ
  pub mostn : ℤ
  pub least : ℤ
  pub leastn : ℕ

abbrev pub no_load : Load
no_load = record { most = minus_one; mostn = minus_one; least = minus_one; leastn = 257 }

-- One round of the loop, at a group `g` with `n` shards.
unfoldable pub visit : ℕ → ℤ → Load → Load
visit n g acc =
    let low : Load = if ltb n acc.leastn then record acc { least = g; leastn = n } else acc in
    if ltb_ℤ low.mostn (pos n) then record low { most = g; mostn = pos n } else low

unfoldable pub scan : Map ℤ ℕ → List ℤ → Load → Load
scan counts [] acc = acc
scan counts (g ∷ groups) acc = scan counts groups (visit (get_or g 0 counts) g acc)

unfoldable pub analyze : ShardConfig → Load
analyze c = scan (tally [] c.shards) (sort (keys c.groups)) no_load

unfoldable pub least : ShardConfig → ℤ
least c = (analyze c).least
