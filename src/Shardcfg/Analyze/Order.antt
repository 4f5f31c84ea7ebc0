-- ===== src/Shardcfg/Analyze/Order.antt =====
-- The comment in `analyze` on deterministic ordering: the order of the map does not matter.
use mathlib.Core.List.{Permᴰ}
use pluggable_sharded_fault.Base.{◌≡◌, ap, [], ℤ, Map, keys, sort-eq_of_perm}
use pluggable_sharded_fault.Shardcfg.Config.{ShardConfig, Servers}
use pluggable_sharded_fault.Shardcfg.Analyze.{tally, no_load, scan, analyze}

keys-perm : {m w : Map ℤ Servers} → Permᴰ m w → Permᴰ (keys m) (keys w)
keys-perm Permᴰ.nil = Permᴰ.nil
keys-perm (Permᴰ.cons e p) = Permᴰ.cons (ap (λ x. x.0) e) (keys-perm p)
keys-perm (Permᴰ.swap p q) = Permᴰ.swap (ap (λ x. x.0) p) (ap (λ x. x.0) q)
keys-perm (Permᴰ.trans p q) = Permᴰ.trans (keys-perm p) (keys-perm q)

pub analyze-eq_of_perm :
    (c : ShardConfig) (groups : Map ℤ Servers)
    → Permᴰ c.groups groups
    → analyze c ≡ analyze (record c { groups = groups })
unfolding analyze
analyze-eq_of_perm c groups p =
    ap (λ gs. scan (tally [] c.shards) gs no_load) (sort-eq_of_perm (keys-perm p))
