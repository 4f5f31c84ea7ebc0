-- ===== src/Shardcfg/Routing.antt =====
-- From a key to the servers of its group, and `Copy`.
use pluggable_sharded_fault.Base.{
  ℕ, zero, suc, ◌≡◌, refl, true, none, some, List, [], ◌∷◌, String, arith, ℤ, eqb_ℤ_iff, int_eq,
  get_elem?, get_elem?-lt, mem, Distinct, Map, keys, lookup, has, has-lookup, insert, lookup-insert,
  lookup-none_iff,
}
use pluggable_sharded_fault.Shardcfg.Config.{
  ShardConfig, Servers, IsConfig, key2shard, gid_servers, is_member, copy, copy_groups,
  make_shard_config,
}
use pluggable_sharded_fault.Shardcfg.Rebalance.Assign.{Assigned}

Assigned-get :
    (groups : Map ℤ Servers) (l : List ℤ) (i : ℕ) (g : ℤ)
    → Assigned groups l
    → get_elem? l i ≡ some g
    → (has g groups ≡ true) × (mem g l ≡ true)
Assigned-get groups [] i g a h = cc
Assigned-get groups (x ∷ l) zero g a h = ground (arith, a.0, eqb_ℤ_iff x g)
Assigned-get groups (x ∷ l) (suc i) g a h = ground (arith, Assigned-get groups l i g a.1)

gid_servers_at :
    (c : ShardConfig) (sh : ℕ) (gid : ℤ) (srvs : Servers)
    → get_elem? c.shards sh ≡ some gid
    → lookup gid c.groups ≡ some srvs
    → gid_servers c sh ≡ some (gid, srvs, true)
unfolding gid_servers
gid_servers_at c sh gid srvs at found = ground arith

-- Where every shard has a group, any key leads to a group that is a member, and to its servers,
-- whatever the hash of the key.
pub gid_servers-key2shard :
    (sum32 : String → ℕ) (key : String) (c : ShardConfig)
    → IsConfig c
    → Assigned c.groups c.shards
    → (gid : ℤ) × (srvs : Servers) × (gid_servers c (key2shard sum32 key) ≡ some (gid, srvs, true))
      × (lookup gid c.groups ≡ some srvs)
      × (is_member c gid ≡ true)
unfolding key2shard is_member
gid_servers-key2shard sum32 key c v a =
    let (gid, at) = get_elem?-lt c.shards (key2shard sum32 key) (omega (arith, v.sized)) in
    let (grouped, member) = Assigned-get c.groups c.shards (key2shard sum32 key) gid a at in
    let (srvs, found) = has-lookup gid c.groups grouped in
    (gid, srvs, gid_servers_at c (key2shard sum32 key) gid srvs at found, found, member)

lookup-empty : (g : ℤ) → lookup {V = Servers} g [] ≡ none
unfolding lookup
lookup-empty g = refl

copy_groups-lookup :
    (m acc : Map ℤ Servers) (g : ℤ)
    → Distinct (keys m)
    → lookup g (copy_groups m acc)
      ≡ elim (lookup g m) [ none ↦ lookup g acc | some srvs ↦ some srvs ]
unfolding copy_groups lookup
copy_groups-lookup [] acc g d = refl
copy_groups-lookup ((k, srvs) ∷ m) acc g d = ground (
  arith,
  copy_groups-lookup m (insert k srvs acc) g d.1,
  lookup-insert k g srvs acc,
  eqb_ℤ_iff k g,
  (lookup-none_iff k m).1 d.0,
)

-- Copy keeps the number and the shards, and every group with its servers.
pub copy_lem :
    (c : ShardConfig)
    → IsConfig c
    → ((copy c).num ≡ c.num)
      × ((copy c).shards ≡ c.shards)
      × ((g : ℤ) → lookup g (copy c).groups ≡ lookup g c.groups)
unfolding copy make_shard_config
copy_lem c v =
    (refl, refl, λ g. ground (arith, copy_groups-lookup c.groups [] g v.distinct, lookup-empty g))
