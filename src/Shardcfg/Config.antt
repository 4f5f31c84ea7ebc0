-- ===== src/Shardcfg/Config.antt =====
-- The type `ShardConfig` and its readers. `Shards` is an array of `NShards` ints, a list here
-- whose length the theorems name; `Groups` is a map.
use pluggable_sharded_fault.Base.{
  ℕ, ◌%◌, ◌≡◌, Bool, true, false, Option, none, some, List, [], ◌∷◌, String, ℤ, pos, int_eq,
  get_elem?, length, replicate, mem, Map, keys, lookup, insert, Distinct,
}

abbrev pub n_shards : ℕ
n_shards = 12

abbrev pub num_first : ℤ
num_first = pos 1

abbrev pub gid1 : ℤ
gid1 = pos 1

abbrev pub Servers : Type 0
Servers = List String

pub record ShardConfig : Type 0 where
  pub num : ℤ
  pub shards : List ℤ
  pub groups : Map ℤ Servers

-- The array has its declared size, and the map its keys once.
pub record IsConfig (c : ShardConfig) : Type 0 where
  pub sized : length c.shards ≡ n_shards
  pub distinct : Distinct (keys c.groups)

unfoldable pub make_shard_config : ShardConfig
make_shard_config = record { num = pos 0; shards = replicate n_shards (pos 0); groups = [] }

-- The FNV-1a sum of the key is the standard library's: `sum32`, an unsigned 32-bit number.
unfoldable pub key2shard : (String → ℕ) → String → ℕ
key2shard sum32 key = sum32 key % n_shards

unfoldable pub copy_groups : Map ℤ Servers → Map ℤ Servers → Map ℤ Servers
copy_groups [] acc = acc
copy_groups ((k, srvs) ∷ m) acc = copy_groups m (insert k srvs acc)

unfoldable pub copy : ShardConfig → ShardConfig
copy cfg = record make_shard_config {
  num = cfg.num;
  shards = cfg.shards;
  groups = copy_groups cfg.groups make_shard_config.groups;
}

-- `none` is the panic of an index out of range. The servers are Go's zero value on a missing key.
unfoldable pub gid_servers : ShardConfig → ℕ → Option (ℤ × Servers × Bool)
gid_servers cfg sh = elim (get_elem? cfg.shards sh) [
  | none ↦ none
  | some gid ↦ elim (lookup gid cfg.groups) [
    | none ↦ some (gid, [], false)
    | some srvs ↦ some (gid, srvs, true)
  ]
]

unfoldable pub is_member : ShardConfig → ℤ → Bool
is_member cfg gid = mem gid cfg.shards
