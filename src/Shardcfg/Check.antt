-- ===== src/Shardcfg/Check.antt =====
-- `CheckConfig`, the test's own check of a configuration, and what it decides.
use pluggable_sharded_fault.Base.{
  ℕ, ◌+◌, ◌≤◌, ◌<◌, ◌≡◌, ◌↔◌, refl, Bool, true, not, ◌&&◌, List, [], ◌∷◌, arith, ℤ, eqb, ltb,
  eqb_ℤ_iff, eq_of_parts, if◌then◌else◌, int_eq, Outcome, ok, fatal, length, mem, count-le-length,
  Map, keys, has, get_or,
}
use pluggable_sharded_fault.Shardcfg.Config.{ShardConfig, Servers, IsConfig}
use pluggable_sharded_fault.Shardcfg.Analyze.{tally}
use pluggable_sharded_fault.Shardcfg.Analyze.Extremes.{counts_of_lem}
use pluggable_sharded_fault.Shardcfg.Rebalance.Assign.{Assigned}
use pluggable_sharded_fault.Shardcfg.Rebalance.Laws.{IsBalanced}

-- Each of a list of gids names a group.
unfoldable pub all_groups : List ℤ → Map ℤ Servers → Bool
all_groups [] groups = true
all_groups (g ∷ gs) groups = has g groups && all_groups gs groups

pub record Spread : Type 0 where
  pub low : ℕ
  pub high : ℕ

unfoldable pub spread : Map ℤ ℕ → List ℤ → Spread → Spread
spread counts [] s = s
spread counts (g ∷ gs) s =
    let n = get_or g 0 counts in
    spread counts gs
      (record { low = if ltb n s.low then n else s.low; high = if ltb s.high n then n else s.high })

abbrev pub no_spread : Spread
no_spread = record { low = 257; high = 0 }

unfoldable pub check_config : List ℤ → ShardConfig → Outcome (Unit {0})
check_config groups cfg =
    let s = spread (tally [] cfg.shards) (keys cfg.groups) no_spread in
    if not (eqb (length cfg.groups) (length groups))
    then fatal
    else if not (all_groups groups cfg.groups)
    then fatal
    else if ltb 0 (length groups) && not (all_groups cfg.shards cfg.groups)
    then fatal
    else if ltb (s.low + 1) s.high
    then fatal
    else ok tt

all_groups-Assigned :
    (l : List ℤ) (groups : Map ℤ Servers) → (all_groups l groups ≡ true) ↔ Assigned groups l
unfolding all_groups
all_groups-Assigned [] groups = (λ _. tt, λ _. refl)
all_groups-Assigned (g ∷ l) groups = (
  λ h. (ground arith, (all_groups-Assigned l groups).0 (ground arith)),
  λ a. ground (arith, a.0, (all_groups-Assigned l groups).1 a.1),
)

module _ (counts : Map ℤ ℕ) where
  spread-grows :
      (gs : List ℤ) (s : Spread)
      → ((spread counts gs s).low ≤ s.low) × (s.high ≤ (spread counts gs s).high)
  unfolding spread
  spread-grows [] s = omega arith
  spread-grows (g ∷ gs) s =
      let n = get_or g 0 counts in
      ground (
        arith,
        spread-grows gs (record {
          low = if ltb n s.low then n else s.low;
          high = if ltb s.high n then n else s.high;
        }),
      )

  spread-covers :
      (gs : List ℤ) (s : Spread) (g : ℤ)
      → mem g gs ≡ true
      → ((spread counts gs s).low ≤ get_or g 0 counts)
        × (get_or g 0 counts ≤ (spread counts gs s).high)
  unfolding spread
  spread-covers [] s g h = absurd (ground arith)
  spread-covers (i ∷ gs) s g h =
      let n = get_or i 0 counts in
      let s' : Spread = record {
        low = if ltb n s.low then n else s.low;
        high = if ltb s.high n then n else s.high;
      } in
      ground (arith, spread-grows gs s', spread-covers gs s' g, eq_of_parts i g)

  spread-narrow :
      (gs : List ℤ) (s : Spread)
      → ((g h : ℤ) → mem g gs ≡ true → mem h gs ≡ true → get_or g 0 counts ≤ get_or h 0 counts + 1)
      → ((g : ℤ)
          → mem g gs ≡ true
          → (get_or g 0 counts ≤ s.low + 1) × (s.high ≤ get_or g 0 counts + 1))
      → s.high ≤ s.low + 1
      → (spread counts gs s).high ≤ (spread counts gs s).low + 1
  unfolding spread
  spread-narrow [] s even near start = start
  spread-narrow (i ∷ gs) s even near start =
      let n = get_or i 0 counts in
      spread-narrow gs
        (record {
          low = if ltb n s.low then n else s.low;
          high = if ltb s.high n then n else s.high;
        })
        (λ g h mg mh. even g h (ground arith) (ground arith))
        (λ g mg. ground (arith, near g, even g i, even i g, eqb_ℤ_iff i i))
        (ground (arith, near i, eqb_ℤ_iff i i))

IsBalanced→narrow :
    (c : ShardConfig)
    → length c.shards < 257
    → IsBalanced c
    → (spread (tally [] c.shards) (keys c.groups) no_spread).high
      ≤ (spread (tally [] c.shards) (keys c.groups) no_spread).low + 1
IsBalanced→narrow c small b =
    spread-narrow (tally [] c.shards) (keys c.groups) no_spread
      (λ g h mg mh. omega (arith, b g h mg mh, counts_of_lem c g, counts_of_lem c h))
      (λ g mg. omega (arith, counts_of_lem c g, count-le-length g c.shards)) (omega arith)

narrow→IsBalanced :
    (c : ShardConfig)
    → (spread (tally [] c.shards) (keys c.groups) no_spread).high
      ≤ (spread (tally [] c.shards) (keys c.groups) no_spread).low + 1
    → IsBalanced c
narrow→IsBalanced c narrow g h mg mh = omega (
  arith,
  narrow,
  (spread-covers (tally [] c.shards) (keys c.groups) no_spread g mg).1,
  (spread-covers (tally [] c.shards) (keys c.groups) no_spread h mh).0,
  counts_of_lem c g,
  counts_of_lem c h,
)

-- What CheckConfig means to check.
pub record IsGood (groups : List ℤ) (c : ShardConfig) : Type 0 where
  pub as_many : length c.groups ≡ length groups
  pub expected : Assigned c.groups groups
  pub allocated : 0 < length groups → Assigned c.groups c.shards
  pub balanced : IsBalanced c

-- CheckConfig passes exactly the configurations with the expected groups, every shard on a group
-- if there is one, and any two groups within one shard of each other.
pub check_config_iff :
    (groups : List ℤ) (c : ShardConfig)
    → IsConfig c
    → (check_config groups c ≡ ok tt) ↔ IsGood groups c
unfolding check_config
check_config_iff groups c v = (
  λ h. record {
    as_many = ground arith;
    expected = (all_groups-Assigned groups c.groups).0 (ground arith);
    allocated = λ p. (all_groups-Assigned c.shards c.groups).0 (ground arith);
    balanced = narrow→IsBalanced c (ground arith);
  },
  λ g. ground (
    arith,
    g.as_many,
    (all_groups-Assigned groups c.groups).1 g.expected,
    (λ (p : 0 < length groups). (all_groups-Assigned c.shards c.groups).1 (g.allocated p)),
    IsBalanced→narrow c (omega (arith, v.sized)) g.balanced,
  ),
)
