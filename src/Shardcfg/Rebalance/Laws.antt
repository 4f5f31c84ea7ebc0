-- ===== src/Shardcfg/Rebalance/Laws.antt =====
-- `Rebalance` returns, and what it returns is assigned and balanced.
use pluggable_sharded_fault.Base.{
  ℕ, zero, suc, ◌+◌, ◌≤◌, ◌<◌, ◌≡◌, refl, ◌∙◌, true, some, [], ◌∷◌, arith, ℤ, pos, ltb_ℤ, int_eq,
  length, count, Distinct, Map, keys, has, Bool-cases, inl, inr, map,
}
use pluggable_sharded_fault.Shardcfg.Config.{ShardConfig, IsConfig}
use pluggable_sharded_fault.Shardcfg.Analyze.{analyze}
use pluggable_sharded_fault.Shardcfg.Analyze.Extremes.{IsExtreme, analyze-IsExtreme}
use pluggable_sharded_fault.Shardcfg.Rebalance.{assign_all, move, move_loop, enough, rebalance}
use pluggable_sharded_fault.Shardcfg.Rebalance.Energy.{energy_bound}
use pluggable_sharded_fault.Shardcfg.Rebalance.Assign.{Assigned, assign_all-Assigned, Keeps-length}
use pluggable_sharded_fault.Shardcfg.Rebalance.Moves.{
  move_one-Assigned, length-move_one, energy, move-energy,
}

abbrev pub IsBalanced : ShardConfig → Type 0
IsBalanced c =
    (g h : ℤ)
    → has g c.groups ≡ true
    → has h c.groups ≡ true
    → count g c.shards ≤ count h c.shards + 1

-- `r` is `c` with its shards dealt out evenly to the groups.
pub record IsRebalanced (c r : ShardConfig) : Type 0 where
  pub num : r.num ≡ c.num
  pub groups : r.groups ≡ c.groups
  pub sized : length r.shards ≡ length c.shards
  pub assigned : Assigned r.groups r.shards
  pub balanced : IsBalanced r

-- What the loop needs.
record IsReady (c : ShardConfig) : Type 0 where
  distinct : Distinct (keys c.groups)
  small : length c.shards < 257
  some_group : (g : ℤ) × (has g c.groups ≡ true)
  assigned : Assigned c.groups c.shards

extreme : (c : ShardConfig) → IsReady c → IsExtreme c (analyze c)
extreme c v = analyze-IsExtreme c v.some_group.0 v.some_group.1 v.small

stop-IsBalanced :
    (c : ShardConfig)
    → IsExtreme c (analyze c)
    → ltb_ℤ (analyze c).mostn (pos ((analyze c).leastn + 2)) ≡ true
    → IsBalanced c
stop-IsBalanced c x stop g h hg hh = ground (arith, x.highest g hg, x.lowest h hh, x.most_count)

move-IsReady : (c : ShardConfig) → IsReady c → IsReady (move c)
unfolding move
move-IsReady c v = record {
  distinct = v.distinct;
  small = omega (arith, v.small, length-move_one (analyze c).most (analyze c).least c.shards);
  some_group = v.some_group;
  assigned =
      move_one-Assigned (analyze c).most (analyze c).least c.groups c.shards (extreme c v).least_in
        v.assigned;
}

move-same :
    (c : ShardConfig)
    → ((move c).num ≡ c.num)
      × ((move c).groups ≡ c.groups)
      × (length (move c).shards ≡ length c.shards)
unfolding move
move-same c = (refl, refl, length-move_one (analyze c).most (analyze c).least c.shards)

-- With fuel above the energy the loop ends, balanced.
move_loop-IsRebalanced :
    (fuel : ℕ) (c : ShardConfig)
    → IsReady c
    → energy c < fuel
    → (r : ShardConfig) × (move_loop fuel c ≡ some r) × IsRebalanced c r
unfolding move_loop
move_loop-IsRebalanced zero c v e = absurd (omega arith)
move_loop-IsRebalanced (suc fuel) c v e =
    elim (Bool-cases (ltb_ℤ (analyze c).mostn (pos ((analyze c).leastn + 2)))) [
      | inl stop ↦ (
        c,
        rw stop,
        record {
          num = refl;
          groups = refl;
          sized = refl;
          assigned = v.assigned;
          balanced = stop-IsBalanced c (extreme c v) stop;
        },
      )
      | inr wide ↦
          let (r, eq, done) =
            move_loop-IsRebalanced fuel (move c) (move-IsReady c v)
              (omega (arith, move-energy c v.distinct (extreme c v) wide)) in
          let (n, g, l) = move-same c in
          (
            r,
            rw wide eq,
            record {
              num = done.num ∙ n;
              groups = done.groups ∙ g;
              sized = done.sized ∙ l;
              assigned = done.assigned;
              balanced = done.balanced;
            },
          )
    ]

assign_all-IsReady :
    (c : ShardConfig) (g : ℤ)
    → Distinct (keys c.groups)
    → length c.shards < 257
    → has g c.groups ≡ true
    → IsReady (assign_all c)
assign_all-IsReady c g d small h =
    let (_, same, all, kept) = assign_all-Assigned c g h small in
    record {
      distinct = rw same d;
      small = omega (arith, small, Keeps-length c.groups c.shards (assign_all c).shards kept);
      some_group = (g, rw same h);
      assigned = rw same all;
    }

pub length_pos : {A : Type 0} (g : ℤ) (m : Map ℤ A) → has g m ≡ true → 0 < length m
length_pos g [] h = absurd (ground arith)
length_pos g (e ∷ m) h = omega arith

-- With a group, Rebalance ends within the fuel of the model: every shard then belongs to a group,
-- any two groups differ by at most one shard, and the number and the groups are as before.
pub rebalance-IsRebalanced :
    (c : ShardConfig) (g : ℤ)
    → IsConfig c
    → has g c.groups ≡ true
    → (r : ShardConfig) × (rebalance c ≡ some r) × IsRebalanced c r
unfolding rebalance
rebalance-IsRebalanced c g v h =
    let small : length c.shards < 257 = omega (arith, v.sized) in
    let (n, same, _, kept) = assign_all-Assigned c g h small in
    let (r, eq, done) =
      move_loop-IsRebalanced (enough (assign_all c)) (assign_all c)
        (assign_all-IsReady c g v.distinct small h)
        (omega (
          arith,
          energy_bound (keys (assign_all c).groups) (assign_all c).shards (rw same v.distinct),
        )) in
    (
      r,
      ground (arith, eq, length_pos g c.groups h),
      record {
        num = done.num ∙ n;
        groups = done.groups ∙ same;
        sized = done.sized ∙ Keeps-length c.groups c.shards (assign_all c).shards kept;
        assigned = done.assigned;
        balanced = done.balanced;
      },
    )

-- Without a group, Rebalance takes every shard away.
pub rebalance_no_groups :
    (c : ShardConfig)
    → c.groups ≡ []
    → rebalance c ≡ some (record c { shards = map (λ _. pos 0) c.shards })
unfolding rebalance
rebalance_no_groups c e = ground (arith, e)
