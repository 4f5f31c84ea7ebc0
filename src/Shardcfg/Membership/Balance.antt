-- ===== src/Shardcfg/Membership/Balance.antt =====
-- `JoinBalance` and `LeaveBalance` end in a configuration that `CheckConfig` passes.
use mathlib.Core.Path.{subst}
use mathlib.Core.Bool.{false≢true}
use pluggable_sharded_fault.Base.{
  ◌≡◌, refl, ap, sym, ◌∙◌, true, ◌⊎◌, inl, inr, some, List, [], ◌∷◌, arith, ℤ, pos, eqb_ℤ_iff,
  int_eq, ok, length, map, Map, keys, has, Distinct,
}
use pluggable_sharded_fault.Shardcfg.Config.{ShardConfig, Servers, IsConfig}
use pluggable_sharded_fault.Shardcfg.Rebalance.{rebalance}
use pluggable_sharded_fault.Shardcfg.Rebalance.Assign.{Assigned}
use pluggable_sharded_fault.Shardcfg.Rebalance.Laws.{
  IsRebalanced, rebalance-IsRebalanced, rebalance_no_groups,
}
use pluggable_sharded_fault.Shardcfg.Check.{check_config, check_config_iff}
use pluggable_sharded_fault.Shardcfg.Membership.{join, leave, join_balance, leave_balance}
use pluggable_sharded_fault.Shardcfg.Membership.Joining.{join-IsConfig}
use pluggable_sharded_fault.Shardcfg.Membership.Leaving.{leave-IsConfig}

length-keys : (m : Map ℤ Servers) → length (keys m) ≡ length m
length-keys [] = refl
length-keys (e ∷ m) = omega (arith, length-keys m)

Assigned-weaken :
    (g : ℤ) (srvs : Servers) (m : Map ℤ Servers) (l : List ℤ)
    → Assigned m l
    → Assigned ((g, srvs) ∷ m) l
Assigned-weaken g srvs m [] a = tt
Assigned-weaken g srvs m (x ∷ l) a = (ground (arith, a.0), Assigned-weaken g srvs m l a.1)

Assigned-keys : (m : Map ℤ Servers) → Assigned m (keys m)
Assigned-keys [] = tt
Assigned-keys ((g, srvs) ∷ m) =
    (ground (arith, eqb_ℤ_iff g g), Assigned-weaken g srvs m (keys m) (Assigned-keys m))

length-zeros : (l : List ℤ) → length (map (λ (g : ℤ). pos 0) l) ≡ length l
length-zeros [] = refl
length-zeros (x ∷ l) = omega (arith, length-zeros l)

empty_or_group : (m : Map ℤ Servers) → (m ≡ []) ⊎ ((g : ℤ) × (has g m ≡ true))
empty_or_group [] = inl refl
empty_or_group ((g, srvs) ∷ m) = inr (g, ground (arith, eqb_ℤ_iff g g))

-- What a call of Rebalance ends in.
abbrev Balances : ShardConfig → ShardConfig → Type 0
Balances c r = (r.num ≡ c.num) × (r.groups ≡ c.groups) × (check_config (keys c.groups) r ≡ ok tt)

empty-Balances :
    (c : ShardConfig)
    → IsConfig c
    → c.groups ≡ []
    → Balances c (record c { shards = map (λ _. pos 0) c.shards })
empty-Balances c v e =
    let r : ShardConfig = record c { shards = map (λ _. pos 0) c.shards } in
    (
      refl,
      refl,
      (check_config_iff (keys c.groups) r
            (record { sized = length-zeros c.shards ∙ v.sized; distinct = v.distinct })).1
          (record {
            as_many = sym (length-keys c.groups);
            expected = Assigned-keys c.groups;
            allocated = λ p. absurd (omega (arith, p, length-keys c.groups, ap length e));
            balanced = λ g h hg hh. absurd (false≢true (sym (ap (has g) e) ∙ hg));
          }),
    )

group-Balances : (c r : ShardConfig) → IsConfig c → IsRebalanced c r → Balances c r
group-Balances c r v b = (
  b.num,
  b.groups,
  (check_config_iff (keys c.groups) r (record {
    sized = b.sized ∙ v.sized;
    distinct = subst (λ m. Distinct (keys m)) (sym b.groups) v.distinct;
  })).1
      (record {
        as_many = ap length b.groups ∙ sym (length-keys c.groups);
        expected = subst (λ m. Assigned m (keys c.groups)) (sym b.groups) (Assigned-keys c.groups);
        allocated = λ _. b.assigned;
        balanced = b.balanced;
      }),
)

rebalance-Balances :
    (c : ShardConfig) → IsConfig c → (r : ShardConfig) × (rebalance c ≡ some r) × Balances c r
rebalance-Balances c v = elim (empty_or_group c.groups) [
  | inl e ↦ (
    record c { shards = map (λ _. pos 0) c.shards },
    rebalance_no_groups c e,
    empty-Balances c v e,
  )
  | inr (g, h) ↦ let (r, eq, b) = rebalance-IsRebalanced c g v h in (r, eq, group-Balances c r v b)
]

-- From a configuration of NShards shards with one entry for each group: after a Join that succeeds,
-- JoinBalance returns true, with the groups and the number of the Join,
-- in a configuration that CheckConfig passes for those groups.
pub join_balance-passes :
    (servers : Map ℤ Servers) (c j : ShardConfig)
    → IsConfig c
    → join servers c ≡ ok (j, true)
    → (r : ShardConfig) × (join_balance servers c ≡ ok (r, true))
      × (r.num ≡ j.num)
      × (r.groups ≡ j.groups)
      × (check_config (keys j.groups) r ≡ ok tt)
unfolding join_balance
join_balance-passes servers c j v h =
    let (r, eq, b) = rebalance-Balances j (join-IsConfig servers c j h v) in
    (r, rw (h, eq), b.0, b.1, b.2)

-- From a configuration of NShards shards with one entry for each group: after a Leave that
-- succeeds, LeaveBalance returns true, with the groups and the number of the
-- Leave, in a configuration that CheckConfig passes for those groups, none left included.
pub leave_balance-passes :
    (gids : List ℤ) (c j : ShardConfig)
    → IsConfig c
    → leave gids c ≡ ok (j, true)
    → (r : ShardConfig) × (leave_balance gids c ≡ ok (r, true))
      × (r.num ≡ j.num)
      × (r.groups ≡ j.groups)
      × (check_config (keys j.groups) r ≡ ok tt)
unfolding leave_balance
leave_balance-passes gids c j v h =
    let (r, eq, b) = rebalance-Balances j (leave-IsConfig gids c j h v) in
    (r, rw (h, eq), b.0, b.1, b.2)
