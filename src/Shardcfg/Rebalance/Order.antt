-- ===== src/Shardcfg/Rebalance/Order.antt =====
-- Go's map iteration is random; `Rebalance` does not depend on it.
use mathlib.Core.List.{Permᴰ}
use mathlib.Core.Option
use pluggable_sharded_fault.Base.{
  ℕ, zero, suc, ◌+◌, ◌≡◌, refl, ap, ◌∙◌, sym, List, [], ◌∷◌, arith, ℤ, pos, ltb, ltb_ℤ, int_eq,
  length, set, Map, has, Bool-cases, inl, inr,
}
use pluggable_sharded_fault.Shardcfg.Config.{ShardConfig, Servers}
use pluggable_sharded_fault.Shardcfg.Analyze.{analyze, least}
use pluggable_sharded_fault.Shardcfg.Analyze.Order.{analyze-eq_of_perm}
use pluggable_sharded_fault.Shardcfg.Rebalance.{
  assign_from, assign_all, move, move_loop, enough, rebalance,
}

abbrev pub with_groups : Map ℤ Servers → ShardConfig → ShardConfig
with_groups m c = record c { groups = m }

has-eq_of_perm : (g : ℤ) {m w : Map ℤ Servers} → Permᴰ m w → has g m ≡ has g w
has-eq_of_perm g Permᴰ.nil = refl
has-eq_of_perm g (Permᴰ.cons e p) = ground (arith, ap (λ x. x.0) e, has-eq_of_perm g p)
has-eq_of_perm g (Permᴰ.swap p q) = ground (arith, ap (λ x. x.0) p, ap (λ x. x.0) q)
has-eq_of_perm g (Permᴰ.trans p q) = has-eq_of_perm g p ∙ has-eq_of_perm g q

length-eq_of_perm : {m w : Map ℤ Servers} → Permᴰ m w → length m ≡ length w
length-eq_of_perm Permᴰ.nil = refl
length-eq_of_perm (Permᴰ.cons e p) = omega (arith, length-eq_of_perm p)
length-eq_of_perm (Permᴰ.swap p q) = refl
length-eq_of_perm (Permᴰ.trans p q) = length-eq_of_perm p ∙ length-eq_of_perm q

module _ {m w : Map ℤ Servers} (p : Permᴰ m w) where
  analyze_same : (c : ShardConfig) → analyze (with_groups m c) ≡ analyze (with_groups w c)
  analyze_same c = analyze-eq_of_perm (with_groups m c) w p

  assign_from_same :
      (rest : List ℤ) (s : ℕ) (c : ShardConfig)
      → with_groups w (assign_from rest s (with_groups m c)) ≡ assign_from rest s (with_groups w c)
  unfolding assign_from least
  assign_from_same [] s c = refl
  assign_from_same (g ∷ rest) s c = ground (
    arith,
    has-eq_of_perm g p,
    analyze_same c,
    assign_from_same rest (s + 1) c,
    assign_from_same rest (s + 1)
        (record c { shards = set c.shards s (analyze (with_groups w c)).least }),
  )

  move_same : (c : ShardConfig) → move (with_groups m c) ≡ with_groups m (move (with_groups w c))
  unfolding move
  move_same c = rw (analyze_same c)

  move_kept : (c : ShardConfig) → with_groups w (move (with_groups w c)) ≡ move (with_groups w c)
  unfolding move
  move_kept c = refl

  move_loop_same :
      (fuel : ℕ) (c : ShardConfig)
      → Option.map (with_groups w) (move_loop fuel (with_groups m c))
        ≡ move_loop fuel (with_groups w c)
  unfolding move_loop
  move_loop_same zero c = refl
  move_loop_same (suc fuel) c =
      let l = analyze (with_groups w c) in
      let next = move (with_groups w c) in
      elim (Bool-cases (ltb_ℤ l.mostn (pos (l.leastn + 2)))) [
        | inl stop ↦ rw (analyze_same c, stop)
        | inr wide ↦
            rw (analyze_same c, wide, move_same c)
              (move_loop_same fuel next ∙ ap (move_loop fuel) (move_kept c))
      ]

  assign_from-groups :
      (rest : List ℤ) (s : ℕ) (c : ShardConfig) → (assign_from rest s c).groups ≡ c.groups
  unfolding assign_from
  assign_from-groups [] s c = refl
  assign_from-groups (g ∷ rest) s c = ground (
    arith,
    assign_from-groups rest (s + 1) c,
    assign_from-groups rest (s + 1) (record c { shards = set c.shards s (least c) }),
  )

  regroup : (x : ShardConfig) → x.groups ≡ m → x ≡ with_groups m (with_groups w x)
  regroup x e = λ i. record { num = x.num; shards = x.shards; groups = e i }

  kept_groups : (x : ShardConfig) → x.groups ≡ w → with_groups w x ≡ x
  kept_groups x e = λ i. record { num = x.num; shards = x.shards; groups = sym e i }

  assign_all_same :
      (c : ShardConfig)
      → assign_all (with_groups m c) ≡ with_groups m (assign_all (with_groups w c))
  unfolding assign_all
  assign_all_same c =
      regroup (assign_from c.shards 0 (with_groups m c))
        (assign_from-groups c.shards 0 (with_groups m c))
      ∙ ap (with_groups m) (assign_from_same c.shards 0 c)

  assign_all_kept :
      (c : ShardConfig)
      → with_groups w (assign_all (with_groups w c)) ≡ assign_all (with_groups w c)
  unfolding assign_all
  assign_all_kept c =
      kept_groups (assign_from c.shards 0 (with_groups w c))
        (assign_from-groups c.shards 0 (with_groups w c))

  -- Two orders of the same groups, which Go may iterate in either way, get the same shards.
  pub rebalance-eq_of_perm :
      (c : ShardConfig)
      → Option.map (with_groups w) (rebalance (with_groups m c)) ≡ rebalance (with_groups w c)
  unfolding rebalance
  rebalance-eq_of_perm c =
      let a = assign_all (with_groups w c) in
      elim (Bool-cases (ltb (length w) 1)) [
        | inl empty ↦ rw (length-eq_of_perm p, empty)
        | inr some_group ↦
            rw (length-eq_of_perm p, some_group, assign_all_same c)
              (move_loop_same (enough a) a ∙ ap (λ x. move_loop (enough x) x) (assign_all_kept c))
      ]
