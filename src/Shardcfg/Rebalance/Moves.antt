-- ===== src/Shardcfg/Rebalance/Moves.antt =====
-- One move of the last loop of `Rebalance`: the counts change by one, and the energy falls.
use pluggable_sharded_fault.Base.{
  ℕ, ◌+◌, ◌*◌, ◌≤◌, ◌<◌, ◌≡◌, ◌≢◌, refl, ap, true, false, List, [], ◌∷◌, arith, ℤ, pos, ltb_ℤ,
  eqb_ℤ_iff, if◌then◌else◌, ◌==◌, int_eq, length, mem, count, Distinct, Map, keys, has, Bool-cases,
  inl, inr,
}
use pluggable_sharded_fault.Shardcfg.Config.{ShardConfig, Servers}
use pluggable_sharded_fault.Shardcfg.Analyze.{analyze}
use pluggable_sharded_fault.Shardcfg.Analyze.Extremes.{IsExtreme}
use pluggable_sharded_fault.Shardcfg.Rebalance.{move_one, move}
use pluggable_sharded_fault.Shardcfg.Rebalance.Energy.{sum_over, energy_falls}
use pluggable_sharded_fault.Shardcfg.Rebalance.Assign.{Assigned}

mem_of_count : (a : ℤ) (l : List ℤ) → 0 < count a l → mem a l ≡ true
mem_of_count a [] h = absurd (omega arith)
mem_of_count a (x ∷ l) h = ground (arith, mem_of_count a l)

module _ (mg lg : ℤ) where
  count-move_one :
      (a : ℤ) (l : List ℤ)
      → mem mg l ≡ true
      → count a (move_one mg lg l) + (if mg == a then 1 else 0)
        ≡ count a l + (if lg == a then 1 else 0)
  unfolding move_one
  count-move_one a [] h = absurd (ground arith)
  count-move_one a (x ∷ l) h = elim (Bool-cases (x == mg)) [
    | inl here ↦ let e : x ≡ mg = (eqb_ℤ_iff x mg).0 here in rw here (rw (← e) (omega arith))
    | inr other ↦ rw other (omega (arith, count-move_one a l (ground arith)))
  ]

  pub length-move_one : (l : List ℤ) → length (move_one mg lg l) ≡ length l
  unfolding move_one
  length-move_one [] = refl
  length-move_one (x ∷ l) = ground (arith, length-move_one l)

  pub move_one-Assigned :
      (groups : Map ℤ Servers) (l : List ℤ)
      → has lg groups ≡ true
      → Assigned groups l
      → Assigned groups (move_one mg lg l)
  unfolding move_one
  move_one-Assigned groups [] h a = tt
  move_one-Assigned groups (x ∷ l) h a = elim (Bool-cases (x == mg)) [
    | inl here ↦ rw here (h, a.1)
    | inr other ↦ rw other (a.0, move_one-Assigned groups l h a.1)
  ]

abbrev pub energy : ShardConfig → ℕ
energy c = sum_over (λ g. count g c.shards * count g c.shards) (keys c.groups)

-- A move lowers the energy, as long as the loop goes on.
pub move-energy :
    (c : ShardConfig)
    → Distinct (keys c.groups)
    → IsExtreme c (analyze c)
    → ltb_ℤ (analyze c).mostn (pos ((analyze c).leastn + 2)) ≡ false
    → energy (move c) < energy c
unfolding move
move-energy c d x wide = omega (
  arith,
  gap,
  energy_falls (λ g. count g c.shards) (λ g. count g (move c).shards) mg lg (keys c.groups) d
      x.most_in x.least_in mg_ne_lg one_less one_more others,
)
  where
    mg : ℤ
    mg = (analyze c).most

    lg : ℤ
    lg = (analyze c).least

    gap : count lg c.shards + 2 ≤ count mg c.shards
    gap = ground (arith, x.most_count, x.least_count)

    mg_ne_lg : mg ≢ lg
    mg_ne_lg e = absurd (omega (arith, gap, ap (λ g. count g c.shards) e))

    moved :
        (a : ℤ)
        → count a (move c).shards + (if mg == a then 1 else 0)
          ≡ count a c.shards + (if lg == a then 1 else 0)
    moved a = count-move_one mg lg a c.shards (mem_of_count mg c.shards (omega (arith, gap)))

    one_less : count mg (move c).shards + 1 ≡ count mg c.shards
    one_less = ground (arith, moved mg, eqb_ℤ_iff mg mg, eqb_ℤ_iff lg mg, mg_ne_lg)

    one_more : count lg (move c).shards ≡ count lg c.shards + 1
    one_more = ground (arith, moved lg, eqb_ℤ_iff lg lg, eqb_ℤ_iff mg lg, mg_ne_lg)

    others : (g : ℤ) → g ≢ mg → g ≢ lg → count g (move c).shards ≡ count g c.shards
    others g ne_m ne_l = ground (arith, moved g, eqb_ℤ_iff mg g, eqb_ℤ_iff lg g)
