-- ===== src/Shardcfg/Analyze/Extremes.antt =====
-- What `analyze` returns: the counts, and groups where they are largest and smallest.
use pluggable_sharded_fault.Base.{
  ℕ, ◌+◌, ◌≤◌, ◌<◌, ◌≡◌, refl, true, List, [], ◌∷◌, arith, ℤ, pos, ◌≤ℤ◌, eqb_ℤ_iff, eq_of_parts,
  int_eq, length, mem, count, count-le-length, Map, keys, has, lookup, insert, get_or,
  lookup-insert, sort, mem-sort,
}
use pluggable_sharded_fault.Shardcfg.Config.{ShardConfig}
use pluggable_sharded_fault.Shardcfg.Analyze.{tally, Load, no_load, visit, scan, analyze}

pub get_or-tally :
    (g : ℤ) (counts : Map ℤ ℕ) (shards : List ℤ)
    → get_or g 0 (tally counts shards) ≡ get_or g 0 counts + count g shards
unfolding tally
get_or-tally g counts [] = omega arith
get_or-tally g counts (h ∷ shards) = ground (
  arith,
  get_or-tally g (insert h (get_or h 0 counts + 1) counts) shards,
  lookup-insert h g (get_or h 0 counts + 1) counts,
  eqb_ℤ_iff h g,
)

module _ (counts : Map ℤ ℕ) where
  abbrev n_of : ℤ → ℕ
  n_of g = get_or g 0 counts

  scan-bounds :
      (groups : List ℤ) (acc : Load)
      → ((scan counts groups acc).leastn ≤ acc.leastn)
        × (acc.mostn ≤ℤ (scan counts groups acc).mostn)
  unfolding scan visit
  scan-bounds [] acc = omega arith
  scan-bounds (g ∷ groups) acc = ground (arith, scan-bounds groups (visit (n_of g) g acc))

  scan-covers :
      (groups : List ℤ) (acc : Load) (g : ℤ)
      → mem g groups ≡ true
      → ((scan counts groups acc).leastn ≤ n_of g)
        × (pos (n_of g) ≤ℤ (scan counts groups acc).mostn)
  unfolding scan visit
  scan-covers [] acc g h = absurd (ground arith)
  scan-covers (i ∷ groups) acc g h = ground (
    arith,
    scan-bounds groups (visit (n_of i) i acc),
    scan-covers groups (visit (n_of i) i acc) g,
    eq_of_parts i g,
  )

  -- A load that is not undercut keeps its group.
  scan-least_kept :
      (groups : List ℤ) (acc : Load)
      → acc.leastn ≤ (scan counts groups acc).leastn
      → ((scan counts groups acc).least ≡ acc.least)
        × ((scan counts groups acc).leastn ≡ acc.leastn)
  unfolding scan visit
  scan-least_kept [] acc h = (refl, refl)
  scan-least_kept (g ∷ groups) acc h =
      let next : Load = visit (n_of g) g acc in
      ground (arith, scan-least_kept groups next, scan-bounds groups next)

  scan-most_kept :
      (groups : List ℤ) (acc : Load)
      → (scan counts groups acc).mostn ≤ℤ acc.mostn
      → ((scan counts groups acc).most ≡ acc.most) × ((scan counts groups acc).mostn ≡ acc.mostn)
  unfolding scan visit
  scan-most_kept [] acc h = (refl, refl)
  scan-most_kept (g ∷ groups) acc h =
      let next : Load = visit (n_of g) g acc in
      ground (arith, scan-most_kept groups next, scan-bounds groups next)

  -- Once the start is undercut, the fewest and the most are those of a group of the list.
  scan-least :
      (groups : List ℤ) (acc : Load)
      → (scan counts groups acc).leastn < acc.leastn
      → (mem (scan counts groups acc).least groups ≡ true)
        × ((scan counts groups acc).leastn ≡ n_of (scan counts groups acc).least)
  unfolding scan visit
  scan-least [] acc h = absurd (omega arith)
  scan-least (g ∷ groups) acc h =
      let next : Load = visit (n_of g) g acc in
      ground (arith, scan-least groups next, scan-least_kept groups next, scan-bounds groups next)

  scan-most :
      (groups : List ℤ) (acc : Load)
      → ¬ ((scan counts groups acc).mostn ≤ℤ acc.mostn)
      → (mem (scan counts groups acc).most groups ≡ true)
        × ((scan counts groups acc).mostn ≡ pos (n_of (scan counts groups acc).most))
  unfolding scan visit
  scan-most [] acc h = absurd (omega arith)
  scan-most (g ∷ groups) acc h =
      let next : Load = visit (n_of g) g acc in
      ground (arith, scan-most groups next, scan-most_kept groups next, scan-bounds groups next)

-- `l` names a group with the fewest and one with the most shards, and counts them.
pub record IsExtreme (c : ShardConfig) (l : Load) : Type 0 where
  pub least_in : has l.least c.groups ≡ true
  pub least_count : l.leastn ≡ count l.least c.shards
  pub most_in : has l.most c.groups ≡ true
  pub most_count : l.mostn ≡ pos (count l.most c.shards)
  pub lowest : (g : ℤ) → has g c.groups ≡ true → l.leastn ≤ count g c.shards
  pub highest : (g : ℤ) → has g c.groups ≡ true → count g c.shards ≤ count l.most c.shards

module _ (c : ShardConfig) where
  abbrev pub counts_of : Map ℤ ℕ
  counts_of = tally [] c.shards

  abbrev groups_of : List ℤ
  groups_of = sort (keys c.groups)

  pub counts_of_lem : (g : ℤ) → get_or g 0 counts_of ≡ count g c.shards
  unfolding lookup
  counts_of_lem g = omega (arith, get_or-tally g [] c.shards)

  -- With a group and at most 256 shards, both ends of the scan are groups, and extreme.
  pub analyze-IsExtreme :
      (g : ℤ) → has g c.groups ≡ true → length c.shards < 257 → IsExtreme c (analyze c)
  unfolding analyze
  analyze-IsExtreme g h small = record {
    least_in = ground (arith, low, mem-sort (analyze c).least (keys c.groups));
    least_count = ground (arith, low, counts_of_lem (analyze c).least);
    most_in = ground (arith, high, mem-sort (analyze c).most (keys c.groups));
    most_count = ground (arith, high, counts_of_lem (analyze c).most);
    lowest = λ j hj. omega (arith, (covers j hj).0, counts_of_lem j);
    highest =
        λ j hj. ground (arith, covers j hj, high, counts_of_lem (analyze c).most, counts_of_lem j);
  }
    where
      covers :
          (j : ℤ)
          → has j c.groups ≡ true
          → ((analyze c).leastn ≤ get_or j 0 counts_of)
            × (pos (get_or j 0 counts_of) ≤ℤ (analyze c).mostn)
      covers j hj =
          scan-covers counts_of groups_of no_load j (ground (arith, mem-sort j (keys c.groups)))

      low :
          (mem (analyze c).least groups_of ≡ true)
          × ((analyze c).leastn ≡ get_or (analyze c).least 0 counts_of)
      low =
          scan-least counts_of groups_of no_load
            (omega (arith, (covers g h).0, counts_of_lem g, count-le-length g c.shards))

      high :
          (mem (analyze c).most groups_of ≡ true)
          × ((analyze c).mostn ≡ pos (get_or (analyze c).most 0 counts_of))
      high =
          scan-most counts_of groups_of no_load
            (λ below. absurd (omega (arith, (covers g h).1, below)))
