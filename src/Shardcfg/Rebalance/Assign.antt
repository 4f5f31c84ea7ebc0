-- ===== src/Shardcfg/Rebalance/Assign.antt =====
-- The first loop of `Rebalance`: every shard ends on a group, and those that had one stay.
use mathlib.Core.List.{append_assoc}
use pluggable_sharded_fault.Base.{
  suc, ◌+◌, ◌<◌, ◌≡◌, refl, ap, ◌∙◌, true, List, [], ◌∷◌, ◌++◌, arith, ℤ, int_eq, length,
  length-append, set, All, Map, has, Bool-cases, inl, inr,
}
use pluggable_sharded_fault.Shardcfg.Config.{ShardConfig, Servers}
use pluggable_sharded_fault.Shardcfg.Analyze.{least}
use pluggable_sharded_fault.Shardcfg.Analyze.Extremes.{analyze-IsExtreme}
use pluggable_sharded_fault.Shardcfg.Rebalance.{assign_from, assign_all}

-- Every shard of the list belongs to a group.
abbrev pub Assigned : Map ℤ Servers → List ℤ → Type 0
Assigned groups = All (λ g. has g groups ≡ true)

-- Where the two lists differ, the first named no group.
abbrev pub Keeps : Map ℤ Servers → List ℤ → List ℤ → Type 0
Keeps groups [] [] = Unit
Keeps groups [] (h ∷ now) = ⊥
Keeps groups (g ∷ was) [] = ⊥
Keeps groups (g ∷ was) (h ∷ now) = (has g groups ≡ true → h ≡ g) × Keeps groups was now

set-append :
    (xs : List ℤ) (g : ℤ) (ys : List ℤ) (v : ℤ) → set (xs ++ g ∷ ys) (length xs) v ≡ xs ++ v ∷ ys
set-append [] g ys v = refl
set-append (x ∷ xs) g ys v = ap (◌∷◌ x) (set-append xs g ys v)

All-append_one :
    (groups : Map ℤ Servers) (xs : List ℤ) (g : ℤ)
    → Assigned groups xs
    → has g groups ≡ true
    → Assigned groups (xs ++ g ∷ [])
All-append_one groups [] g a h = (h, tt)
All-append_one groups (x ∷ xs) g a h = (a.0, All-append_one groups xs g a.1 h)

-- What the loop makes of the rest, after the shards `done`.
record Assigns (c : ShardConfig) (done rest : List ℤ) (r : ShardConfig) : Type 0 where
  num : r.num ≡ c.num
  groups : r.groups ≡ c.groups
  tail : (out : List ℤ) × (r.shards ≡ done ++ out) × Keeps c.groups rest out × Assigned c.groups out

module _ (c : ShardConfig) (g₀ : ℤ) (some_group : has g₀ c.groups ≡ true) where
  abbrev with_shards : List ℤ → ShardConfig
  with_shards l = record c { shards = l }

  least_in_groups : (l : List ℤ) → length l < 257 → has (least (with_shards l)) c.groups ≡ true
  unfolding least
  least_in_groups l small = (analyze-IsExtreme (with_shards l) g₀ some_group small).least_in

  snoc_length : (done : List ℤ) (v : ℤ) → length (done ++ v ∷ []) ≡ length done + 1
  snoc_length done v = omega (arith, length-append done (v ∷ []))

  -- From the rest of the loop to one round more, which made `v` of `g`.
  Assigns-step :
      (done : List ℤ) (g v : ℤ) (rest : List ℤ) (r : ShardConfig)
      → has v c.groups ≡ true
      → (has g c.groups ≡ true → v ≡ g)
      → Assigns c (done ++ v ∷ []) rest r
      → Assigns c done (g ∷ rest) r
  Assigns-step done g v rest r hv kept a =
      let (out, shape, keeps, all) = a.tail in
      record {
        num = a.num;
        groups = a.groups;
        tail = (v ∷ out, shape ∙ append_assoc done (v ∷ []) out, (kept, keeps), (hv, all));
      }

  -- The state after a round, written as the start of the next.
  next_round :
      (done : List ℤ) (v : ℤ) (rest : List ℤ)
      → Assigns c
          (done ++ v ∷ [])
          rest
          (assign_from rest (length (done ++ v ∷ [])) (with_shards ((done ++ v ∷ []) ++ rest)))
      → Assigns c
          (done ++ v ∷ [])
          rest
          (assign_from rest (length done + 1) (with_shards (done ++ v ∷ rest)))
  next_round done v rest a = rw (snoc_length done v, append_assoc done (v ∷ []) rest) at a

  still_small :
      (done : List ℤ) (g v : ℤ) (rest : List ℤ)
      → length (done ++ g ∷ rest) < 257
      → length ((done ++ v ∷ []) ++ rest) < 257
  still_small done g v rest small = omega (
    arith,
    length-append (done ++ v ∷ []) rest,
    snoc_length done v,
    length-append done (g ∷ rest),
  )

  assign_from-Assigns :
      (rest done : List ℤ)
      → length (done ++ rest) < 257
      → Assigns c done rest (assign_from rest (length done) (with_shards (done ++ rest)))
  unfolding assign_from
  assign_from-Assigns [] done small = record {
    num = refl;
    groups = refl;
    tail = ([], refl, tt, tt);
  }
  assign_from-Assigns (g ∷ rest) done small =
      let v = least (with_shards (done ++ g ∷ rest)) in
      let again =
        λ (w : ℤ). assign_from-Assigns rest (done ++ w ∷ []) (still_small done g w rest small) in
      elim (Bool-cases (has g c.groups)) [
        | inl old ↦
            rw old (Assigns-step done g g rest _ old (λ _. refl) (next_round done g rest (again g)))
        | inr new ↦
            rw (new, set-append done g rest v)
              (Assigns-step done g v rest _ (least_in_groups _ small) (λ old. cc)
                (next_round done v rest (again v)))
      ]

  -- After the loop all shards have a group, and a shard that had one keeps it.
  pub assign_all-Assigned :
      length c.shards < 257
      → ((assign_all c).num ≡ c.num)
        × ((assign_all c).groups ≡ c.groups)
        × Assigned c.groups (assign_all c).shards
        × Keeps c.groups c.shards (assign_all c).shards
  unfolding assign_all
  assign_all-Assigned small =
      let a = assign_from-Assigns c.shards [] small in
      let (out, shape, keeps, all) = a.tail in (a.num, a.groups, rw shape all, rw shape keeps)

-- A list that keeps another has its length.
pub Keeps-length :
    (groups : Map ℤ Servers) (was now : List ℤ) → Keeps groups was now → length now ≡ length was
Keeps-length groups [] [] k = refl
Keeps-length groups [] (h ∷ now) k = absurd k
Keeps-length groups (g ∷ was) [] k = absurd k
Keeps-length groups (g ∷ was) (h ∷ now) k = ap suc (Keeps-length groups was now k.1)
