-- ===== src/Shardcfg/Membership/Joining.antt =====
-- `Join`: what it adds, what it keeps, and what it leaves behind when it refuses.
use mathlib.Core.Path.{subst}
use pluggable_sharded_fault.Base.{
  ◌≡◌, ◌≢◌, refl, ap, sym, Bool, true, false, none, some, [], ◌∷◌, String, arith, ℤ, incr,
  eqb_ℤ_iff, ◌==◌, int_eq, string_eq, ok, mem, Map, lookup, has, insert, lookup-insert, has-insert,
  insert-Distinct, Bool-cases, inl, inr, Option-cases, lookup-has,
}
use pluggable_sharded_fault.Shardcfg.Config.{ShardConfig, Servers, IsConfig}
use pluggable_sharded_fault.Shardcfg.Membership.{shares, clashes, join_from, join}

-- The groups `after` hold the new servers beside the old groups, which had none of the new names.
pub record Joined (servers : Map ℤ Servers) (c r : ShardConfig) : Type 0 where
  pub shards : r.shards ≡ c.shards
  pub entries :
      (g : ℤ)
      → lookup g r.groups
        ≡ elim (lookup g servers) [ none ↦ lookup g c.groups | some srvs ↦ some srvs ]
  pub fresh : (g : ℤ) → has g servers ≡ true → has g c.groups ≡ false

module _ (gid : ℤ) (srvs : Servers) (rest : Map ℤ Servers) (c r : ShardConfig)
    (new : has gid c.groups ≡ false)
    (j : Joined rest (record c { groups = insert gid srvs c.groups }) r) where
  later_key : (g : ℤ) (v : Servers) → lookup g rest ≡ some v → gid ≢ g
  later_key g v e same =
      ground
        (arith, j.fresh g (lookup-has g rest v e), has-insert gid g srvs c.groups, eqb_ℤ_iff gid g)

  Joined-cons : Joined ((gid, srvs) ∷ rest) c r
  unfolding lookup
  Joined-cons = record {
    shards = j.shards;
    entries = λ g. elim (Option-cases (lookup g rest)) [
      | inl missing ↦ ground (arith, j.entries g, missing, lookup-insert gid g srvs c.groups)
      | inr (v, e) ↦ ground (arith, j.entries g, e, later_key g v e, eqb_ℤ_iff gid g)
    ];
    fresh = λ g h. ground (arith, new, eqb_ℤ_iff gid g, j.fresh g, has-insert gid g srvs c.groups);
  }

-- A round that goes on to success.
pub join_from-cons :
    (gid : ℤ) (srvs : Servers) (rest : Map ℤ Servers) (changed : Bool) (c r : ShardConfig)
    → join_from ((gid, srvs) ∷ rest) changed c ≡ ok (r, true)
    → (has gid c.groups ≡ false)
      × (clashes srvs c.groups ≡ false)
      × (join_from rest true (record c { groups = insert gid srvs c.groups }) ≡ ok (r, true))
unfolding join_from
join_from-cons gid srvs rest changed c r h = ground arith

join_from-nil :
    (changed : Bool) (c r : ShardConfig)
    → join_from [] changed c ≡ ok (r, true)
    → record c { num = incr c.num } ≡ r
unfolding join_from
join_from-nil true c r h = cc
join_from-nil false c r h = cc

Joined-nil : (c : ShardConfig) → Joined [] c (record c { num = incr c.num })
unfolding lookup
Joined-nil c = record { shards = refl; entries = λ g. refl; fresh = λ g h. cc }

pub join_from-Joined :
    (servers : Map ℤ Servers) (changed : Bool) (c r : ShardConfig)
    → join_from servers changed c ≡ ok (r, true)
    → (r.num ≡ incr c.num) × Joined servers c r
join_from-Joined [] changed c r h =
    let e = join_from-nil changed c r h in
    (ap (λ x. x.num) (sym e), subst (Joined [] c) e (Joined-nil c))
join_from-Joined ((gid, srvs) ∷ rest) changed c r h =
    let (new, _, goes_on) = join_from-cons gid srvs rest changed c r h in
    let (n, j) =
      join_from-Joined rest true (record c { groups = insert gid srvs c.groups }) r goes_on in
    (n, Joined-cons gid srvs rest c r new j)

-- A Join that succeeds adds one to the number, keeps the shards, and adds exactly the given groups,
-- none of which was there.
pub join-Joined :
    (servers : Map ℤ Servers) (c r : ShardConfig)
    → join servers c ≡ ok (r, true)
    → (r.num ≡ incr c.num) × Joined servers c r
unfolding join
join-Joined servers c r h = join_from-Joined servers false c r h

-- No server is in two groups.
abbrev pub AreDisjoint : Map ℤ Servers → Type 0
AreDisjoint groups =
    (g h : ℤ) (xs ys : Servers) (s : String)
    → lookup g groups ≡ some xs
    → lookup h groups ≡ some ys
    → mem s xs ≡ true
    → mem s ys ≡ true
    → g ≡ h

shares-mem :
    (xs ys : Servers) (s : String) → mem s xs ≡ true → mem s ys ≡ true → shares xs ys ≡ true
shares-mem [] ys s hx hy = cc
shares-mem (x ∷ xs) ys s hx hy = elim (Bool-cases (x == s)) [
  | inl here ↦ rw ((string_eq.same_iff x s).0 here, hy)
  | inr other ↦ ground (arith, shares-mem xs ys s)
]

clashes-lookup :
    (srvs : Servers) (groups : Map ℤ Servers) (g : ℤ) (xs : Servers) (s : String)
    → lookup g groups ≡ some xs
    → mem s xs ≡ true
    → mem s srvs ≡ true
    → clashes srvs groups ≡ true
unfolding lookup
clashes-lookup srvs [] g xs s e hx hy = cc
clashes-lookup srvs ((h, ys) ∷ groups) g xs s e hx hy = elim (Bool-cases (h == g)) [
  | inl here ↦ let same : ys ≡ xs = ground arith in rw (same, shares-mem xs srvs s hx hy)
  | inr other ↦ ground (arith, clashes-lookup srvs groups g xs s)
]

insert-AreDisjoint :
    (gid : ℤ) (srvs : Servers) (groups : Map ℤ Servers)
    → clashes srvs groups ≡ false
    → AreDisjoint groups
    → AreDisjoint (insert gid srvs groups)
insert-AreDisjoint gid srvs groups good d g h xs ys s eg eh hx hy = ground (
  arith,
  lookup-insert gid g srvs groups,
  lookup-insert gid h srvs groups,
  eqb_ℤ_iff gid g,
  eqb_ℤ_iff gid h,
  clashes-lookup srvs groups g xs s,
  clashes-lookup srvs groups h ys s,
  d g h xs ys s,
)

join_from-IsConfig :
    (servers : Map ℤ Servers) (changed : Bool) (c r : ShardConfig)
    → join_from servers changed c ≡ ok (r, true)
    → IsConfig c
    → IsConfig r
join_from-IsConfig [] changed c r h v =
    subst IsConfig (join_from-nil changed c r h) (record { sized = v.sized; distinct = v.distinct })
join_from-IsConfig ((gid, srvs) ∷ rest) changed c r h v =
    let (_, _, goes_on) = join_from-cons gid srvs rest changed c r h in
    join_from-IsConfig rest true (record c { groups = insert gid srvs c.groups }) r goes_on
      (record { sized = v.sized; distinct = insert-Distinct gid srvs c.groups v.distinct })

-- A Join that succeeds keeps the keys distinct, and the number of shards.
pub join-IsConfig :
    (servers : Map ℤ Servers) (c r : ShardConfig)
    → join servers c ≡ ok (r, true)
    → IsConfig c
    → IsConfig r
unfolding join
join-IsConfig servers c r h v = join_from-IsConfig servers false c r h v

join_from-AreDisjoint :
    (servers : Map ℤ Servers) (changed : Bool) (c r : ShardConfig)
    → join_from servers changed c ≡ ok (r, true)
    → AreDisjoint c.groups
    → AreDisjoint r.groups
join_from-AreDisjoint [] changed c r h d =
    subst (λ x. AreDisjoint x.groups) (join_from-nil changed c r h) d
join_from-AreDisjoint ((gid, srvs) ∷ rest) changed c r h d =
    let (_, good, goes_on) = join_from-cons gid srvs rest changed c r h in
    join_from-AreDisjoint rest true (record c { groups = insert gid srvs c.groups }) r goes_on
      (insert-AreDisjoint gid srvs c.groups good d)

-- A Join that succeeds keeps no server in two groups.
pub join-AreDisjoint :
    (servers : Map ℤ Servers) (c r : ShardConfig)
    → join servers c ≡ ok (r, true)
    → AreDisjoint c.groups
    → AreDisjoint r.groups
unfolding join
join-AreDisjoint servers c r h d = join_from-AreDisjoint servers false c r h d

-- A Join of a fresh group together with one that is present returns false, and has by then added
-- the fresh group, with the number unchanged.
pub join_partial :
    (c : ShardConfig) (new old : ℤ) (srvs more : Servers)
    → has new c.groups ≡ false
    → has old c.groups ≡ true
    → clashes srvs c.groups ≡ false
    → join ((new, srvs) ∷ (old, more) ∷ []) c
      ≡ ok (record c { groups = insert new srvs c.groups }, false)
unfolding join join_from
join_partial c new old srvs more hn ho good = ground (arith, has-insert new old srvs c.groups)
