-- ===== src/Shardcfg/Membership/Leaving.antt =====
-- `Leave`: what it removes, when it succeeds, and what it leaves behind when it refuses.
use mathlib.Core.Path.{subst}
use pluggable_sharded_fault.Base.{
  ◌≡◌, refl, ap, sym, Bool, true, false, none, List, [], ◌∷◌, arith, ℤ, incr, eqb_ℤ_iff,
  if◌then◌else◌, int_eq, ok, mem, Map, lookup, has, delete, lookup-delete, has-delete,
  delete-Distinct,
}
use pluggable_sharded_fault.Shardcfg.Config.{ShardConfig, Servers, IsConfig}
use pluggable_sharded_fault.Shardcfg.Membership.{leave_from, leave}
use pluggable_sharded_fault.Shardcfg.Membership.Joining.{AreDisjoint}

pub record Left (gids : List ℤ) (c r : ShardConfig) : Type 0 where
  pub shards : r.shards ≡ c.shards
  pub entries : (g : ℤ) → lookup g r.groups ≡ (if mem g gids then none else lookup g c.groups)
  pub present : (g : ℤ) → mem g gids ≡ true → has g c.groups ≡ true

leave_from-nil :
    (changed : Bool) (c r : ShardConfig)
    → leave_from [] changed c ≡ ok (r, true)
    → record c { num = incr c.num } ≡ r
unfolding leave_from
leave_from-nil true c r h = cc
leave_from-nil false c r h = cc

leave_from-cons :
    (gid : ℤ) (rest : List ℤ) (changed : Bool) (c r : ShardConfig)
    → leave_from (gid ∷ rest) changed c ≡ ok (r, true)
    → (has gid c.groups ≡ true)
      × (leave_from rest true (record c { groups = delete gid c.groups }) ≡ ok (r, true))
unfolding leave_from
leave_from-cons gid rest changed c r h = ground arith

Left-nil : (c : ShardConfig) → Left [] c (record c { num = incr c.num })
Left-nil c = record { shards = refl; entries = λ g. refl; present = λ g h. cc }

Left-cons :
    (gid : ℤ) (rest : List ℤ) (c r : ShardConfig)
    → has gid c.groups ≡ true
    → Left rest (record c { groups = delete gid c.groups }) r
    → Left (gid ∷ rest) c r
Left-cons gid rest c r old l = record {
  shards = l.shards;
  entries = λ g. ground (arith, l.entries g, lookup-delete gid g c.groups, eqb_ℤ_iff gid g);
  present = λ g h. ground (arith, old, eqb_ℤ_iff gid g, l.present g, has-delete gid g c.groups);
}

leave_from-Left :
    (gids : List ℤ) (changed : Bool) (c r : ShardConfig)
    → leave_from gids changed c ≡ ok (r, true)
    → (r.num ≡ incr c.num) × Left gids c r
leave_from-Left [] changed c r h =
    let e = leave_from-nil changed c r h in
    (ap (λ x. x.num) (sym e), subst (Left [] c) e (Left-nil c))
leave_from-Left (gid ∷ rest) changed c r h =
    let (old, goes_on) = leave_from-cons gid rest changed c r h in
    let (n, l) = leave_from-Left rest true (record c { groups = delete gid c.groups }) r goes_on in
    (n, Left-cons gid rest c r old l)

-- A Leave that succeeds adds one to the number, keeps the shards, and removes exactly the given
-- groups, each of which was there.
pub leave-Left :
    (gids : List ℤ) (c r : ShardConfig)
    → leave gids c ≡ ok (r, true)
    → (r.num ≡ incr c.num) × Left gids c r
unfolding leave
leave-Left gids c r h = leave_from-Left gids false c r h

delete-AreDisjoint :
    (gid : ℤ) (groups : Map ℤ Servers) → AreDisjoint groups → AreDisjoint (delete gid groups)
delete-AreDisjoint gid groups d g h xs ys s eg eh hx hy =
    ground (arith, lookup-delete gid g groups, lookup-delete gid h groups, d g h xs ys s)

leave_from-IsConfig :
    (gids : List ℤ) (changed : Bool) (c r : ShardConfig)
    → leave_from gids changed c ≡ ok (r, true)
    → IsConfig c
    → IsConfig r
leave_from-IsConfig [] changed c r h v =
    subst IsConfig (leave_from-nil changed c r h)
      (record { sized = v.sized; distinct = v.distinct })
leave_from-IsConfig (gid ∷ rest) changed c r h v =
    let (_, goes_on) = leave_from-cons gid rest changed c r h in
    leave_from-IsConfig rest true (record c { groups = delete gid c.groups }) r goes_on
      (record { sized = v.sized; distinct = delete-Distinct gid c.groups v.distinct })

-- A Leave that succeeds keeps the keys distinct, and the number of shards.
pub leave-IsConfig :
    (gids : List ℤ) (c r : ShardConfig) → leave gids c ≡ ok (r, true) → IsConfig c → IsConfig r
unfolding leave
leave-IsConfig gids c r h v = leave_from-IsConfig gids false c r h v

leave_from-AreDisjoint :
    (gids : List ℤ) (changed : Bool) (c r : ShardConfig)
    → leave_from gids changed c ≡ ok (r, true)
    → AreDisjoint c.groups
    → AreDisjoint r.groups
leave_from-AreDisjoint [] changed c r h d =
    subst (λ x. AreDisjoint x.groups) (leave_from-nil changed c r h) d
leave_from-AreDisjoint (gid ∷ rest) changed c r h d =
    let (_, goes_on) = leave_from-cons gid rest changed c r h in
    leave_from-AreDisjoint rest true (record c { groups = delete gid c.groups }) r goes_on
      (delete-AreDisjoint gid c.groups d)

-- A Leave that succeeds keeps no server in two groups.
leave-AreDisjoint :
    (gids : List ℤ) (c r : ShardConfig)
    → leave gids c ≡ ok (r, true)
    → AreDisjoint c.groups
    → AreDisjoint r.groups
unfolding leave
leave-AreDisjoint gids c r h d = leave_from-AreDisjoint gids false c r h d

-- A Leave of a group that is there together with one that is not returns false, and has by then
-- removed the group that was there, with the number unchanged.
pub leave_partial :
    (c : ShardConfig) (old missing : ℤ)
    → has old c.groups ≡ true
    → has missing c.groups ≡ false
    → leave (old ∷ missing ∷ []) c ≡ ok (record c { groups = delete old c.groups }, false)
unfolding leave leave_from
leave_partial c old missing ho hm = ground (arith, has-delete old missing c.groups)
