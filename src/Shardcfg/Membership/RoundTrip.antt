-- ===== src/Shardcfg/Membership/RoundTrip.antt =====
-- A Join, and a Leave of the groups that it added.
use pluggable_sharded_fault.Base.{
  ◌≡◌, ◌≢◌, refl, ◌∙◌, Bool, true, false, List, [], ◌∷◌, arith, ℤ, incr, eqb_ℤ_iff, int_eq, ok, mem,
  Distinct, Map, keys, lookup, has, delete, insert, lookup-has, has-lookup, lookup-none_iff,
  has-delete, has-insert,
}
use pluggable_sharded_fault.Shardcfg.Config.{ShardConfig, Servers}
use pluggable_sharded_fault.Shardcfg.Membership.{join_from, join, leave_from, leave}
use pluggable_sharded_fault.Shardcfg.Membership.Leaving.{Left, leave-Left}
use pluggable_sharded_fault.Shardcfg.Membership.Joining.{
  Joined, join-Joined, join_from-Joined, join_from-cons,
}

leave_from-succeeds :
    (gids : List ℤ) (c : ShardConfig)
    → Distinct gids
    → ((g : ℤ) → mem g gids ≡ true → has g c.groups ≡ true)
    → (r : ShardConfig) × (leave_from gids true c ≡ ok (r, true))
unfolding leave_from
leave_from-succeeds [] c d present = (record c { num = incr c.num }, refl)
leave_from-succeeds (gid ∷ rest) c d present =
    let (r, e) =
      leave_from-succeeds rest (record c { groups = delete gid c.groups }) d.1
        (λ g h. ground (arith, has-delete gid g c.groups, eqb_ℤ_iff gid g, present g, d.0)) in
    (r, rw (present gid (ground (arith, eqb_ℤ_iff gid gid))) e)

join_from-Distinct :
    (servers : Map ℤ Servers) (changed : Bool) (c r : ShardConfig)
    → join_from servers changed c ≡ ok (r, true)
    → Distinct (keys servers)
join_from-Distinct [] changed c r h = tt
join_from-Distinct ((gid, srvs) ∷ rest) changed c r h =
    let (_, _, goes_on) = join_from-cons gid srvs rest changed c r h in
    let (_, j) =
      join_from-Joined rest true (record c { groups = insert gid srvs c.groups }) r goes_on in
    (
      ground (arith, j.fresh gid, has-insert gid gid srvs c.groups, eqb_ℤ_iff gid gid),
      join_from-Distinct rest true (record c { groups = insert gid srvs c.groups }) r goes_on,
    )

leave-succeeds :
    (gids : List ℤ) (c : ShardConfig)
    → gids ≢ []
    → Distinct gids
    → ((g : ℤ) → mem g gids ≡ true → has g c.groups ≡ true)
    → (r : ShardConfig) × (leave gids c ≡ ok (r, true))
unfolding leave leave_from
leave-succeeds [] c ne d present = absurd (ne refl)
leave-succeeds (gid ∷ rest) c ne d present = leave_from-succeeds (gid ∷ rest) c d present

keys_nonempty :
    (changed : Bool) (servers : Map ℤ Servers) (c r : ShardConfig)
    → join_from servers changed c ≡ ok (r, true)
    → changed ≡ false
    → keys servers ≢ []
unfolding join_from
keys_nonempty changed [] c r h e = absurd (ground arith)
keys_nonempty changed ((g, srvs) ∷ rest) c r h e = λ q. cc

back-lookup :
    (servers : Map ℤ Servers) (c r q : ShardConfig)
    → Joined servers c r
    → Left (keys servers) r q
    → (g : ℤ) → lookup g q.groups ≡ lookup g c.groups
back-lookup servers c r q j l g = ground (
  arith,
  l.entries g,
  j.entries g,
  j.fresh g,
  (lookup-none_iff g servers).1,
  (lookup-none_iff g c.groups).1,
)

-- After a Join that succeeds, a Leave of the same groups succeeds, and every group has again the
-- servers that it had before the Join.
pub leave-join :
    (servers : Map ℤ Servers) (c r : ShardConfig)
    → join servers c ≡ ok (r, true)
    → (q : ShardConfig) × (leave (keys servers) r ≡ ok (q, true))
      × (q.shards ≡ c.shards)
      × ((g : ℤ) → lookup g q.groups ≡ lookup g c.groups)
unfolding join
leave-join servers c r h =
    let (q, left) = again in
    let l : Left (keys servers) r q = (leave-Left (keys servers) r q left).1 in
    (q, left, l.shards ∙ j.shards, back-lookup servers c r q j l)
  where
    j : Joined servers c r
    j = (join-Joined servers c r h).1

    added : (g : ℤ) → mem g (keys servers) ≡ true → has g r.groups ≡ true
    added g m =
        let (v, e) = has-lookup g servers m in
        lookup-has g r.groups v (ground (arith, j.entries g, e))

    again : (x : ShardConfig) × (leave (keys servers) r ≡ ok (x, true))
    again =
        leave-succeeds (keys servers) r (keys_nonempty false servers c r h refl)
          (join_from-Distinct servers false c r h) added
