-- ===== src/Shardcfg/Membership.antt =====
-- `Join`, `Leave`, `JoinBalance` and `LeaveBalance`. Each returns the configuration that the call
-- leaves behind, since the code changes it in place, and the code's result.
pub mod Joining
pub mod Leaving
pub mod RoundTrip
pub mod Balance
use pluggable_sharded_fault.Base.{
  ℕ, ◌+◌, Bool, true, false, ◌||◌, Option, none, some, List, [], ◌∷◌, String, ℤ, incr,
  if◌then◌else◌, ◌==◌, int_eq, string_eq, Outcome, ok, panic, fatal, stuck, mem, Map, has, insert,
  delete,
}
use pluggable_sharded_fault.Shardcfg.Config.{ShardConfig, Servers}
use pluggable_sharded_fault.Shardcfg.Rebalance.{rebalance}

-- The loops over `xservers` and `servers`
abbrev pub shares : Servers → Servers → Bool
shares [] srvs = false
shares (s1 ∷ xservers) srvs = mem s1 srvs || shares xservers srvs

-- A server of the new group that some group already has
abbrev pub clashes : Servers → Map ℤ Servers → Bool
clashes srvs [] = false
clashes srvs ((xgid, xservers) ∷ groups) = shares xservers srvs || clashes srvs groups

unfoldable pub join_from : Map ℤ Servers → Bool → ShardConfig → Outcome (ShardConfig × Bool)
join_from [] changed c = if changed then ok (record c { num = incr c.num }, true) else fatal
join_from ((gid, srvs) ∷ rest) changed c =
    if has gid c.groups
    then ok (c, false)
    else if clashes srvs c.groups
    then fatal
    else join_from rest true (record c { groups = insert gid srvs c.groups })

unfoldable pub join : Map ℤ Servers → ShardConfig → Outcome (ShardConfig × Bool)
join servers c = join_from servers false c

unfoldable pub leave_from : List ℤ → Bool → ShardConfig → Outcome (ShardConfig × Bool)
leave_from [] changed c = if changed then ok (record c { num = incr c.num }, true) else fatal
leave_from (gid ∷ rest) changed c =
    if has gid c.groups
    then leave_from rest true (record c { groups = delete gid c.groups })
    else ok (c, false)

unfoldable pub leave : List ℤ → ShardConfig → Outcome (ShardConfig × Bool)
leave gids c = leave_from gids false c

or_stuck : Option ShardConfig → Outcome (ShardConfig × Bool)
or_stuck none = stuck
or_stuck (some c) = ok (c, true)

-- The tail of both: `Rebalance` if the change was made.
unfoldable pub and_balance : Outcome (ShardConfig × Bool) → Outcome (ShardConfig × Bool)
unfolding or_stuck
and_balance (ok (c, true)) = or_stuck (rebalance c)
and_balance r = r

unfoldable pub join_balance : Map ℤ Servers → ShardConfig → Outcome (ShardConfig × Bool)
unfolding and_balance
join_balance servers c = and_balance (join servers c)

unfoldable pub leave_balance : List ℤ → ShardConfig → Outcome (ShardConfig × Bool)
unfolding and_balance
leave_balance gids c = and_balance (leave gids c)
