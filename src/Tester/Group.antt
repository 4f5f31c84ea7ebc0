-- ===== src/Tester/Group.antt =====
-- `Server` of src/tester1/srv.go and `ServerGrp` of src/tester1/group.go: each server of a group
-- has an end to every server of it, and a connection is the ends between two servers, enabled. An
-- index out of range panics, `none` where nothing else can go wrong.
pub mod Isolation
use pluggable_sharded_fault.Base.{
  ℕ, zero, suc, ◌+◌, ◌*◌, Bool, true, false, Option, none, some, List, [], ◌∷◌, ◌++◌, map, String,
  ℤ, ltb, if◌then◌else◌, Outcome, ok, panic, fatal, length, get_elem?, set, replicate,
}
use pluggable_sharded_fault.Labrpc.Network.{
  Network, make_end, connect, enable, add_server, delete_server,
}
use pluggable_sharded_fault.Tester.Persister.{
  Persister, make_persister, copy_persister, raft_state_size, snapshot_size,
}

-- A service is a Go pointer, by its address.
pub record Server : Type 0 where
  pub saved : Option Persister
  pub svcs : List ℕ
  pub end_names : List String

-- `killed` lists the services that were told to stop.
pub record ServerGrp : Type 0 where
  pub net : Network
  pub srvs : List Server
  pub gid : ℤ
  pub connected : List Bool
  pub killed : List ℕ

-- The name of the i-th server, `ServerName(gid, i)`, is a parameter, `server_name`: it prints two
-- numbers. Fresh names of ends, `Randstring(20)`, are arguments.
module _ (server_name : ℤ → ℕ → String) where
  unfoldable pub make_ends : ℤ → ℕ → List String → Network → Outcome Network
  make_ends gid j [] net = ok net
  make_ends gid j (name ∷ names) net = elim (make_end name net) [
    | ok (e, made) ↦ make_ends gid (j + 1) names (connect name (server_name gid j) made)
    | _ ↦ fatal
  ]

  unfoldable pub make_srv : ℤ → List String → Network → Outcome (Server × Network)
  make_srv gid names net = elim (make_ends gid 0 names net) [
    | ok made ↦ ok (record { saved = none; svcs = []; end_names = names }, made)
    | _ ↦ fatal
  ]

  -- A fresh persister takes over what the old one saved.
  unfoldable pub start_server : ℤ → List String → Server → Network → Outcome (Server × Network)
  start_server gid names s net = elim (make_srv gid names net) [
    | ok (srv, made) ↦ ok (
      record srv {
        saved = elim s.saved [ none ↦ some make_persister | some ps ↦ some (copy_persister ps) ];
      },
      made,
    )
    | _ ↦ fatal
  ]

-- The server after the call, and the services that it told to stop
unfoldable pub shutdown_server : Server → Server × List ℕ
shutdown_server s = (
  record s { saved = elim s.saved [ none ↦ none | some ps ↦ some (copy_persister ps) ]; svcs = [] },
  s.svcs,
)

unfoldable pub all_from : ℕ → ℕ → List ℕ
all_from i zero = []
all_from i (suc n) = i ∷ all_from (i + 1) n

unfoldable pub all : ServerGrp → List ℕ
all sg = all_from 0 (length sg.srvs)

unfoldable pub is_connected : ServerGrp → ℕ → Option Bool
is_connected sg i = get_elem? sg.connected i

-- `sg.srvs[i].endNames[j]`
unfoldable pub end_name : ServerGrp → ℕ → ℕ → Option String
end_name sg i j = elim (get_elem? sg.srvs i) [ none ↦ none | some s ↦ get_elem? s.end_names j ]

-- The loops over `to` and `from`: `pick` is the end that a round is about, and `test` whether the
-- round enables or disables it.
unfoldable pub switch :
    (ℕ → Option Bool) → (ℕ → Option String) → Bool → List ℕ → Network → Option Network
switch test pick on [] net = some net
switch test pick on (j ∷ js) net = elim (test j) [
  | none ↦ none
  | some false ↦ switch test pick on js net
  | some true ↦ elim (pick j) [ none ↦ none | some e ↦ switch test pick on js (enable e on net) ]
]

abbrev always : ℕ → Option Bool
always j = some true

-- First the ends of the server, then those to it.
unfoldable pub switch_both : ServerGrp → (ℕ → Option Bool) → Bool → ℕ → List ℕ → Option ServerGrp
switch_both sg test on i js = elim (switch test (λ j. end_name sg i j) on js sg.net) [
  | none ↦ none
  | some out ↦ elim (switch test (λ j. end_name sg j i) on js out) [
    | none ↦ none
    | some both ↦ some (record sg { net = both })
  ]
]

-- `connected[i] = b`
unfoldable pub mark : ℕ → Bool → ServerGrp → Option ServerGrp
mark i b sg =
    if ltb i (length sg.connected)
    then some (record sg { connected = set sg.connected i b })
    else none

unfoldable pub grp_connect : ℕ → List ℕ → ServerGrp → Option ServerGrp
grp_connect i to sg = elim (mark i true sg) [
  | none ↦ none
  | some marked ↦ switch_both marked (is_connected marked) true i to
]

-- A server's `endNames` is never nil here.
unfoldable pub grp_disconnect : ℕ → List ℕ → ServerGrp → Option ServerGrp
unfolding switch_both
grp_disconnect i from sg = elim (mark i false sg) [
  | none ↦ none
  | some marked ↦ switch_both marked always false i from
]

unfoldable pub connect_one : ℕ → ServerGrp → Option ServerGrp
connect_one i sg = grp_connect i (all sg) sg

unfoldable pub disconnect_all : ℕ → ServerGrp → Option ServerGrp
disconnect_all i sg = grp_disconnect i (all sg) sg

unfoldable pub connect_each : List ℕ → ServerGrp → Option ServerGrp
connect_each [] sg = some sg
connect_each (i ∷ is) sg = elim (connect_one i sg) [ none ↦ none | some r ↦ connect_each is r ]

unfoldable pub connect_all : ServerGrp → Option ServerGrp
connect_all sg = connect_each (all sg) sg

-- One of the two loops of `Partition`: each server of `mine` is cut off from `other`.
unfoldable pub cut : List ℕ → List ℕ → List ℕ → ServerGrp → Option ServerGrp
cut [] mine other sg = some sg
cut (i ∷ is) mine other sg = elim (grp_disconnect i other sg) [
  | none ↦ none
  | some off ↦ elim (grp_connect i mine off) [ none ↦ none | some r ↦ cut is mine other r ]
]

unfoldable pub partition : List ℕ → List ℕ → ServerGrp → Option ServerGrp
partition p1 p2 sg = elim (cut p1 p1 p2 sg) [ none ↦ none | some r ↦ cut p2 p2 p1 r ]

unfoldable pub max_size : (Persister → ℕ) → ℕ → List Server → Option ℕ
max_size size best [] = some best
max_size size best (s ∷ srvs) = elim s.saved [
  | none ↦ none
  | some ps ↦ max_size size (if ltb best (size ps) then size ps else best) srvs
]

unfoldable pub log_size : ServerGrp → Option ℕ
log_size sg = max_size raft_state_size 0 sg.srvs

unfoldable pub grp_snapshot_size : ServerGrp → Option ℕ
grp_snapshot_size sg = max_size snapshot_size 0 sg.srvs

module _ (server_name : ℤ → ℕ → String) where
  -- `svcs` is what `mks` returns, and `labsrv` the address of the new server on the network.
  unfoldable pub grp_start_server : ℕ → List String → List ℕ → ℕ → ServerGrp → Outcome ServerGrp
  grp_start_server i names svcs labsrv sg = elim (get_elem? sg.srvs i) [
    | none ↦ panic
    | some old ↦ elim (start_server server_name sg.gid names old sg.net) [
      | ok (srv, made) ↦ ok (record sg {
        srvs = set sg.srvs i (record srv { svcs = svcs });
        net = add_server (server_name sg.gid i) (some labsrv) made;
      })
      | _ ↦ fatal
    ]
  ]

  -- The server leaves the network before its persister is copied.
  unfoldable pub grp_shutdown_server : ℕ → ServerGrp → Option ServerGrp
  grp_shutdown_server i sg = elim (disconnect_all i sg) [
    | none ↦ none
    | some off ↦ elim (get_elem? off.srvs i) [
      | none ↦ none
      | some s ↦ some (record off {
        net = delete_server (server_name off.gid i) off.net;
        srvs = set off.srvs i (shutdown_server s).0;
        killed = off.killed ++ (shutdown_server s).1;
      })
    ]
  ]

  -- `names` has the fresh names of one server's ends for each server.
  unfoldable pub make_srvs : ℤ → List (List String) → Network → Outcome (List Server × Network)
  make_srvs gid [] net = ok ([], net)
  make_srvs gid (ends ∷ names) net = elim (make_srv server_name gid ends net) [
    | ok (srv, made) ↦ elim (make_srvs gid names made) [
      | ok (srvs, last) ↦ ok (srv ∷ srvs, last)
      | _ ↦ fatal
    ]
    | _ ↦ fatal
  ]

  unfoldable pub make_srv_grp : ℤ → List (List String) → Network → Outcome ServerGrp
  make_srv_grp gid names net = elim (make_srvs gid names net) [
    | ok (srvs, made) ↦ ok (record {
      net = made;
      srvs = srvs;
      gid = gid;
      connected = replicate (length srvs) false;
      killed = [];
    })
    | _ ↦ fatal
  ]

  unfoldable pub shutdown_each : List ℕ → ServerGrp → Option ServerGrp
  shutdown_each [] sg = some sg
  shutdown_each (i ∷ is) sg = elim (grp_shutdown_server i sg) [
    | none ↦ none
    | some r ↦ shutdown_each is r
  ]

  unfoldable pub shutdown : ServerGrp → Option ServerGrp
  shutdown sg = shutdown_each (all sg) sg
