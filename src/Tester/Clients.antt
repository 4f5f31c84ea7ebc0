-- ===== src/Tester/Clients.antt =====
-- `Clnt` of src/tester1/clnts.go: a clerk's ends on the network, one per server, made when it is
-- first called, and which servers the clerk may reach.
pub mod Laws
pub mod Calls
use pluggable_sharded_fault.Base.{
  ℕ, Bool, true, false, Option, none, some, List, [], ◌∷◌, String, if◌then◌else◌, Outcome, ok,
  panic, fatal, stuck, ◌==◌, string_eq, mem, Map, lookup, insert,
}
use pluggable_sharded_fault.Labrpc.Network.{
  ClientEnd, Network, make_end, delete_end, connect, enable,
}

-- `ends` leads from a server to the name of the end. `srvs` is `none` when it is nil.
pub record Clnt : Type 0 where
  pub ends : Map String String
  pub srvs : Option (List String)

unfoldable pub make_clnt_to : Option (List String) → Clnt
make_clnt_to srvs = record { ends = []; srvs = srvs }

unfoldable pub allowed : Clnt → String → Bool
allowed clnt server = elim clnt.srvs [ none ↦ true | some srvs ↦ mem server srvs ]

-- A new end, once its name is on the network
unfoldable pub set_up_end : String → String → Clnt → Network → Clnt × Network
unfolding allowed
set_up_end server name clnt rn = (
  record clnt { ends = insert server name clnt.ends },
  enable name (allowed clnt server) (connect name server rn),
)

-- `name` is `Randstring(20)`: a name that is taken ends the process. The results are the end's
-- name, and the clerk and network after the call.
unfoldable pub clnt_make_end : String → String → Clnt → Network → Outcome (String × Clnt × Network)
unfolding set_up_end make_end
clnt_make_end server name clnt rn = elim (lookup server clnt.ends) [
  | some old ↦ ok (old, clnt, rn)
  | none ↦ elim (make_end name rn) [
    | ok (e, made) ↦ let (c, r) = set_up_end server name clnt made in ok (name, c, r)
    | panic ↦ panic
    | fatal ↦ fatal
    | stuck ↦ stuck
  ]
]

-- The loops over `clnt.ends`: the ends to the servers of a test are enabled, or disabled.
unfoldable pub enable_where : (String → Bool) → Bool → Map String String → Network → Network
enable_where test on [] rn = rn
enable_where test on ((srv, name) ∷ ends) rn =
    enable_where test on ends (if test srv then enable name on rn else rn)

unfoldable pub connect_all : Clnt → Network → Clnt × Network
connect_all clnt rn = (record clnt { srvs = none }, enable_where (λ _. true) true clnt.ends rn)

unfoldable pub connect_to : List String → Clnt → Network → Clnt × Network
connect_to srvs clnt rn =
    let new : Clnt = record clnt { srvs = some srvs } in
    (new, enable_where (allowed new) true new.ends rn)

unfoldable pub disconnect : String → Clnt → Network → Network
disconnect srv clnt rn = enable_where (λ s. s == srv) false clnt.ends rn

unfoldable pub disconnect_all : Clnt → Network → Clnt × Network
disconnect_all clnt rn =
    (record clnt { srvs = some [] }, enable_where (λ _. true) false clnt.ends rn)

unfoldable pub delete_ends : Map String String → Network → Outcome Network
delete_ends [] rn = ok rn
delete_ends ((srv, name) ∷ ends) rn = elim (delete_end name rn) [
  | ok deleted ↦ delete_ends ends deleted
  | panic ↦ panic
  | fatal ↦ fatal
  | stuck ↦ stuck
]

unfoldable pub remove : Clnt → Network → Outcome Network
remove clnt rn = delete_ends clnt.ends rn
