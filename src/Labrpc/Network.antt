-- ===== src/Labrpc/Network.antt =====
-- The type `Network` and the methods that only touch its maps and flags, each of which runs under
-- the network's mutex. A server is a Go pointer, by its address; nil is `none`.
use pluggable_sharded_fault.Base.{
  ℕ, ◌+◌, ◌-◌, ◌%◌, ◌^◌, Bool, true, false, not, ◌||◌, Option, none, some, [], String, ℤ, pos,
  negsuc, ltb, if◌then◌else◌, Outcome, ok, panic, fatal, string_eq, eqb, Map, has, insert, delete,
  get_or,
}

-- `ch` and `done` are the network's.
pub record ClientEnd : Type 0 where
  pub endname : String

-- `done` says whether the channel is closed; `endCh` carries requests one by one.
pub record Network : Type 0 where
  pub reliable : Bool
  pub long_delays : Bool
  pub long_reordering : Bool
  pub ends : Map String ClientEnd
  pub enabled : Map String Bool
  pub servers : Map String (Option ℕ)
  pub connections : Map String (Option String)
  pub done : Bool
  pub count : ℕ
  pub bytes : ℕ

unfoldable pub make_network : Network
make_network = record {
  reliable = true;
  long_delays = false;
  long_reordering = false;
  ends = [];
  enabled = [];
  servers = [];
  connections = [];
  done = false;
  count = 0;
  bytes = 0;
}

-- Closing a channel twice panics.
unfoldable pub cleanup : Network → Outcome Network
cleanup rn = if rn.done then panic else ok (record rn { done = true })

unfoldable pub set_reliable : Bool → Network → Network
set_reliable on rn = record rn { reliable = on }

unfoldable pub is_reliable : Network → Bool
is_reliable rn = rn.reliable

unfoldable pub set_long_reordering : Bool → Network → Network
set_long_reordering on rn = record rn { long_reordering = on }

unfoldable pub set_long_delays : Bool → Network → Network
set_long_delays on rn = record rn { long_delays = on }

unfoldable pub is_long_delays : Network → Bool
is_long_delays rn = rn.long_delays

-- The five results of `readEndnameInfo`
pub record EndnameInfo : Type 0 where
  pub enabled : Bool
  pub servername : Option String
  pub server : Option ℕ
  pub reliable : Bool
  pub longreordering : Bool

unfoldable pub read_endname_info : String → Network → EndnameInfo
read_endname_info endname rn =
    let servername : Option String = get_or endname none rn.connections in
    record {
      enabled = get_or endname false rn.enabled;
      servername = servername;
      server = elim servername [ none ↦ none | some name ↦ get_or name none rn.servers ];
      reliable = rn.reliable;
      longreordering = rn.long_reordering;
    }

abbrev pub same_server : Option ℕ → Option ℕ → Bool
same_server none none = true
same_server (some p) (some q) = eqb p q
same_server _ _ = false

unfoldable pub is_server_dead : String → String → Option ℕ → Network → Bool
is_server_dead endname servername server rn =
    not (get_or endname false rn.enabled)
    || not (same_server (get_or servername none rn.servers) server)

unfoldable pub make_end : String → Network → Outcome (ClientEnd × Network)
make_end endname rn =
    let e : ClientEnd = record { endname = endname } in
    if has endname rn.ends
    then fatal
    else ok (
      e,
      record rn {
        ends = insert endname e rn.ends;
        enabled = insert endname false rn.enabled;
        connections = insert endname none rn.connections;
      },
    )

unfoldable pub delete_end : String → Network → Outcome Network
delete_end endname rn =
    if not (has endname rn.ends)
    then fatal
    else ok (record rn {
      ends = delete endname rn.ends;
      enabled = delete endname rn.enabled;
      connections = delete endname rn.connections;
    })

unfoldable pub add_server : String → Option ℕ → Network → Network
add_server servername rs rn = record rn { servers = insert servername rs rn.servers }

unfoldable pub delete_server : String → Network → Network
delete_server servername rn = record rn { servers = insert servername none rn.servers }

unfoldable pub connect : String → String → Network → Network
connect endname servername rn = record rn {
  connections = insert endname (some servername) rn.connections;
}

unfoldable pub enable : String → Bool → Network → Network
enable endname enabled rn = record rn { enabled = insert endname enabled rn.enabled }

-- The goroutine of the network takes a request: the counters are 32 and 64 bits wide.
unfoldable pub receive : ℕ → Network → Network
receive size rn = record rn { count = (rn.count + 1) % 2 ^ 32; bytes = (rn.bytes + size) % 2 ^ 64 }

unfoldable pub add_bytes : ℕ → Network → Network
add_bytes size rn = record rn { bytes = (rn.bytes + size) % 2 ^ 64 }

-- What the bits of a counter are as a signed integer
unfoldable pub signed : ℕ → ℕ → ℤ
signed width n = if ltb n (2 ^ (width - 1)) then pos n else negsuc (2 ^ width - 1 - n)

unfoldable pub get_total_count : Network → ℤ
get_total_count rn = signed 32 rn.count

unfoldable pub get_total_bytes : Network → ℤ
get_total_bytes rn = signed 64 rn.bytes
