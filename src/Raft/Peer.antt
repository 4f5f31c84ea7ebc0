-- ===== src/Raft/Peer.antt =====
-- The state of one peer, and the methods that only read or reset it.
use pluggable_sharded_fault.Base.{ℕ, Bool, true, false, Option, none, List, [], ℤ, pos, minus_one}

pub data State : Type 0 where
  follower candidate leader : State

abbrev pub is_leader : State → Bool
is_leader leader = true
is_leader _ = false

abbrev pub is_candidate : State → Bool
is_candidate candidate = true
is_candidate _ = false

-- `Command` is opaque to Raft: a number stands for it.
pub record LogEntry : Type 0 where
  pub command : ℕ
  pub entry_term : ℤ

-- `peers` keeps only its length. `last_heartbeat` is `none` for the zero time, which lies before
-- any timeout. The mutex is not kept: each critical section of the code is one function.
pub record Raft : Type 0 where
  pub peers : ℕ
  pub me : ℕ
  pub dead : Bool
  pub current_term : ℤ
  pub voted_for : ℤ
  pub log : List LogEntry
  pub state : State
  pub last_heartbeat : Option ℕ

-- `readPersist` and `persist` do nothing yet: what was saved is not read.
unfoldable pub read_persist : List ℕ → Raft → Raft
read_persist bytes rf = rf

unfoldable pub persist : Raft → Raft
persist rf = rf

-- `Make`, before its goroutine runs.
unfoldable pub make_raft : ℕ → ℕ → List ℕ → Raft
unfolding read_persist
make_raft peers me saved = read_persist saved (record {
  peers = peers;
  me = me;
  dead = false;
  current_term = pos 0;
  voted_for = minus_one;
  log = [];
  state = follower;
  last_heartbeat = none;
})

unfoldable pub get_state : Raft → ℤ × Bool
get_state rf = (rf.current_term, is_leader rf.state)

unfoldable pub kill : Raft → Raft
kill rf = record rf { dead = true }

unfoldable pub killed : Raft → Bool
killed rf = rf.dead

-- `Start` is not written yet: index, term and `isLeader`.
unfoldable pub start : ℕ → Raft → ℤ × ℤ × Bool
start command rf = (minus_one, minus_one, true)

-- `Snapshot` is not written yet.
unfoldable pub snapshot : ℤ → List ℕ → Raft → Raft
snapshot index bytes rf = rf
