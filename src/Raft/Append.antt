-- ===== src/Raft/Append.antt =====
-- Heartbeats: the arguments that a leader sends, the handler `AppendEntries`, and what the leader
-- does with a reply.
pub mod Laws
use pluggable_sharded_fault.Base.{
  ℕ, Bool, true, false, not, ◌||◌, Option, none, some, List, [], ℤ, pos, negsuc, minus_one, ltb_ℤ,
  eqb_ℤ, if◌then◌else◌, Outcome, ok, panic, get_elem?,
}
use pluggable_sharded_fault.Raft.Peer.{State, follower, leader, is_leader, LogEntry, Raft}

-- An entry is a pointer, `none` when it is nil.
pub record AppendEntriesArgs : Type 0 where
  pub term : ℤ
  pub leader_id : ℤ
  pub prev_log_index : ℤ
  pub prev_log_term : ℤ
  pub entries : List (Option LogEntry)
  pub leader_commit : ℤ

pub record AppendEntriesReply : Type 0 where
  pub term : ℤ
  pub success : Bool

abbrev pub empty_append_reply : AppendEntriesReply
empty_append_reply = record { term = pos 0; success = false }

-- `args.Entries[args.PrevLogIndex].EntryTerm`: an index out of range or a nil pointer panics.
unfoldable pub entry_term_at : List (Option LogEntry) → ℤ → Outcome ℤ
entry_term_at entries (negsuc n) = panic
entry_term_at entries (pos i) = elim (get_elem? entries i) [
  | none ↦ panic
  | some none ↦ panic
  | some (some e) ↦ ok e.entry_term
]

refuse : Raft → AppendEntriesReply → Raft × AppendEntriesReply
refuse rf reply = (rf, record reply { success = false; term = rf.current_term })

accept : ℕ → AppendEntriesArgs → Raft → AppendEntriesReply → Raft × AppendEntriesReply
accept now args rf reply = (
  record rf {
    current_term = args.term;
    state = follower;
    voted_for = minus_one;
    last_heartbeat = some now;
  },
  record reply { success = true; term = args.term },
)

-- The second operand of `||` is read only if the first is false.
unfoldable pub append_entries :
    ℕ → AppendEntriesArgs → Raft → AppendEntriesReply → Outcome (Raft × AppendEntriesReply)
unfolding entry_term_at refuse accept
append_entries now args rf reply =
    if ltb_ℤ reply.term rf.current_term
    then ok (refuse rf reply)
    else elim (entry_term_at args.entries args.prev_log_index) [
      | ok term ↦
          ok (if not (eqb_ℤ term reply.term) then refuse rf reply else accept now args rf reply)
      | _ ↦ panic
    ]

-- The goroutine of one heartbeat, up to its RPC.
unfoldable pub heartbeat_args : Raft → Option AppendEntriesArgs
heartbeat_args rf =
    if not (is_leader rf.state)
    then none
    else some (record {
      term = rf.current_term;
      leader_id = pos rf.me;
      prev_log_index = pos 0;
      prev_log_term = pos 0;
      entries = [];
      leader_commit = pos 0;
    })

-- The same goroutine, once `Call` has returned true.
unfoldable pub on_heartbeat_reply : AppendEntriesReply → Raft → Raft
on_heartbeat_reply reply rf =
    if ltb_ℤ rf.current_term reply.term
    then record rf { current_term = reply.term; state = follower; voted_for = minus_one }
    else rf
