-- ===== src/Raft/Append/Laws.antt =====
-- What becomes of the heartbeats, which carry no entries, and of their replies.
use pluggable_sharded_fault.Base.{
  ℕ, ◌≡◌, ◌⊎◌, false, some, [], pos, arith, ◌<ℤ◌, ◌≤ℤ◌, ok, panic, eq_of_parts,
}
use pluggable_sharded_fault.Raft.Peer.{Raft}
use pluggable_sharded_fault.Raft.Append.{
  AppendEntriesArgs, AppendEntriesReply, empty_append_reply, append_entries, heartbeat_args,
}

-- A heartbeat, which has no entries, is refused by a peer whose term is past 0, with nothing of the
-- peer changed, its timer included; at a peer in term 0 it panics.
pub heartbeat_ignored :
    (now : ℕ) (l : Raft) (args : AppendEntriesArgs) (rf : Raft)
    → heartbeat_args l ≡ some args
    → pos 0 ≤ℤ rf.current_term
    → ((pos 0 <ℤ rf.current_term)
        × (append_entries now args rf empty_append_reply
            ≡ ok (rf, record { term = rf.current_term; success = false })))
      ⊎ ((rf.current_term ≡ pos 0) × (append_entries now args rf empty_append_reply ≡ panic))
unfolding append_entries heartbeat_args
heartbeat_ignored now l args rf sent h = ground (arith, eq_of_parts rf.current_term (pos 0))

pub entries-heartbeat_args :
    (l : Raft) (args : AppendEntriesArgs) → heartbeat_args l ≡ some args → args.entries ≡ []
unfolding heartbeat_args
entries-heartbeat_args l args sent = ground arith

-- Without entries the handler returns only by its refusal.
pub append_entries-empty :
    (now : ℕ) (args : AppendEntriesArgs) (rf r : Raft) (q answer : AppendEntriesReply)
    → args.entries ≡ []
    → append_entries now args rf q ≡ ok (r, answer)
    → (r ≡ rf) × (answer.term ≡ rf.current_term)
unfolding append_entries
append_entries-empty now args rf r q answer e h = ground arith
