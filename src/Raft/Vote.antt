-- ===== src/Raft/Vote.antt =====
-- Elections: the start of one in `ticker`, the handler `RequestVote`, and what the candidate does
-- with a reply.
pub mod Laws
use pluggable_sharded_fault.Base.{
  ℕ, ◌+◌, ◌/◌, Bool, true, false, not, ◌&&◌, Option, none, some, ℤ, pos, minus_one, ltb, ltb_ℤ,
  eqb_ℤ, incr, if◌then◌else◌,
}
use pluggable_sharded_fault.Raft.Peer.{
  State, follower, candidate, leader, is_leader, is_candidate, Raft,
}

pub record RequestVoteArgs : Type 0 where
  pub term : ℤ
  pub candidate_id : ℤ
  pub last_log_index : ℤ
  pub last_log_term : ℤ

pub record RequestVoteReply : Type 0 where
  pub term : ℤ
  pub vote_granted : Bool

-- The reply that the server side of an RPC hands to the handler.
abbrev pub empty_vote_reply : RequestVoteReply
empty_vote_reply = record { term = pos 0; vote_granted = false }

-- The second test of `RequestVote`: step down into a newer term.
unfoldable pub adopt_term : ℤ → Raft → Raft
adopt_term term rf =
    if ltb_ℤ rf.current_term term
    then record rf { state = follower; current_term = term; voted_for = minus_one }
    else rf

unfoldable pub decide_vote : ℕ → RequestVoteArgs → Raft → RequestVoteReply → Raft × RequestVoteReply
decide_vote now args rf reply =
    if not (eqb_ℤ rf.voted_for minus_one) && not (eqb_ℤ rf.voted_for args.candidate_id)
    then (rf, record reply { vote_granted = false })
    else (
      record rf { voted_for = args.candidate_id; last_heartbeat = some now },
      record reply { vote_granted = true; term = rf.current_term },
    )

unfoldable pub request_vote :
    ℕ → RequestVoteArgs → Raft → RequestVoteReply → Raft × RequestVoteReply
unfolding adopt_term decide_vote
request_vote now args rf reply =
    if ltb_ℤ args.term rf.current_term
    then (rf, record reply { vote_granted = false })
    else decide_vote now args (adopt_term args.term rf) reply

-- `time.Since(rf.lastHeartbeat) > timeoutDuration`
unfoldable pub timed_out : ℕ → ℕ → Option ℕ → Bool
timed_out now timeout none = true
timed_out now timeout (some last) = ltb (last + timeout) now

-- The election that `ticker` starts: the new state, and the arguments of its RPCs.
unfoldable pub start_election : ℕ → ℕ → Raft → Option (Raft × RequestVoteArgs)
unfolding timed_out
start_election now timeout rf =
    let term = incr rf.current_term in
    if not (is_leader rf.state) && timed_out now timeout rf.last_heartbeat
    then some (
      record rf {
        state = candidate;
        current_term = term;
        voted_for = pos rf.me;
        last_heartbeat = some now;
      },
      record {
        term = term;
        candidate_id = pos rf.me;
        last_log_index = pos 0;
        last_log_term = pos 0;
      },
    )
    else none

-- A majority makes a candidate the leader.
unfoldable pub count_vote : ℕ → Raft → Raft
count_vote votes rf =
    if is_candidate rf.state && ltb (rf.peers / 2) votes then record rf { state = leader } else rf

-- The goroutine of one RPC, once `Call` has returned true. `votes` is `votesReceived`.
unfoldable pub on_vote_reply : RequestVoteArgs → RequestVoteReply → ℕ → Raft → Raft × ℕ
unfolding count_vote
on_vote_reply args reply votes rf =
    if not (eqb_ℤ rf.current_term args.term)
    then (rf, votes)
    else if ltb_ℤ rf.current_term reply.term
    then (record rf { current_term = reply.term; state = follower; voted_for = minus_one }, votes)
    else if reply.vote_granted
    then (count_vote (votes + 1) rf, votes + 1)
    else (rf, votes)
