-- ===== src/Examples/Votes.antt =====
-- Votes and heartbeats of single peers.
use pluggable_sharded_fault.Base.{
  ℕ, ◌≡◌, ◌≢◌, ◌⊎◌, ◌↔◌, refl, true, false, none, some, [], pos, minus_one, arith, ◌≤ℤ◌, ◌<ℤ◌, ok,
  panic,
}
use pluggable_sharded_fault.Raft.Peer.{follower, leader, Raft, make_raft}
use pluggable_sharded_fault.Raft.Vote.{RequestVoteArgs, empty_vote_reply, request_vote}
use pluggable_sharded_fault.Raft.Vote.Laws.{
  vote_granted_iff, request_vote-keeps, restart_votes_again, refusal_hides_term,
}
use pluggable_sharded_fault.Raft.Append.{
  AppendEntriesArgs, empty_append_reply, append_entries, heartbeat_args,
}
use pluggable_sharded_fault.Raft.Append.Laws.{heartbeat_ignored}

abbrev fresh : Raft
fresh = record {
  peers = 3;
  me = 1;
  dead = false;
  current_term = pos 0;
  voted_for = minus_one;
  log = [];
  state = follower;
  last_heartbeat = none;
}

abbrev in_term_2 : Raft
in_term_2 = record fresh { current_term = pos 2; voted_for = pos 0 }

abbrev ask : ℕ → ℕ → RequestVoteArgs
ask t c = record {
  term = pos t;
  candidate_id = pos c;
  last_log_index = pos 0;
  last_log_term = pos 0;
}

vote_granted_iff_example :
    ((request_vote 5 (ask 1 2) fresh empty_vote_reply).1.vote_granted ≡ true)
    ↔ ((pos 0 <ℤ pos 1) ⊎ ((pos 1 ≡ pos 0) × ((minus_one ≡ minus_one) ⊎ (minus_one ≡ pos 2))))
vote_granted_iff_example = vote_granted_iff 5 (ask 1 2) fresh empty_vote_reply

request_vote-keeps_example :
    let after = (request_vote 5 (ask 3 2) in_term_2 empty_vote_reply).0 in
    (pos 2 ≤ℤ after.current_term)
    × (after.current_term ≡ pos 2 → pos 0 ≢ minus_one → after.voted_for ≡ pos 0)
request_vote-keeps_example = request_vote-keeps 5 (ask 3 2) in_term_2 empty_vote_reply

refused : (request_vote 5 (ask 1 2) in_term_2 empty_vote_reply).1.vote_granted ≡ false
unfolding request_vote
refused = refl

refusal_hides_term_example : (request_vote 5 (ask 1 2) in_term_2 empty_vote_reply).1.term ≡ pos 0
refusal_hides_term_example = refusal_hides_term 5 (ask 1 2) in_term_2 empty_vote_reply refused

granted : (request_vote 5 (ask 1 2) fresh empty_vote_reply).1.vote_granted ≡ true
unfolding request_vote
granted = refl

granted_again :
    (request_vote 6
      (ask 1 2)
      (request_vote 5 (ask 1 2) fresh empty_vote_reply).0
      empty_vote_reply).1.vote_granted
    ≡ true
unfolding request_vote
granted_again = refl

restart_votes_again_example :
    (request_vote 9 (ask 2 2) (make_raft 3 1 []) empty_vote_reply).1.vote_granted ≡ true
restart_votes_again_example = restart_votes_again in_term_2 [] 9 (ask 2 2) (ground arith)

abbrev leads : Raft
leads = record fresh { me = 0; current_term = pos 2; voted_for = pos 0; state = leader }

abbrev beat : AppendEntriesArgs
beat = record {
  term = pos 2;
  leader_id = pos 0;
  prev_log_index = pos 0;
  prev_log_term = pos 0;
  entries = [];
  leader_commit = pos 0;
}

beat_of_leader : heartbeat_args leads ≡ some beat
unfolding heartbeat_args
beat_of_leader = refl

heartbeat_ignored_example :
    ((pos 0 <ℤ pos 2)
      × (append_entries 7 beat in_term_2 empty_append_reply
          ≡ ok (in_term_2, record { term = pos 2; success = false })))
    ⊎ ((pos 2 ≡ pos 0) × (append_entries 7 beat in_term_2 empty_append_reply ≡ panic))
heartbeat_ignored_example = heartbeat_ignored 7 leads beat in_term_2 beat_of_leader (ground arith)
