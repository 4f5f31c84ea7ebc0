-- ===== src/Examples/Election.antt =====
-- A run of three peers in which peer 0 wins the election of term 1 with the vote of peer 1.
use pluggable_sharded_fault.Base.{
  ℕ, ◌≡◌, ◌≢◌, refl, true, false, some, [], pos, arith, ◌≤ℤ◌, ◌<ℤ◌, incr,
}
use pluggable_sharded_fault.Raft.Peer.{candidate, leader, Raft, make_raft, kill}
use pluggable_sharded_fault.Raft.Vote.{
  RequestVoteArgs, RequestVoteReply, empty_vote_reply, request_vote, start_election, on_vote_reply,
}
use pluggable_sharded_fault.Raft.Vote.Laws.{is_vote}
use pluggable_sharded_fault.Raft.System.{
  answered, finished, System, Step, campaign, request, reply, init, Reach, start, later, update,
  set_votes, set_rpc, send_all, Ahead, here, on, stop,
}
use pluggable_sharded_fault.Raft.System.Safety.{election_safety-Ahead}
use pluggable_sharded_fault.Raft.System.Terms.{Step-term, Step-vote, lone_peer_never_leads}

abbrev runs : Raft
runs = record {
  peers = 3;
  me = 0;
  dead = false;
  current_term = pos 1;
  voted_for = pos 0;
  log = [];
  state = candidate;
  last_heartbeat = some 400;
}

abbrev asks : RequestVoteArgs
asks = record { term = pos 1; candidate_id = pos 0; last_log_index = pos 0; last_log_term = pos 0 }

abbrev yes_vote : RequestVoteReply
yes_vote = record { term = pos 1; vote_granted = true }

campaigns : start_election 400 300 (make_raft 3 0 []) ≡ some (runs, asks)
unfolding start_election make_raft incr
campaigns = refl

in_term_0 : (make_raft 3 0 []).current_term <ℤ pos 9
unfolding make_raft
in_term_0 = ground arith

abbrev campaigned : System
campaigned = record (init 3) {
  peer = update (init 3).peer 0 runs;
  rpc = send_all 3 0 asks (init 3).rpc;
  votes = set_votes (init 3).votes 0 (pos 1) 1;
}

abbrev voted : System
voted = record campaigned {
  peer = update campaigned.peer 1 (request_vote 410 asks (campaigned.peer 1) empty_vote_reply).0;
  rpc =
      set_rpc campaigned.rpc 0 (pos 1) 1
        (answered asks (request_vote 410 asks (campaigned.peer 1) empty_vote_reply).1);
}

abbrev pub won : System
won = record voted {
  peer = update voted.peer 0 (on_vote_reply asks yes_vote 1 (voted.peer 0)).0;
  rpc = set_rpc voted.rpc 0 (pos 1) 1 (finished (is_vote asks yes_vote (voted.peer 0)));
  votes = set_votes voted.votes 0 (pos 1) (on_vote_reply asks yes_vote 1 (voted.peer 0)).1;
}

Reach-campaigned : Reach 3 campaigned
unfolding make_raft
Reach-campaigned = later start (campaign 0 400 300 (omega arith) (ground arith) campaigns)

Reach-voted : Reach 3 voted
Reach-voted = later Reach-campaigned (request 0 1 410 (pos 1) refl)

answer_is_yes : voted.rpc 0 (pos 1) 1 ≡ answered asks yes_vote
unfolding request_vote make_raft
answer_is_yes = refl

Step-won : Step 3 voted won
Step-won = reply 0 1 (pos 1) answer_is_yes

pub Reach-won : Reach 3 won
Reach-won = later Reach-voted Step-won

leads : (won.peer 0).state ≡ leader
unfolding on_vote_reply request_vote make_raft
leads = refl

abbrev winner : ℕ
winner = 0

-- The system after peer 1 was stopped
abbrev pub thinned : System
thinned = record won { peer = update won.peer 1 (kill (won.peer 1)) }

pub Ahead-thinned : Ahead 3 won thinned
Ahead-thinned = on here (stop 1)

still_leads : (thinned.peer 0).state ≡ leader
unfolding on_vote_reply request_vote make_raft
still_leads = refl

election_safety-Ahead_example : winner ≡ winner
election_safety-Ahead_example =
    election_safety-Ahead winner winner Reach-won Ahead-thinned leads still_leads refl

Step-term_example : (voted.peer 0).current_term ≤ℤ (won.peer 0).current_term
Step-term_example = Step-term Reach-voted Step-won 0

same_term : (won.peer 0).current_term ≡ (voted.peer 0).current_term
unfolding on_vote_reply request_vote make_raft
same_term = refl

Step-vote_example : (won.peer 0).voted_for ≡ (voted.peer 0).voted_for
Step-vote_example = Step-vote Reach-voted Step-won 0 same_term (ground arith)

abbrev alone : Raft
alone = record runs { peers = 1 }

campaigns_alone : start_election 400 300 (make_raft 1 0 []) ≡ some (alone, asks)
unfolding start_election make_raft incr
campaigns_alone = refl

abbrev campaigned_alone : System
campaigned_alone = record (init 1) {
  peer = update (init 1).peer 0 alone;
  rpc = send_all 1 0 asks (init 1).rpc;
  votes = set_votes (init 1).votes 0 (pos 1) 1;
}

Reach-campaigned_alone : Reach 1 campaigned_alone
unfolding make_raft
Reach-campaigned_alone =
    later start (campaign 0 400 300 (omega arith) (ground arith) campaigns_alone)

lone_peer_never_leads_example : (campaigned_alone.peer 0).state ≢ leader
lone_peer_never_leads_example = lone_peer_never_leads Reach-campaigned_alone 0
