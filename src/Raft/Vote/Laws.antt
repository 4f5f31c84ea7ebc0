-- ===== src/Raft/Vote/Laws.antt =====
-- What a voter and a candidate do, on every branch.
use pluggable_sharded_fault.Base.{
  ℕ, ◌+◌, ◌/◌, ◌<◌, ◌≡◌, ◌≢◌, ◌⊎◌, ◌↔◌, Bool, true, false, not, ◌&&◌, some, List, pos, minus_one,
  arith, ◌≤ℤ◌, ◌<ℤ◌, incr, eqb_ℤ, ltb_ℤ, eqb_ℤ_iff, eq_of_parts, if◌then◌else◌,
}
use pluggable_sharded_fault.Raft.Peer.{candidate, leader, Raft, make_raft}
use pluggable_sharded_fault.Raft.Vote.{
  RequestVoteArgs, RequestVoteReply, empty_vote_reply, request_vote, start_election, on_vote_reply,
}

module _ (now : ℕ) (args : RequestVoteArgs) (rf : Raft) (reply : RequestVoteReply) where
  abbrev after : Raft
  after = (request_vote now args rf reply).0

  abbrev answer : RequestVoteReply
  answer = (request_vote now args rf reply).1

  -- A vote is granted exactly to a candidate whose term is not behind, and that either brings a newer
  -- term or meets a voter with no other vote in this one.
  pub vote_granted_iff : (answer.vote_granted ≡ true) ↔ (
      (rf.current_term <ℤ args.term)
      ⊎ ((args.term ≡ rf.current_term)
          × ((rf.voted_for ≡ minus_one) ⊎ (rf.voted_for ≡ args.candidate_id))))
  unfolding request_vote
  vote_granted_iff = (
    λ h. ground (
      arith,
      eq_of_parts args.term rf.current_term,
      eq_of_parts rf.voted_for minus_one,
      eq_of_parts rf.voted_for args.candidate_id,
    ),
    λ h. ground arith,
  )

  -- After a vote is granted the voter is in the candidate's term, holds a vote for it, and says so.
  pub vote_granted_after :
      answer.vote_granted ≡ true
      → (after.current_term ≡ args.term)
        × (after.voted_for ≡ args.candidate_id)
        × (answer.term ≡ args.term)
  unfolding request_vote
  vote_granted_after h = ground (arith, eq_of_parts rf.current_term args.term)

  -- A refusal leaves the term of the reply as it came.
  pub refusal_hides_term : answer.vote_granted ≡ false → answer.term ≡ reply.term
  unfolding request_vote
  refusal_hides_term h = ground arith

  -- The voter's term never falls, and in the same term a vote that was cast stays.
  pub request_vote-keeps :
      (rf.current_term ≤ℤ after.current_term)
      × (after.current_term ≡ rf.current_term
          → rf.voted_for ≢ minus_one
          → after.voted_for ≡ rf.voted_for)
  unfolding request_vote
  request_vote-keeps = ground (
    arith,
    eqb_ℤ_iff rf.voted_for minus_one,
    eqb_ℤ_iff rf.voted_for args.candidate_id,
    eqb_ℤ_iff args.term rf.current_term,
  )

  pub request_vote-plain : (after.me ≡ rf.me) × (after.peers ≡ rf.peers)
  unfolding request_vote
  request_vote-plain = (ground arith, ground arith)

  -- No handler of a request makes a leader.
  pub request_vote-leader :
      after.state ≡ leader → (rf.state ≡ leader) × (after.current_term ≡ rf.current_term)
  unfolding request_vote
  request_vote-leader h = ground arith

  -- A refusal leaves the peer as it was.
  pub refusal_keeps : answer.vote_granted ≡ false → after ≡ rf
  unfolding request_vote
  refusal_keeps h = ground arith

-- Of two candidates of one term that ask a peer in turn, both cannot be granted its vote unless
-- they are the same one.
pub request_vote-once :
    (rf : Raft) (now later : ℕ) (a b : RequestVoteArgs) (r q : RequestVoteReply)
    → a.candidate_id ≢ minus_one
    → a.term ≡ b.term
    → (request_vote now a rf r).1.vote_granted ≡ true
    → (request_vote later b (request_vote now a rf r).0 q).1.vote_granted ≡ true
    → a.candidate_id ≡ b.candidate_id
request_vote-once rf now later a b r q ne same first second = ground (
  arith,
  vote_granted_after now a rf r,
  (vote_granted_iff later b (request_vote now a rf r).0 q).0,
)

-- Nothing is persisted: whatever vote a peer has cast, after a restart it grants its vote in any
-- term from 0 on, also in one in which it has voted.
pub restart_votes_again :
    (rf : Raft) (saved : List ℕ) (now : ℕ) (args : RequestVoteArgs)
    → pos 0 ≤ℤ args.term
    → (request_vote now args (make_raft rf.peers rf.me saved) empty_vote_reply).1.vote_granted
      ≡ true
unfolding request_vote make_raft
restart_votes_again rf saved now args h = ground arith

module _ (now timeout : ℕ) (rf r : Raft) (args : RequestVoteArgs)
    (started : start_election now timeout rf ≡ some (r, args)) where
  -- An election is started by a peer that is no leader; it votes for itself in the next term, and
  -- asks for votes in that term.
  pub start_election_lem :
      (rf.state ≢ leader)
      × (r.state ≡ candidate)
      × (r.current_term ≡ incr rf.current_term)
      × (r.voted_for ≡ pos rf.me)
      × (r.me ≡ rf.me)
      × (r.peers ≡ rf.peers)
      × (args.term ≡ incr rf.current_term)
      × (args.candidate_id ≡ pos rf.me)
  unfolding start_election
  start_election_lem = ground arith

-- The reply to a vote either leaves the term and the vote, or takes up a newer term without a vote.
pub on_vote_reply-moves :
    (args : RequestVoteArgs) (reply : RequestVoteReply) (votes : ℕ) (rf : Raft)
    → ((((on_vote_reply args reply votes rf).0.current_term ≡ rf.current_term)
          × ((on_vote_reply args reply votes rf).0.voted_for ≡ rf.voted_for))
        ⊎ ((rf.current_term <ℤ (on_vote_reply args reply votes rf).0.current_term)
            × ((on_vote_reply args reply votes rf).0.voted_for ≡ minus_one)))
      × ((on_vote_reply args reply votes rf).0.me ≡ rf.me)
      × ((on_vote_reply args reply votes rf).0.peers ≡ rf.peers)
unfolding on_vote_reply
on_vote_reply-moves args reply votes rf = (ground arith, ground arith, ground arith)

-- A leader after a reply was one before, or has just got its majority, in the term of the election.
pub on_vote_reply-leader :
    (args : RequestVoteArgs) (reply : RequestVoteReply) (votes : ℕ) (rf : Raft)
    → (on_vote_reply args reply votes rf).0.state ≡ leader
    → ((on_vote_reply args reply votes rf).0.current_term ≡ rf.current_term)
      × ((rf.state ≡ leader)
          ⊎ ((rf.current_term ≡ args.term)
              × (rf.peers / 2 < (on_vote_reply args reply votes rf).1)))
unfolding on_vote_reply
on_vote_reply-leader args reply votes rf h =
    (ground arith, ground (arith, eqb_ℤ_iff rf.current_term args.term))

-- Whether the goroutine counts the reply as a vote.
abbrev pub is_vote : RequestVoteArgs → RequestVoteReply → Raft → Bool
is_vote args reply rf =
    eqb_ℤ rf.current_term args.term && not (ltb_ℤ rf.current_term reply.term) && reply.vote_granted

-- The counter goes up by one exactly for a vote granted in the term that the candidate is still in.
pub on_vote_reply-votes :
    (args : RequestVoteArgs) (reply : RequestVoteReply) (votes : ℕ) (rf : Raft)
    → (on_vote_reply args reply votes rf).1 ≡ (if is_vote args reply rf then votes + 1 else votes)
unfolding on_vote_reply
on_vote_reply-votes args reply votes rf = ground arith
