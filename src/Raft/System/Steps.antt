-- ===== src/Raft/System/Steps.antt =====
-- How each handler moves a peer on, in the sense of the invariant.
pub mod Election
pub mod Request
pub mod Reply
pub mod Rest
use mathlib.Core.Path.{subst}
use pluggable_sharded_fault.Base.{
  ℕ, ◌≡◌, ◌≢◌, ◌⊎◌, inl, inr, refl, ap, sym, ◌∙◌, Bool, true, false, Option, none, some, ℤ, pos,
  minus_one, arith, ◌<ℤ◌, ◌≤ℤ◌, max_int, incr, incr_parts, eq_of_parts, eqb_ℤ_iff, if◌then◌else◌,
  Bool-cases,
}
use pluggable_sharded_fault.Raft.Peer.{State, follower, candidate, leader, Raft, kill}
use pluggable_sharded_fault.Raft.Vote.{
  RequestVoteArgs, RequestVoteReply, empty_vote_reply, request_vote, start_election, on_vote_reply,
}
use pluggable_sharded_fault.Raft.Vote.Laws.{
  start_election_lem, vote_granted_iff, vote_granted_after, refusal_keeps, request_vote-keeps,
  request_vote-plain, on_vote_reply-moves,
}
use pluggable_sharded_fault.Raft.Append.{AppendEntriesReply, on_heartbeat_reply}
use pluggable_sharded_fault.Raft.System.Ballots.{
  Ballots, vote_id, cast, Extends, cast_self, cast_ne_peer, cast_ne_term, cast-Extends,
}
use pluggable_sharded_fault.Raft.System.Invariant.{Advance}

module _ (i : ℕ) (p : Raft) (b : Ballots) (unborn : (t : ℤ) → p.current_term <ℤ t → b i t ≡ none)
    (vote : p.voted_for ≡ vote_id (b i p.current_term)) where
  -- The peer keeps its term and vote, or enters a newer term without a vote.
  pub Advance-plain :
      (q : Raft)
      → q.me ≡ p.me
      → q.peers ≡ p.peers
      → ((q.current_term ≡ p.current_term) × (q.voted_for ≡ p.voted_for))
        ⊎ ((p.current_term <ℤ q.current_term) × (q.voted_for ≡ minus_one))
      → Advance i p q b b
  Advance-plain q m n moved = record {
    me = m;
    peers = n;
    later = ground arith;
    extends = λ j t c h. h;
    others = λ j t h. refl;
    beyond = λ t h. refl;
    vote = ground (arith, vote, unborn q.current_term);
  }

  pub Advance-cast :
      (q : Raft) (c : ℕ)
      → q.me ≡ p.me
      → q.peers ≡ p.peers
      → p.current_term ≤ℤ q.current_term
      → q.voted_for ≡ pos c
      → (b i q.current_term ≡ none) ⊎ (b i q.current_term ≡ some c)
      → Advance i p q b (cast b i q.current_term c)
  Advance-cast q c m n later voted free = record {
    me = m;
    peers = n;
    later = later;
    extends = cast-Extends b i q.current_term c free;
    others = λ j t h. cast_ne_peer b i j q.current_term t c (λ e. h (ground arith));
    beyond = λ t h. cast_ne_term b i i q.current_term t c (λ e. absurd (ground arith));
    vote = ground (arith, cast_self b i q.current_term c);
  }

  Advance-granted :
      (now c : ℕ) (args : RequestVoteArgs) (r : RequestVoteReply)
      → args.candidate_id ≡ pos c
      → (request_vote now args p r).1.vote_granted ≡ true
      → Advance i p (request_vote now args p r).0 b (cast b i args.term c)
  Advance-granted now c args r named yes_vote =
      let (in_term, votes_for, _) = vote_granted_after now args p r yes_vote in
      let (m, n) = request_vote-plain now args p r in
      subst (λ t. Advance i p (request_vote now args p r).0 b (cast b i t c)) in_term
        (Advance-cast (request_vote now args p r).0 c m n (request_vote-keeps now args p r).0
          (ground (arith, votes_for, named))
          (ground
            (arith, (vote_granted_iff now args p r).0, in_term, named, unborn args.term, vote)))

  -- After a request the ballots hold the vote, if it was granted.
  pub Advance-request :
      (now c : ℕ) (args : RequestVoteArgs) (r : RequestVoteReply)
      → args.candidate_id ≡ pos c
      → Advance i p
          (request_vote now args p r).0
          b
          (if (request_vote now args p r).1.vote_granted then cast b i args.term c else b)
  Advance-request now c args r named =
      elim (Bool-cases (request_vote now args p r).1.vote_granted) [
        | inl yes_vote ↦ rw yes_vote (Advance-granted now c args r named yes_vote)
        | inr no_vote ↦
            rw (no_vote, refusal_keeps now args p r no_vote)
              (Advance-plain p refl refl (inl (refl, refl)))
      ]

  pub Advance-reply :
      (args : RequestVoteArgs) (r : RequestVoteReply) (votes : ℕ)
      → Advance i p (on_vote_reply args r votes p).0 b b
  Advance-reply args r votes =
      let (moved, m, n) = on_vote_reply-moves args r votes p in
      Advance-plain (on_vote_reply args r votes p).0 m n moved

  pub Advance-beat : (answer : AppendEntriesReply) → Advance i p (on_heartbeat_reply answer p) b b
  unfolding on_heartbeat_reply
  Advance-beat answer =
      Advance-plain (on_heartbeat_reply answer p) (ground arith) (ground arith) (ground arith)

  pub Advance-kill : Advance i p (kill p) b b
  unfolding kill
  Advance-kill = Advance-plain (kill p) refl refl (inl (refl, refl))

  -- The start of an election is a vote for oneself in a new term.
  pub Advance-election :
      (now timeout : ℕ) (q : Raft) (args : RequestVoteArgs)
      → p.me ≡ i
      → p.current_term <ℤ max_int
      → start_election now timeout p ≡ some (q, args)
      → Advance i p q b (cast b i args.term i)
  Advance-election now timeout q args me small started =
      let (_, _, term, voted, m, n, asked, _) = start_election_lem now timeout p q args started in
      let newer : p.current_term <ℤ q.current_term =
        ground (arith, term, incr_parts p.current_term) in
      subst (λ t. Advance i p q b (cast b i t i)) (term ∙ sym asked)
        (Advance-cast q i m n (omega (arith, newer)) (voted ∙ ap pos me)
          (inl (unborn q.current_term newer)))
