-- ===== src/Raft/System/Steps/Reply.antt =====
-- The reply to a request for a vote, and a request or reply that is lost.
use pluggable_sharded_fault.Base.{
  total, total-le, total-lt, ℕ, ◌+◌, ◌≤◌, ◌≡◌, ◌≢◌, Bool, true, false, ◌&&◌, ℤ, arith, eqb, eqb_ℤ,
  eqb_ℤ_iff, Bool-cases, inl, inr,
}
use pluggable_sharded_fault.Raft.Peer.{Raft}
use pluggable_sharded_fault.Raft.Vote.{RequestVoteArgs, RequestVoteReply, on_vote_reply}
use pluggable_sharded_fault.Raft.Vote.Laws.{is_vote, on_vote_reply-votes, on_vote_reply-leader}
use pluggable_sharded_fault.Raft.System.{
  Rpc, idle, answered, finished, System, update, set_rpc, set_votes,
}
use pluggable_sharded_fault.Raft.System.Ballots.{Ballots}
use pluggable_sharded_fault.Raft.System.Invariant.{
  is_counted, VotesAgree, Inv, Advance, Advance-PeersAgree,
}
use pluggable_sharded_fault.Raft.System.Steps.{Advance-reply}
use pluggable_sharded_fault.Raft.System.Steps.Request.{set_rpc-RpcsAgree}

module _ {n : ℕ} {s : System} {b : Ballots} (inv : Inv n s b) where
  open inv use {agree, calls, counts}

  module _ (c v : ℕ) (t : ℤ) {args : RequestVoteArgs} {q : RequestVoteReply}
      (call : s.rpc c t v ≡ answered args q) where
    abbrev vote : Bool
    vote = is_vote args q (s.peer c)

    abbrev heard : Raft × ℕ
    heard = on_vote_reply args q (s.votes c t) (s.peer c)

    abbrev rpcs : ℕ → ℤ → ℕ → Rpc
    rpcs = set_rpc s.rpc c t v (finished vote)

    moved : Advance c (s.peer c) heard.0 b b
    moved = Advance-reply c (s.peer c) b (agree.unborn c) (agree.vote c) args q (s.votes c t)

    busy : s.rpc c t v ≢ idle
    busy e = cc

    kept :
        (d : ℕ) (u : ℤ) (w : ℕ) → is_counted (s.rpc d u w) ≡ true → is_counted (rpcs d u w) ≡ true
    kept d u w h = ground (arith, eqb_ℤ_iff t u)

    -- The counter and the RPC that it counts go up together.
    tally :
        s.votes c t ≤ 1 + total (λ w. is_counted (s.rpc c t w)) n
        → heard.1 ≤ 1 + total (λ w. is_counted (rpcs c t w)) n
    tally before = elim (Bool-cases vote) [
      | inl yes_vote ↦ omega (
        arith,
        before,
        one_more yes_vote,
        total-lt (λ w. is_counted (s.rpc c t w)) (λ w. is_counted (rpcs c t w)) n v
            (calls.started c v t busy).1 (kept c t) (ground arith) (ground (arith, eqb_ℤ_iff t t)),
      )
      | inr no_vote ↦ omega (
        arith,
        before,
        no_more no_vote,
        total-le (λ w. is_counted (s.rpc c t w)) (λ w. is_counted (rpcs c t w)) n (kept c t),
      )
    ]
      where
        one_more : vote ≡ true → heard.1 ≡ s.votes c t + 1
        one_more e = ground (arith, on_vote_reply-votes args q (s.votes c t) (s.peer c), e)

        no_more : vote ≡ false → heard.1 ≡ s.votes c t
        no_more e = ground (arith, on_vote_reply-votes args q (s.votes c t) (s.peer c), e)

    grows : s.votes c t ≤ heard.1
    grows = ground (arith, on_vote_reply-votes args q (s.votes c t) (s.peer c))

    unchanged :
        (d : ℕ) (u : ℤ)
        → (eqb c d && eqb_ℤ t u) ≡ false
        → set_votes s.votes c t heard.1 d u ≡ s.votes d u
    unchanged d u e = rw e

    reply-VotesAgree :
        VotesAgree n
          (record s {
            peer = update s.peer c heard.0;
            rpc = rpcs;
            votes = set_votes s.votes c t heard.1;
          })
          b
    reply-VotesAgree = record {
      future = λ d u h.
          let before : (s.votes d u ≡ 0) × ((w : ℕ) → s.rpc d u w ≡ idle) =
            counts.future d u (ground (arith, moved.later)) in
          (
            ground (arith, before.0, before.1 v, eqb_ℤ_iff t u),
            λ w. ground (arith, before.1 w, before.1 v, eqb_ℤ_iff t u),
          );
      own = λ d u h. ground (arith, eqb_ℤ_iff t u, counts.own d u, calls.started c v t busy);
      tally = λ d u. elim (Bool-cases (eqb c d && eqb_ℤ t u)) [
        | inl here ↦
            let same_c : c ≡ d = ground arith in
            let same_t : t ≡ u = ground (arith, eqb_ℤ_iff t u) in
            rw (← same_c, ← same_t) (ground (arith, tally (counts.tally c t), eqb_ℤ_iff t t))
        | inr elsewhere ↦ omega (
          arith,
          counts.tally d u,
          unchanged d u elsewhere,
          total-le (λ w. is_counted (s.rpc d u w)) (λ w. is_counted (rpcs d u w)) n (kept d u),
        )
      ];
      majority = λ d h. ground (
        arith,
        on_vote_reply-leader args q (s.votes c t) (s.peer c),
        counts.majority d,
        counts.majority c,
        agree.peers c,
        calls.grants c v t args q call,
        eqb_ℤ_iff t heard.0.current_term,
        grows,
      );
    }

    pub Inv-reply :
        Inv n
          (record s {
            peer = update s.peer c heard.0;
            rpc = rpcs;
            votes = set_votes s.votes c t heard.1;
          })
          b
    Inv-reply = record {
      agree = Advance-PeersAgree c heard.0 agree moved;
      calls =
          set_rpc-RpcsAgree calls c t v (finished vote) busy
            (λ e. (calls.grants c v t args q call).1 (ground arith));
      counts = reply-VotesAgree;
    }
