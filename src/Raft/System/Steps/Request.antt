-- ===== src/Raft/System/Steps/Request.antt =====
-- Steps that touch one peer and at most one RPC, and no counter: the delivery of a request first.
use pluggable_sharded_fault.Base.{
  total-le, ℕ, ◌≡◌, ◌≢◌, true, some, ℤ, pos, arith, ◌≤ℤ◌, eqb_ℤ_iff, if◌then◌else◌,
}
use pluggable_sharded_fault.Raft.Peer.{leader, Raft}
use pluggable_sharded_fault.Raft.Vote.{
  RequestVoteArgs, RequestVoteReply, empty_vote_reply, request_vote,
}
use pluggable_sharded_fault.Raft.Vote.Laws.{request_vote-leader}
use pluggable_sharded_fault.Raft.System.{
  Rpc, idle, sent, answered, finished, System, update, set_rpc,
}
use pluggable_sharded_fault.Raft.System.Ballots.{Ballots, Extends, cast, cast_self}
use pluggable_sharded_fault.Raft.System.Invariant.{
  is_counted, RpcsAgree, VotesAgree, Inv, Advance, Advance-PeersAgree, Extends-RpcsAgree,
}
use pluggable_sharded_fault.Raft.System.Steps.{Advance-request}

-- What an RPC that has been sent may become.
abbrev pub IsValidRpc : ℕ → ℤ → ℕ → Ballots → Rpc → Type 0
IsValidRpc c t v b idle = ⊥
IsValidRpc c t v b (sent args) = (args.term ≡ t) × (args.candidate_id ≡ pos c)
IsValidRpc c t v b (answered args r) = (args.term ≡ t) × (r.vote_granted ≡ true → b v t ≡ some c)
IsValidRpc c t v b (finished k) = k ≡ true → b v t ≡ some c

module _ {n : ℕ} {rpc : ℕ → ℤ → ℕ → Rpc} {b : Ballots} (r : RpcsAgree n rpc b) (c : ℕ) (t : ℤ)
    (v : ℕ) (x : Rpc) (busy : rpc c t v ≢ idle) (valid : IsValidRpc c t v b x) where
  pub set_rpc-RpcsAgree : RpcsAgree n (set_rpc rpc c t v x) b
  set_rpc-RpcsAgree = record {
    asks = λ d w u args h. ground (arith, eqb_ℤ_iff t u, r.asks d w u args, valid);
    grants = λ d w u args q h. (
      ground (arith, eqb_ℤ_iff t u, r.grants d w u args q, valid),
      λ g. ground (arith, eqb_ℤ_iff t u, r.grants d w u args q, valid),
    );
    counted = λ d w u h. ground (arith, eqb_ℤ_iff t u, r.counted d w u, valid);
    started = λ d w u h. ground (arith, eqb_ℤ_iff t u, r.started d w u, r.started c v t busy);
    itself = λ d u. ground (arith, eqb_ℤ_iff t u, r.itself d u, busy);
  }

-- The counters stay right when one peer moves on, no vote is lost, and no RPC that was counted or
-- not sent changes.
pub VotesAgree-move :
    {n : ℕ} {s : System} {b b' : Ballots} (i : ℕ) (q : Raft) (rpc : ℕ → ℤ → ℕ → Rpc)
    → VotesAgree n s b
    → Extends b b'
    → (s.peer i).current_term ≤ℤ q.current_term
    → (q.state ≡ leader → ((s.peer i).state ≡ leader) × (q.current_term ≡ (s.peer i).current_term))
    → ((d : ℕ) (u : ℤ) (w : ℕ) → s.rpc d u w ≡ idle → rpc d u w ≡ idle)
    → ((d : ℕ) (u : ℤ) (w : ℕ) → is_counted (s.rpc d u w) ≡ true → is_counted (rpc d u w) ≡ true)
    → VotesAgree n (record s { peer = update s.peer i q; rpc = rpc }) b'
VotesAgree-move {n} {s} {b} i q rpc a x later lead fresh kept = record {
  future = λ d u h.
      let before : (s.votes d u ≡ 0) × ((w : ℕ) → s.rpc d u w ≡ idle) =
        a.future d u (ground arith) in
      (before.0, λ w. fresh d u w (before.1 w));
  own = λ d u h. (x d u d (a.own d u h).0, (a.own d u h).1);
  tally = λ d u. omega (
    arith,
    a.tally d u,
    total-le (λ w. is_counted (s.rpc d u w)) (λ w. is_counted (rpc d u w)) n (kept d u),
  );
  majority = λ d h. ground (arith, lead, a.majority d, a.majority i);
}

module _ {n : ℕ} {s : System} {b : Ballots} (inv : Inv n s b) where
  open inv use {agree, calls, counts}

  module _ (c v now : ℕ) (t : ℤ) {args : RequestVoteArgs} (call : s.rpc c t v ≡ sent args) where
    abbrev pub asked : Raft × RequestVoteReply
    asked = request_vote now args (s.peer v) empty_vote_reply

    abbrev pub ballots : Ballots
    ballots = if asked.1.vote_granted then cast b v args.term c else b

    pub moved : Advance v (s.peer v) asked.0 b ballots
    moved =
        Advance-request v (s.peer v) b (agree.unborn v) (agree.vote v) now c args empty_vote_reply
          (calls.asks c v t args call).1

    pub Inv-request :
        Inv n
          (record s {
            peer = update s.peer v asked.0;
            rpc = set_rpc s.rpc c t v (answered args asked.1);
          })
          ballots
    Inv-request = record {
      agree = Advance-PeersAgree v asked.0 agree moved;
      calls =
          set_rpc-RpcsAgree (Extends-RpcsAgree moved.extends calls) c t v (answered args asked.1)
            (λ e. cc) valid;
      counts =
          VotesAgree-move v asked.0 (set_rpc s.rpc c t v (answered args asked.1)) counts
            moved.extends moved.later (request_vote-leader now args (s.peer v) empty_vote_reply)
            (λ d u w h. ground (arith, eqb_ℤ_iff t u)) (λ d u w h. ground (arith, eqb_ℤ_iff t u));
    }
      where
        valid : IsValidRpc c t v ballots (answered args asked.1)
        valid = (
          (calls.asks c v t args call).0,
          λ g. ground (arith, g, (calls.asks c v t args call).0, cast_self b v args.term c),
        )
