-- ===== src/Raft/System/Steps/Rest.antt =====
-- Steps that count no vote: lost calls, heartbeats and their replies, and `Kill`.
use pluggable_sharded_fault.Base.{total-le, ℕ, ◌≡◌, ◌≢◌, refl, true, false, ℤ, arith, eqb_ℤ_iff}
use pluggable_sharded_fault.Raft.Peer.{leader, Raft, kill}
use pluggable_sharded_fault.Raft.Append.{AppendEntriesReply, on_heartbeat_reply}
use pluggable_sharded_fault.Raft.System.{Rpc, Beat, idle, finished, System, update, set_rpc}
use pluggable_sharded_fault.Raft.System.Ballots.{Ballots}
use pluggable_sharded_fault.Raft.System.Invariant.{is_counted, Inv, Advance, Advance-PeersAgree}
use pluggable_sharded_fault.Raft.System.Steps.{Advance-beat, Advance-kill}
use pluggable_sharded_fault.Raft.System.Steps.Request.{set_rpc-RpcsAgree, VotesAgree-move}

module _ {n : ℕ} {s : System} {b : Ballots} (inv : Inv n s b) where
  open inv use {agree, calls, counts}

  -- A peer that makes no leader of itself moves on.
  Inv-peer :
      (i : ℕ) (q : Raft)
      → Advance i (s.peer i) q b b
      → (q.state ≡ leader
          → ((s.peer i).state ≡ leader) × (q.current_term ≡ (s.peer i).current_term))
      → Inv n (record s { peer = update s.peer i q }) b
  Inv-peer i q moved lead = record {
    agree = Advance-PeersAgree i q agree moved;
    calls = calls;
    counts =
        VotesAgree-move i q s.rpc counts moved.extends moved.later lead (λ d u w h. h)
          (λ d u w h. h);
  }

  pub Inv-beat_reply :
      (l : ℕ) (answer : AppendEntriesReply)
      → Inv n (record s { peer = update s.peer l (on_heartbeat_reply answer (s.peer l)) }) b
  unfolding on_heartbeat_reply
  Inv-beat_reply l answer =
      Inv-peer l (on_heartbeat_reply answer (s.peer l))
        (Advance-beat l (s.peer l) b (agree.unborn l) (agree.vote l) answer) (λ h. ground arith)

  pub Inv-kill : (i : ℕ) → Inv n (record s { peer = update s.peer i (kill (s.peer i)) }) b
  unfolding kill
  Inv-kill i =
      Inv-peer i (kill (s.peer i)) (Advance-kill i (s.peer i) b (agree.unborn i) (agree.vote i))
        (λ h. (h, refl))

  pub Inv-lose :
      (c v : ℕ) (t : ℤ)
      → s.rpc c t v ≢ idle
      → s.rpc c t v ≢ finished true
      → Inv n (record s { rpc = set_rpc s.rpc c t v (finished false) }) b
  Inv-lose c v t busy uncounted = record {
    agree = agree;
    calls = set_rpc-RpcsAgree calls c t v (finished false) busy (λ e. cc);
    counts = record {
      future = λ d u h.
          let before = counts.future d u h in
          (before.0, λ w. ground (arith, before.1 w, eqb_ℤ_iff t u));
      own = counts.own;
      tally = λ d u. omega (
        arith,
        counts.tally d u,
        total-le (λ w. is_counted (s.rpc d u w))
            (λ w. is_counted (set_rpc s.rpc c t v (finished false) d u w)) n (kept d u),
      );
      majority = counts.majority;
    };
  }
    where
      is_counted→finished : (x : Rpc) → is_counted x ≡ true → x ≡ finished true
      is_counted→finished (finished true) h = refl
      is_counted→finished _ h = cc

      kept :
          (d : ℕ) (u : ℤ) (w : ℕ)
          → is_counted (s.rpc d u w) ≡ true
          → is_counted (set_rpc s.rpc c t v (finished false) d u w) ≡ true
      kept d u w h = ground (arith, eqb_ℤ_iff t u, is_counted→finished (s.rpc d u w) h, uncounted)

  -- Heartbeats under way are no part of the invariant.
  pub Inv-beats : (beat : ℕ → Beat) → Inv n (record s { beat = beat }) b
  Inv-beats beat = record {
    agree = agree;
    calls = calls;
    counts = record {
      future = counts.future;
      own = counts.own;
      tally = counts.tally;
      majority = counts.majority;
    };
  }
