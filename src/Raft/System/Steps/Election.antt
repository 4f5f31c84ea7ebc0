-- ===== src/Raft/System/Steps/Election.antt =====
-- The start of an election.
use pluggable_sharded_fault.Base.{
  total-le, ℕ, ◌<◌, ◌≡◌, true, some, ℤ, pos, arith, ◌<ℤ◌, max_int, eqb_ℤ_iff, incr_parts,
}
use pluggable_sharded_fault.Raft.Peer.{leader, Raft}
use pluggable_sharded_fault.Raft.Vote.{RequestVoteArgs, start_election}
use pluggable_sharded_fault.Raft.Vote.Laws.{start_election_lem}
use pluggable_sharded_fault.Raft.System.{Rpc, idle, System, update, set_votes, send_all}
use pluggable_sharded_fault.Raft.System.Ballots.{Ballots, cast, cast_self}
use pluggable_sharded_fault.Raft.System.Invariant.{
  is_counted, RpcsAgree, VotesAgree, Inv, Advance, Advance-PeersAgree, Extends-RpcsAgree,
}
use pluggable_sharded_fault.Raft.System.Steps.{Advance-election}

module _ {n : ℕ} {s : System} {b : Ballots} (inv : Inv n s b) where
  open inv use {agree, calls, counts}

  module _ (i now timeout : ℕ) {r : Raft} {args : RequestVoteArgs} (small : i < n)
      (room : (s.peer i).current_term <ℤ max_int)
      (started : start_election now timeout (s.peer i) ≡ some (r, args)) where
    abbrev pub ballots : Ballots
    ballots = cast b i args.term i

    abbrev rpcs : ℕ → ℤ → ℕ → Rpc
    rpcs = send_all n i args s.rpc

    pub moved : Advance i (s.peer i) r b ballots
    moved =
        Advance-election i (s.peer i) b (agree.unborn i) (agree.vote i) now timeout r args
          (agree.me i) room started

    -- The election is in a term that the peer had not reached.
    in_term : r.current_term ≡ args.term
    in_term = ground (arith, start_election_lem now timeout (s.peer i) r args started)

    newer : (s.peer i).current_term <ℤ args.term
    newer = ground (
      arith,
      start_election_lem now timeout (s.peer i) r args started,
      incr_parts (s.peer i).current_term,
    )

    named : args.candidate_id ≡ pos i
    named = ground (arith, start_election_lem now timeout (s.peer i) r args started, agree.me i)

    no_leader : r.state ≡ leader → ⊥
    no_leader h = ground (arith, start_election_lem now timeout (s.peer i) r args started)

    unused : (w : ℕ) → s.rpc i args.term w ≡ idle
    unused = (counts.future i args.term newer).1

    old_calls : RpcsAgree n s.rpc ballots
    old_calls = Extends-RpcsAgree moved.extends calls

    election-RpcsAgree : RpcsAgree n rpcs ballots
    election-RpcsAgree = record {
      asks = λ d w u a h. ground (arith, eqb_ℤ_iff args.term u, calls.asks d w u a, named);
      grants = λ d w u a q h. old_calls.grants d w u a q (ground (arith, eqb_ℤ_iff args.term u));
      counted = λ d w u h. old_calls.counted d w u (ground (arith, eqb_ℤ_iff args.term u));
      started = λ d w u h.
          ground (arith, eqb_ℤ_iff args.term u, old_calls.started d w u, cast_self b i args.term i);
      itself = λ d u. ground (arith, calls.itself d u);
    }

    kept :
        (d : ℕ) (u : ℤ) (w : ℕ) → is_counted (s.rpc d u w) ≡ true → is_counted (rpcs d u w) ≡ true
    kept d u w h = ground (arith, eqb_ℤ_iff args.term u, unused w)

    election-VotesAgree :
        VotesAgree n
          (record s {
            peer = update s.peer i r;
            rpc = rpcs;
            votes = set_votes s.votes i args.term 1;
          })
          ballots
    election-VotesAgree = record {
      future = λ d u h.
          let before : (s.votes d u ≡ 0) × ((w : ℕ) → s.rpc d u w ≡ idle) =
            counts.future d u (ground (arith, newer, in_term)) in
          (ground (arith, before.0, in_term), λ w. ground (arith, before.1 w, in_term));
      own = λ d u h. ground (
        arith,
        eqb_ℤ_iff args.term u,
        counts.own d u,
        moved.extends d u d,
        cast_self b i args.term i,
      );
      tally = λ d u. ground (
        arith,
        counts.tally d u,
        total-le (λ w. is_counted (s.rpc d u w)) (λ w. is_counted (rpcs d u w)) n (kept d u),
      );
      majority = λ d h. ground (arith, no_leader, counts.majority d);
    }

    pub Inv-election :
        Inv n
          (record s {
            peer = update s.peer i r;
            rpc = rpcs;
            votes = set_votes s.votes i args.term 1;
          })
          ballots
    Inv-election = record {
      agree = Advance-PeersAgree i r agree moved;
      calls = election-RpcsAgree;
      counts = election-VotesAgree;
    }
