-- ===== src/Raft/System/Invariant.antt =====
-- What holds of every reachable system, with the ballots that led to it.
use pluggable_sharded_fault.Base.{
  total, ℕ, ◌+◌, ◌*◌, ◌≤◌, ◌<◌, ◌≡◌, ◌≢◌, Bool, true, false, none, some, ℤ, pos, arith, ◌<ℤ◌, ◌≤ℤ◌,
}
use pluggable_sharded_fault.Raft.Peer.{leader, Raft}
use pluggable_sharded_fault.Raft.Vote.{RequestVoteArgs, RequestVoteReply}
use pluggable_sharded_fault.Raft.System.{Rpc, idle, sent, answered, finished, System, update}
use pluggable_sharded_fault.Raft.System.Ballots.{Ballots, vote_id, Extends}

abbrev pub is_counted : Rpc → Bool
is_counted (finished b) = b
is_counted _ = false

abbrev pub term_of : System → ℕ → ℤ
term_of s i = (s.peer i).current_term

-- The peers and their ballots.
pub record PeersAgree (n : ℕ) (peer : ℕ → Raft) (b : Ballots) : Type 0 where
  pub me : (i : ℕ) → (peer i).me ≡ i
  pub peers : (i : ℕ) → (peer i).peers ≡ n
  pub unborn : (i : ℕ) (t : ℤ) → (peer i).current_term <ℤ t → b i t ≡ none
  pub vote : (i : ℕ) → (peer i).voted_for ≡ vote_id (b i (peer i).current_term)

-- The RPCs and the ballots.
pub record RpcsAgree (n : ℕ) (rpc : ℕ → ℤ → ℕ → Rpc) (b : Ballots) : Type 0 where
  pub asks :
      (c v : ℕ) (t : ℤ) (args : RequestVoteArgs)
      → rpc c t v ≡ sent args
      → (args.term ≡ t) × (args.candidate_id ≡ pos c)
  pub grants :
      (c v : ℕ) (t : ℤ) (args : RequestVoteArgs) (r : RequestVoteReply)
      → rpc c t v ≡ answered args r
      → (args.term ≡ t) × (r.vote_granted ≡ true → b v t ≡ some c)
  pub counted : (c v : ℕ) (t : ℤ) → rpc c t v ≡ finished true → b v t ≡ some c
  pub started : (c v : ℕ) (t : ℤ) → rpc c t v ≢ idle → (b c t ≡ some c) × (v < n) × (c < n)
  pub itself : (c : ℕ) (t : ℤ) → rpc c t c ≡ idle

-- The counters of the elections.
pub record VotesAgree (n : ℕ) (s : System) (b : Ballots) : Type 0 where
  pub future :
      (c : ℕ) (t : ℤ) → term_of s c <ℤ t → (s.votes c t ≡ 0) × ((v : ℕ) → s.rpc c t v ≡ idle)
  pub own : (c : ℕ) (t : ℤ) → 0 < s.votes c t → (b c t ≡ some c) × (c < n)
  pub tally : (c : ℕ) (t : ℤ) → s.votes c t ≤ 1 + total (λ v. is_counted (s.rpc c t v)) n
  pub majority : (c : ℕ) → (s.peer c).state ≡ leader → n < 2 * s.votes c (term_of s c)

pub record Inv (n : ℕ) (s : System) (b : Ballots) : Type 0 where
  pub agree : PeersAgree n s.peer b
  pub calls : RpcsAgree n s.rpc b
  pub counts : VotesAgree n s b

-- One peer moves on from `p` to `q`, and the ballots with it.
pub record Advance (i : ℕ) (p q : Raft) (b b' : Ballots) : Type 0 where
  pub me : q.me ≡ p.me
  pub peers : q.peers ≡ p.peers
  pub later : p.current_term ≤ℤ q.current_term
  pub extends : Extends b b'
  pub others : (j : ℕ) (t : ℤ) → j ≢ i → b' j t ≡ b j t
  pub beyond : (t : ℤ) → q.current_term <ℤ t → b' i t ≡ b i t
  pub vote : q.voted_for ≡ vote_id (b' i q.current_term)

pub Advance-PeersAgree :
    {n : ℕ} {peer : ℕ → Raft} {b b' : Ballots} (i : ℕ) (q : Raft)
    → PeersAgree n peer b
    → Advance i (peer i) q b b'
    → PeersAgree n (update peer i q) b'
Advance-PeersAgree {n} {peer} {b} {b'} i q a v = record {
  me = λ j. ground (arith, a.me j, v.me, a.me i);
  peers = λ j. ground (arith, a.peers j, v.peers, a.peers i);
  unborn = λ j t h. ground (arith, v.others j t, v.beyond t, a.unborn j t, a.unborn i t);
  vote = λ j. ground (arith, v.vote, a.vote j, v.others j (peer j).current_term);
}

pub Extends-RpcsAgree :
    {n : ℕ} {rpc : ℕ → ℤ → ℕ → Rpc} {b b' : Ballots}
    → Extends b b'
    → RpcsAgree n rpc b
    → RpcsAgree n rpc b'
Extends-RpcsAgree {n} {rpc} {b} {b'} x r = record {
  asks = r.asks;
  grants =
      λ c v t args p h. ((r.grants c v t args p h).0, λ g. x v t c ((r.grants c v t args p h).1 g));
  counted = λ c v t h. x v t c (r.counted c v t h);
  started =
      λ c v t h. (x c t c (r.started c v t h).0, (r.started c v t h).1, (r.started c v t h).2);
  itself = r.itself;
}
