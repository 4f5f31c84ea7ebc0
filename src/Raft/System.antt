-- ===== src/Raft/System.antt =====
-- `n` peers over the network: every RPC may be delayed, lost, or answered, in any order.
-- A restart is no step; a panic ends the run, so `AppendEntries` steps only where it returns.
pub mod Ballots
pub mod Invariant
pub mod Steps
pub mod Safe
pub mod Safety
pub mod Terms
use pluggable_sharded_fault.Base.{
  ℕ, suc, ◌+◌, ◌<◌, ◌≡◌, ◌≢◌, Bool, true, false, not, ◌&&◌, Option, none, some, List, [], ℤ, pos,
  eqb, eqb_ℤ, ltb, ltb_ℤ, ◌<ℤ◌, max_int, if◌then◌else◌, Outcome, ok,
}
use pluggable_sharded_fault.Raft.Peer.{Raft, make_raft, kill}
use pluggable_sharded_fault.Raft.Vote.{
  RequestVoteArgs, RequestVoteReply, empty_vote_reply, request_vote, start_election, on_vote_reply,
}
use pluggable_sharded_fault.Raft.Vote.Laws.{is_vote}
use pluggable_sharded_fault.Raft.Append.{
  AppendEntriesArgs, AppendEntriesReply, empty_append_reply, append_entries, heartbeat_args,
  on_heartbeat_reply,
}

-- The RPC of one election to one server. `finished` says whether its goroutine counted a vote.
pub data Rpc : Type 0 where
  idle : Rpc
  sent : RequestVoteArgs → Rpc
  answered : RequestVoteArgs → RequestVoteReply → Rpc
  finished : Bool → Rpc

-- One heartbeat, from a leader to a server.
pub data Beat : Type 0 where
  unsent : Beat
  beating : ℕ → ℕ → AppendEntriesArgs → Beat
  returned : ℕ → AppendEntriesReply → Beat
  over : Beat

-- An election is named by its candidate and its term. `votes` is its `votesReceived`.
pub record System : Type 0 where
  pub peer : ℕ → Raft
  pub rpc : ℕ → ℤ → ℕ → Rpc
  pub votes : ℕ → ℤ → ℕ
  pub beat : ℕ → Beat

abbrev pub update {ℓ} : {A : Type ℓ} → (ℕ → A) → ℕ → A → ℕ → A
update f i a j = if eqb i j then a else f j

abbrev pub set_votes : (ℕ → ℤ → ℕ) → ℕ → ℤ → ℕ → ℕ → ℤ → ℕ
set_votes f c t k d u = if eqb c d && eqb_ℤ t u then k else f d u

abbrev pub set_rpc : (ℕ → ℤ → ℕ → Rpc) → ℕ → ℤ → ℕ → Rpc → ℕ → ℤ → ℕ → Rpc
set_rpc f c t v x d u w = if eqb c d && eqb_ℤ t u && eqb v w then x else f d u w

-- An RPC to every peer but the candidate itself.
abbrev pub send_all : ℕ → ℕ → RequestVoteArgs → (ℕ → ℤ → ℕ → Rpc) → ℕ → ℤ → ℕ → Rpc
send_all n c args f d u w =
    if eqb c d && eqb_ℤ args.term u && not (eqb c w) && ltb w n then sent args else f d u w

pub data Step (n : ℕ) (s : System) : System → Type 0 where
  -- `ticker` starts an election. The term does not overflow.
  campaign :
      (i now timeout : ℕ) {r : Raft} {args : RequestVoteArgs}
      → i < n
      → (s.peer i).current_term <ℤ max_int
      → start_election now timeout (s.peer i) ≡ some (r, args)
      → Step n s (record s {
        peer = update s.peer i r;
        rpc = send_all n i args s.rpc;
        votes = set_votes s.votes i args.term 1;
      })
  request :
      (c v now : ℕ) (t : ℤ) {args : RequestVoteArgs}
      → s.rpc c t v ≡ sent args
      → Step n s (record s {
        peer = update s.peer v (request_vote now args (s.peer v) empty_vote_reply).0;
        rpc =
            set_rpc s.rpc c t v
              (answered args (request_vote now args (s.peer v) empty_vote_reply).1);
      })
  reply :
      (c v : ℕ) (t : ℤ) {args : RequestVoteArgs} {r : RequestVoteReply}
      → s.rpc c t v ≡ answered args r
      → Step n s (record s {
        peer = update s.peer c (on_vote_reply args r (s.votes c t) (s.peer c)).0;
        rpc = set_rpc s.rpc c t v (finished (is_vote args r (s.peer c)));
        votes = set_votes s.votes c t (on_vote_reply args r (s.votes c t) (s.peer c)).1;
      })
  -- The request or its reply is dropped: `Call` returns false.
  lose :
      (c v : ℕ) (t : ℤ)
      → s.rpc c t v ≢ idle
      → s.rpc c t v ≢ finished true
      → Step n s (record s { rpc = set_rpc s.rpc c t v (finished false) })
  heartbeat :
      (k l v : ℕ) {args : AppendEntriesArgs}
      → s.beat k ≡ unsent
      → l < n
      → v < n
      → l ≢ v
      → heartbeat_args (s.peer l) ≡ some args
      → Step n s (record s { beat = update s.beat k (beating l v args) })
  append :
      (k l v now : ℕ) {args : AppendEntriesArgs} {r : Raft} {answer : AppendEntriesReply}
      → s.beat k ≡ beating l v args
      → append_entries now args (s.peer v) empty_append_reply ≡ ok (r, answer)
      → Step n s (record s { peer = update s.peer v r; beat = update s.beat k (returned l answer) })
  beat_reply :
      (k l : ℕ) {answer : AppendEntriesReply}
      → s.beat k ≡ returned l answer
      → Step n s (record s {
        peer = update s.peer l (on_heartbeat_reply answer (s.peer l));
        beat = update s.beat k over;
      })
  lose_beat : (k : ℕ) → s.beat k ≢ unsent → Step n s (record s { beat = update s.beat k over })
  stop : (i : ℕ) → Step n s (record s { peer = update s.peer i (kill (s.peer i)) })

abbrev pub init : ℕ → System
init n = record {
  peer = λ i. make_raft n i [];
  rpc = λ c t v. idle;
  votes = λ c t. 0;
  beat = λ k. unsent;
}

pub data Reach (n : ℕ) : System → Type 0 where
  start : Reach n (init n)
  later : {s t : System} → Reach n s → Step n s t → Reach n t

-- The systems that further steps lead to.
pub data Ahead (n : ℕ) (s : System) : System → Type 0 where
  here : Ahead n s s
  on : {t u : System} → Ahead n s t → Step n t u → Ahead n s u
