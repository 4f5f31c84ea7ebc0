-- ===== src/Raft/System/Terms.antt =====
-- What no step of a reachable system does: lower a term, or take back a vote; and what never comes
-- about in a cluster of one.
use pluggable_sharded_fault.Base.{
  ℕ, ◌≡◌, ◌≢◌, some, List, [], minus_one, arith, ◌<ℤ◌, ◌≤ℤ◌, eqb_iff, max_int, incr_parts,
}
use pluggable_sharded_fault.Raft.Peer.{leader, Raft, make_raft, kill}
use pluggable_sharded_fault.Raft.Vote.{RequestVoteArgs, start_election, empty_vote_reply}
use pluggable_sharded_fault.Raft.Vote.Laws.{
  start_election_lem, request_vote-keeps, request_vote-leader, on_vote_reply-moves,
}
use pluggable_sharded_fault.Raft.Append.{AppendEntriesReply, on_heartbeat_reply}
use pluggable_sharded_fault.Raft.Append.Laws.{append_entries-empty}
use pluggable_sharded_fault.Raft.System.{
  System, Step, campaign, request, reply, lose, heartbeat, append, beat_reply, lose_beat, stop,
  Reach, start, later, update,
}
use pluggable_sharded_fault.Raft.System.Safe.{Reach-IsSafe}

-- From `p` to `q` the term does not fall, and a vote stands while the term does.
abbrev Keeps : Raft → Raft → Type 0
Keeps p q =
    (p.current_term ≤ℤ q.current_term)
    × (q.current_term ≡ p.current_term → p.voted_for ≢ minus_one → q.voted_for ≡ p.voted_for)

Keeps-refl : (p : Raft) → Keeps p p
Keeps-refl p = ground arith

Keeps-update :
    (peer : ℕ → Raft) (i : ℕ) (r : Raft)
    → Keeps (peer i) r
    → (j : ℕ) → Keeps (peer j) (update peer i r j)
Keeps-update peer i r k j = ground (arith, k, eqb_iff i j)

Keeps-campaign :
    (now timeout : ℕ) (p r : Raft) (args : RequestVoteArgs)
    → p.current_term <ℤ max_int
    → start_election now timeout p ≡ some (r, args)
    → Keeps p r
Keeps-campaign now timeout p r args room started =
    ground (arith, start_election_lem now timeout p r args started, incr_parts p.current_term)

Keeps-beat : (answer : AppendEntriesReply) (p : Raft) → Keeps p (on_heartbeat_reply answer p)
unfolding on_heartbeat_reply
Keeps-beat answer p = ground arith

Keeps-kill : (p : Raft) → Keeps p (kill p)
unfolding kill
Keeps-kill p = ground arith

Reach-Keeps :
    {n : ℕ} {s t : System} → Reach n s → Step n s t → (j : ℕ) → Keeps (s.peer j) (t.peer j)
Reach-Keeps {s = s} h (campaign i now timeout {r} {args} small room started) j =
    Keeps-update s.peer i r (Keeps-campaign now timeout (s.peer i) r args room started) j
Reach-Keeps {s = s} h (request c v now t {args} call) j =
    Keeps-update s.peer v _ (request_vote-keeps now args (s.peer v) empty_vote_reply) j
Reach-Keeps {s = s} h (reply c v t {args} {r} call) j =
    Keeps-update s.peer c _ (ground (arith, on_vote_reply-moves args r (s.votes c t) (s.peer c))) j
Reach-Keeps {s = s} h (lose c v t busy uncounted) j = Keeps-refl (s.peer j)
Reach-Keeps {s = s} h (heartbeat k l v free hl hv ne args_of) j = Keeps-refl (s.peer j)
Reach-Keeps {s = s} h (append k l v now {args} {r} {answer} call done) j =
    let same =
      append_entries-empty now args (s.peer v) r _ answer ((Reach-IsSafe h).empty k l v args call)
        done in
    Keeps-update s.peer v r (ground (arith, same)) j
Reach-Keeps {s = s} h (beat_reply k l {answer} call) j =
    Keeps-update s.peer l _ (Keeps-beat answer (s.peer l)) j
Reach-Keeps {s = s} h (lose_beat k busy) j = Keeps-refl (s.peer j)
Reach-Keeps {s = s} h (stop i) j = Keeps-update s.peer i (kill (s.peer i)) (Keeps-kill (s.peer i)) j

-- In a reachable system no step lowers the term of a peer.
pub Step-term :
    {n : ℕ} {s t : System}
    → Reach n s
    → Step n s t
    → (j : ℕ) → (s.peer j).current_term ≤ℤ (t.peer j).current_term
Step-term h step j = (Reach-Keeps h step j).0

-- In a reachable system a peer that has voted still has the same vote after a step that leaves it in
-- its term.
pub Step-vote :
    {n : ℕ} {s t : System}
    → Reach n s
    → Step n s t
    → (j : ℕ) → (t.peer j).current_term ≡ (s.peer j).current_term
    → (s.peer j).voted_for ≢ minus_one
    → (t.peer j).voted_for ≡ (s.peer j).voted_for
Step-vote h step j same voted = (Reach-Keeps h step j).1 same voted

lead_update :
    (peer : ℕ → Raft) (i : ℕ) (r : Raft)
    → ((j : ℕ) → (peer j).state ≢ leader)
    → (r.state ≡ leader → (peer i).state ≡ leader)
    → (j : ℕ) → (update peer i r j).state ≢ leader
lead_update peer i r none_leads led j h = ground (arith, none_leads i, none_leads j, led)

lead-beat :
    (answer : AppendEntriesReply) (p : Raft)
    → (on_heartbeat_reply answer p).state ≡ leader
    → p.state ≡ leader
unfolding on_heartbeat_reply
lead-beat answer p h = ground arith

lead-kill : (p : Raft) → (kill p).state ≡ leader → p.state ≡ leader
unfolding kill
lead-kill p h = h

lead-init : (n i : ℕ) (saved : List ℕ) → (make_raft n i saved).state ≢ leader
unfolding make_raft
lead-init n i saved h = cc

-- In a cluster of one peer nobody ever becomes leader: a majority is looked for only when a reply
-- comes, and there is nobody to reply.
pub lone_peer_never_leads : {s : System} → Reach 1 s → (j : ℕ) → (s.peer j).state ≢ leader
lone_peer_never_leads start j = lead-init 1 j []
lone_peer_never_leads (later {s = s} p (campaign i now timeout {r} {args} small room started)) j =
    lead_update s.peer i r (lone_peer_never_leads p)
      (λ h. ground (arith, start_election_lem now timeout (s.peer i) r args started)) j
lone_peer_never_leads (later {s = s} p (request c v now t {args} call)) j =
    lead_update s.peer v _ (lone_peer_never_leads p)
      (λ h. (request_vote-leader now args (s.peer v) empty_vote_reply h).0) j
lone_peer_never_leads (later {s = s} p (reply c v t call)) j = λ h.
    let answers = (Reach-IsSafe p).inv.calls in
    absurd (ground (arith, call, answers.started c v t, answers.itself c t))
lone_peer_never_leads (later p (lose c v t busy uncounted)) j = lone_peer_never_leads p j
lone_peer_never_leads (later p (heartbeat k l v free hl hv ne args_of)) j =
    lone_peer_never_leads p j
lone_peer_never_leads (later {s = s} p (append k l v now {args} {r} {answer} call done)) j =
    let same =
      append_entries-empty now args (s.peer v) r _ answer ((Reach-IsSafe p).empty k l v args call)
        done in
    lead_update s.peer v r (lone_peer_never_leads p) (λ h. ground (arith, same)) j
lone_peer_never_leads (later {s = s} p (beat_reply k l {answer} call)) j =
    lead_update s.peer l _ (lone_peer_never_leads p) (lead-beat answer (s.peer l)) j
lone_peer_never_leads (later p (lose_beat k busy)) j = lone_peer_never_leads p j
lone_peer_never_leads (later {s = s} p (stop i)) j =
    lead_update s.peer i (kill (s.peer i)) (lone_peer_never_leads p) (lead-kill (s.peer i)) j
