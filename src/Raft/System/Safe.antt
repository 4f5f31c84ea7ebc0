-- ===== src/Raft/System/Safe.antt =====
-- The invariant of reachable systems, with the ballots that every step keeps.
use pluggable_sharded_fault.Base.{ℕ, ◌≡◌, refl, sym, none, [], arith}
use mathlib.Core.Path.{subst, fun_ext}
use pluggable_sharded_fault.Raft.Peer.{Raft, make_raft}
use pluggable_sharded_fault.Raft.Append.{AppendEntriesArgs}
use pluggable_sharded_fault.Raft.Append.Laws.{entries-heartbeat_args, append_entries-empty}
use pluggable_sharded_fault.Raft.System.{
  Beat, beating, returned, over, System, Step, campaign, request, reply, lose, heartbeat, append,
  beat_reply, lose_beat, stop, init, Reach, start, later, update, Ahead, here, on,
}
use pluggable_sharded_fault.Raft.System.Ballots.{Ballots, Extends}
use pluggable_sharded_fault.Raft.System.Invariant.{Inv}
use pluggable_sharded_fault.Raft.System.Steps.Election
use pluggable_sharded_fault.Raft.System.Steps.Election.{Inv-election}
use pluggable_sharded_fault.Raft.System.Steps.Request
use pluggable_sharded_fault.Raft.System.Steps.Request.{Inv-request}
use pluggable_sharded_fault.Raft.System.Steps.Reply.{Inv-reply}
use pluggable_sharded_fault.Raft.System.Steps.Rest.{Inv-beat_reply, Inv-kill, Inv-lose, Inv-beats}

-- Every heartbeat under way is empty.
abbrev AreEmpty : (ℕ → Beat) → Type 0
AreEmpty beat =
    (k l v : ℕ) (args : AppendEntriesArgs) → beat k ≡ beating l v args → args.entries ≡ []

pub record IsSafe (n : ℕ) (s : System) : Type 0 where
  pub ballots : Ballots
  pub inv : Inv n s ballots
  pub empty : AreEmpty s.beat

IsSafe-init : (n : ℕ) → IsSafe n (init n)
unfolding make_raft
IsSafe-init n = record {
  ballots = λ i t. none;
  inv = record {
    agree = record { me = λ i. refl; peers = λ i. refl; unborn = λ i t h. refl; vote = λ i. refl };
    calls = record {
      asks = λ c v t args h. cc;
      grants = λ c v t args r h. cc;
      counted = λ c v t h. cc;
      started = λ c v t h. absurd (h refl);
      itself = λ c t. refl;
    };
    counts = record {
      future = λ c t h. (refl, λ v. refl);
      own = λ c t h. absurd (omega (arith, h));
      tally = λ c t. omega arith;
      majority = λ c h. cc;
    };
  };
  empty = λ k l v args h. cc;
}

same_peer : (peer : ℕ → Raft) (v : ℕ) (r : Raft) → r ≡ peer v → (j : ℕ) → update peer v r j ≡ peer j
same_peer peer v r e j = ground (arith, e)

AreEmpty-update :
    (beat : ℕ → Beat) (k : ℕ) (x : Beat)
    → AreEmpty beat
    → ((l v : ℕ) (args : AppendEntriesArgs) → x ≡ beating l v args → args.entries ≡ [])
    → AreEmpty (update beat k x)
AreEmpty-update beat k x e new j l v args h = ground (arith, e j l v args, new l v args)

-- Every step keeps the invariant, with the ballots that it casts.
pub Step-IsSafe : {n : ℕ} {s t : System} → Step n s t → IsSafe n s → IsSafe n t
Step-IsSafe (campaign i now timeout small room started) f = record {
  ballots = _;
  inv = Inv-election f.inv i now timeout small room started;
  empty = f.empty;
}
Step-IsSafe (request c v now t call) f = record {
  ballots = _;
  inv = Inv-request f.inv c v now t call;
  empty = f.empty;
}
Step-IsSafe (reply c v t call) f = record {
  ballots = _;
  inv = Inv-reply f.inv c v t call;
  empty = f.empty;
}
Step-IsSafe (lose c v t busy uncounted) f = record {
  ballots = _;
  inv = Inv-lose f.inv c v t busy uncounted;
  empty = f.empty;
}
Step-IsSafe {s = s} (heartbeat k l v {args} free hl hv ne args_of) f = record {
  ballots = _;
  inv = Inv-beats f.inv (update s.beat k (beating l v args));
  empty =
      AreEmpty-update s.beat k (beating l v args) f.empty
        (λ i j a e. ground (arith, entries-heartbeat_args (s.peer l) args args_of));
}
Step-IsSafe {n} {s} (append k l v now {args} {r} {answer} call done) f =
    let same =
      (append_entries-empty now args (s.peer v) r _ answer (f.empty k l v args call) done).0 in
    let unmoved = sym (fun_ext (same_peer s.peer v r same)) in
    record {
      ballots = f.ballots;
      inv =
          subst
            (λ p.
              Inv n (record s { peer = p; beat = update s.beat k (returned l answer) }) f.ballots)
            unmoved (Inv-beats f.inv (update s.beat k (returned l answer)));
      empty = AreEmpty-update s.beat k (returned l answer) f.empty (λ i j a e. cc);
    }
Step-IsSafe {s = s} (beat_reply k l {answer} call) f = record {
  ballots = _;
  inv = Inv-beats (Inv-beat_reply f.inv l answer) (update s.beat k over);
  empty = AreEmpty-update s.beat k over f.empty (λ i j a e. cc);
}
Step-IsSafe {s = s} (lose_beat k busy) f = record {
  ballots = _;
  inv = Inv-beats f.inv (update s.beat k over);
  empty = AreEmpty-update s.beat k over f.empty (λ i j a e. cc);
}
Step-IsSafe (stop i) f = record { ballots = _; inv = Inv-kill f.inv i; empty = f.empty }

pub Reach-IsSafe : {n : ℕ} {s : System} → Reach n s → IsSafe n s
Reach-IsSafe {n} start = IsSafe-init n
Reach-IsSafe (later r h) = Step-IsSafe h (Reach-IsSafe r)

-- No vote that was cast is lost by a step.
pub Step-Extends :
    {n : ℕ} {s t : System} (st : Step n s t) (f : IsSafe n s)
    → Extends f.ballots (Step-IsSafe st f).ballots
unfolding Step-IsSafe
Step-Extends (campaign i now timeout small room started) f =
    (Election.moved f.inv i now timeout small room started).extends
Step-Extends (request c v now t call) f = (Request.moved f.inv c v now t call).extends
Step-Extends (reply c v t call) f = λ i u c h. h
Step-Extends (lose c v t busy uncounted) f = λ i u c h. h
Step-Extends (heartbeat k l v free hl hv ne args_of) f = λ i u c h. h
Step-Extends (append k l v now call done) f = λ i u c h. h
Step-Extends (beat_reply k l call) f = λ i u c h. h
Step-Extends (lose_beat k busy) f = λ i u c h. h
Step-Extends (stop i) f = λ i u c h. h

Ahead-IsSafe : {n : ℕ} {s t : System} → Ahead n s t → IsSafe n s → IsSafe n t
Ahead-IsSafe here f = f
Ahead-IsSafe (on a st) f = Step-IsSafe st (Ahead-IsSafe a f)

Ahead-Extends :
    {n : ℕ} {s t : System} (a : Ahead n s t) (f : IsSafe n s)
    → Extends f.ballots (Ahead-IsSafe a f).ballots
unfolding Ahead-IsSafe
Ahead-Extends here f = λ i u c h. h
Ahead-Extends (on a st) f =
    λ i u c h. Step-Extends st (Ahead-IsSafe a f) i u c (Ahead-Extends a f i u c h)

-- Every system ahead of a safe one is safe, with ballots that extend its ballots.
pub IsSafe-Ahead :
    {n : ℕ} {s t : System} (f : IsSafe n s)
    → Ahead n s t
    → (g : IsSafe n t) × Extends f.ballots g.ballots
IsSafe-Ahead f a = (Ahead-IsSafe a f, Ahead-Extends a f)
