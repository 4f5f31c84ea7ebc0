-- ===== src/Raft/System/Safety.antt =====
-- Election safety: a term has at most one leader.
use pluggable_sharded_fault.Base.{
  total, total-le, total-lt, total_disjoint, ℕ, ◌*◌, ◌≤◌, ◌<◌, ◌≡◌, ◌≢◌, refl, ap, sym, Bool, true,
  false, Option, none, some, ℤ, arith, eqb, ◌⊎◌, inl, inr, Option-cases,
}
use mathlib.Core.Path.{subst}
use pluggable_sharded_fault.Raft.Peer.{leader}
use pluggable_sharded_fault.Raft.System.{
  Rpc, idle, sent, answered, finished, System, Reach, Ahead, here,
}
use pluggable_sharded_fault.Raft.System.Ballots.{Ballots, Extends}
use pluggable_sharded_fault.Raft.System.Invariant.{is_counted, term_of, Inv}
use pluggable_sharded_fault.Raft.System.Safe.{Reach-IsSafe, IsSafe-Ahead}

eq_or_ne : (i j : ℕ) → (i ≡ j) ⊎ (i ≢ j)
eq_or_ne i j = ground arith

is_for : ℕ → Option ℕ → Bool
is_for c none = false
is_for c (some d) = eqb c d

is_for-some : (c : ℕ) (x : Option ℕ) → x ≡ some c → is_for c x ≡ true
unfolding is_for
is_for-some c x h = grind arith

is_for_ne : (c d : ℕ) (x : Option ℕ) → c ≢ d → is_for c x ≡ true → is_for d x ≡ false
unfolding is_for
is_for_ne c d none h e = refl
is_for_ne c d (some k) h e = ground arith

finished_of_counted : (x : Rpc) → is_counted x ≡ true → x ≡ finished true
finished_of_counted idle h = cc
finished_of_counted (sent args) h = cc
finished_of_counted (answered args r) h = cc
finished_of_counted (finished b) h = ap finished h

-- The votes that an election counted are ballots for its candidate.
votes-ballots :
    {n : ℕ} {s : System} {b : Ballots} (c : ℕ) (t : ℤ)
    → Inv n s b
    → 0 < s.votes c t
    → s.votes c t ≤ total (λ v. is_for c (b v t)) n
votes-ballots {n} {s} {b} c t i h =
    let mine = i.counts.own c t h in
    let counted : (v : ℕ) → is_counted (s.rpc c t v) ≡ true → is_for c (b v t) ≡ true =
      λ v e. is_for-some c (b v t) (i.calls.counted c v t (finished_of_counted (s.rpc c t v) e)) in
    let tally = i.counts.tally c t in
    let fewer =
      total-lt (λ v. is_counted (s.rpc c t v)) (λ v. is_for c (b v t)) n c mine.1 counted
        (ap is_counted (i.calls.itself c t)) (is_for-some c (b c t) mine.0) in
    omega (arith, fewer, tally)

is_for_kept :
    {b b' : Ballots} (c v : ℕ) (t : ℤ)
    → Extends b b'
    → is_for c (b v t) ≡ true
    → is_for c (b' v t) ≡ true
unfolding is_for
is_for_kept {b} {b'} c v t x h = elim (Option-cases (b v t)) [
  | inl e ↦ ground (arith, e)
  | inr (d, e) ↦ ground (arith, e, x v t d e, h)
]

-- A leader in a reachable system, and a leader of the same term in a system that further steps lead
-- to, are the same peer: whatever requests, replies and heartbeats are delayed or lost before or
-- in between, and in whatever order they come. Peers do not restart.
pub election_safety-Ahead :
    {n : ℕ} {s u : System} (i j : ℕ)
    → Reach n s
    → Ahead n s u
    → (s.peer i).state ≡ leader
    → (u.peer j).state ≡ leader
    → (s.peer i).current_term ≡ (u.peer j).current_term
    → i ≡ j
election_safety-Ahead {n} {s} {u} i j r a li lj same =
    let f = Reach-IsSafe r in
    let (g, x) = IsSafe-Ahead f a in
    elim (eq_or_ne i j) [
      | inl h ↦ h
      | inr h ↦
          let t = term_of s i in
          let mi = f.inv.counts.majority i li in
          let mj = subst (λ w. n < 2 * u.votes j w) (sym same) (g.inv.counts.majority j lj) in
          let vi = votes-ballots i t f.inv (omega (arith, mi)) in
          let vj = votes-ballots j t g.inv (omega (arith, mj)) in
          let kept =
            total-le (λ v. is_for i (f.ballots v t)) (λ v. is_for i (g.ballots v t)) n
              (λ v. is_for_kept i v t x) in
          let apart =
            total_disjoint (λ v. is_for i (g.ballots v t)) (λ v. is_for j (g.ballots v t)) n
              (λ v. is_for_ne i j (g.ballots v t) h) in
          absurd (omega (arith, mi, mj, vi, vj, kept, apart))
    ]

-- In every reachable system, two leaders of one term are the same peer: whatever requests, replies
-- and heartbeats were delayed or lost, and in whatever order they came. Peers do not restart.
pub election_safety :
    {n : ℕ} {s : System} (i j : ℕ)
    → Reach n s
    → (s.peer i).state ≡ leader
    → (s.peer j).state ≡ leader
    → (s.peer i).current_term ≡ (s.peer j).current_term
    → i ≡ j
election_safety i j r li lj same = election_safety-Ahead i j r here li lj same
