-- ===== src/RaftTest/Safety.antt =====
-- `checkOneLeader` over the Raft servers of `Raft.System`: the servers go on while it reads them.
use pluggable_sharded_fault.Base.{
  ℕ, zero, suc, ◌+◌, ◌≤◌, ◌<◌, ◌≡◌, refl, sym, Bool, true, false, Option, none, some, minus_one,
  arith, Outcome, ok, panic, fatal, stuck, ◌<ℤ◌, ◌⊎◌, inl, inr,
}
use mathlib.Core.Path.{subst}
use pluggable_sharded_fault.Raft.Peer.{leader, is_leader, get_state, make_raft, State}
use pluggable_sharded_fault.Raft.System.{System, Reach, start, later, Ahead, here, on}
use pluggable_sharded_fault.Raft.System.Safety.{election_safety-Ahead}
use pluggable_sharded_fault.Raft.System.Terms.{Step-term}
use pluggable_sharded_fault.RaftTest.{
  Readings, one_leader_round, one_leader_rounds, check_one_leader,
}
use pluggable_sharded_fault.RaftTest.OneLeader.{says, Finds, one_leader_round_lem}

reach_ahead : {n : ℕ} {s t : System} → Reach n s → Ahead n s t → Reach n t
reach_ahead r here = r
reach_ahead r (on a st) = later (reach_ahead r a) st

Ahead-trans : {n : ℕ} {s t u : System} → Ahead n s t → Ahead n t u → Ahead n s u
Ahead-trans a here = a
Ahead-trans a (on b st) = on (Ahead-trans a b) st

-- No peer is ever in a negative term.
born : {n : ℕ} {s : System} → Reach n s → (i : ℕ) → minus_one <ℤ (s.peer i).current_term
unfolding make_raft
born start i = ground arith
born (later r st) i = ground (arith, born r i, Step-term r st i)

is_leader-true : (s : State) → is_leader s ≡ true → s ≡ leader
is_leader-true s h = ground arith

-- The systems that a round of the check passes through: the i-th server is read in the i-th.
pub record Run (n : ℕ) : Type 0 where
  pub system : ℕ → System
  pub reached : Reach n (system 0)
  pub goes_on : (i : ℕ) → Ahead n (system i) (system (suc i))

unfoldable pub read : {n : ℕ} → (ℕ → Bool) → Run n → Readings
read connected run = record {
  connected = connected;
  state = λ i. get_state ((run.system i).peer i);
}

module _ {n : ℕ} (run : Run n) where
  reached_at : (i : ℕ) → Reach n (run.system i)
  reached_at zero = run.reached
  reached_at (suc i) = reach_ahead (reached_at i) (run.goes_on i)

  Ahead-le : (i j : ℕ) → i ≤ j → Ahead n (run.system i) (run.system j)
  Ahead-le i zero h = subst (λ k. Ahead n (run.system k) (run.system 0)) (omega (arith, h)) here
  Ahead-le i (suc j) h = elim (split i j h) [
    | inl le ↦ Ahead-trans (Ahead-le i j le) (run.goes_on j)
    | inr e ↦ subst (λ k. Ahead n (run.system k) (run.system (suc j))) (sym e) here
  ]
    where
      split : (i j : ℕ) → i ≤ suc j → (i ≤ j) ⊎ (i ≡ suc j)
      split i j h = ground (arith, h)

  says-leads :
      (connected : ℕ → Bool) (i : ℕ)
      → says (read connected run) i ≡ true
      → ((run.system i).peer i).state ≡ leader
  unfolding read get_state
  says-leads connected i h = is_leader-true ((run.system i).peer i).state (ground (arith, h))

  -- However the servers go on while a round of `checkOneLeader` reads them one by one, the round
  -- never fails or panics: it goes on when no connected server claims to lead, and otherwise it
  -- finds the only one that claims the last term claimed, no two servers claiming one term.
  pub one_leader_round-safe :
      (connected : ℕ → Bool)
      → (found : Option ℕ) × (one_leader_round n (read connected run) ≡ ok found)
        × Finds n (read connected run) (ok found)
  unfolding read get_state
  one_leader_round-safe connected =
      go (one_leader_round n (read connected run)) refl
        (one_leader_round_lem n (read connected run) (λ i h c. born (reached_at i) i))
    where
      go :
          (o : Outcome (Option ℕ))
          → one_leader_round n (read connected run) ≡ o
          → Finds n (read connected run) o
          → (found : Option ℕ) × (one_leader_round n (read connected run) ≡ ok found)
            × Finds n (read connected run) (ok found)
      go (ok found) e f = (found, e, f)
      go panic e f = absurd f
      go stuck e f = absurd f
      go fatal e (i, j, less, small, ci, cj, same) =
          let one =
            election_safety-Ahead i j (reached_at i) (Ahead-le i j (omega (arith, less)))
              (says-leads connected i ci) (says-leads connected j cj) same in
          absurd (omega (arith, one, less))

module _ {n : ℕ} (run : ℕ → Run n) (connected : ℕ → ℕ → Bool) where
  abbrev readings : ℕ → Readings
  readings k = read (connected k) (run k)

  -- How the rounds from `iters` on end.
  abbrev Ends : ℕ → ℕ → Outcome ℕ → Type 0
  Ends left iters o =
      ((k : ℕ) × (l : ℕ) × (k < iters + left) × (o ≡ ok l) × Finds n (readings k) (ok (some l)))
      ⊎ ((o ≡ fatal)
          × ((k i : ℕ) → iters ≤ k → k < iters + left → i < n → says (readings k) i ≡ false))

  rounds-Ends : (left iters : ℕ) → Ends left iters (one_leader_rounds left n readings iters)
  unfolding one_leader_rounds
  rounds-Ends zero iters = inr (refl, λ k i lo hi h. absurd (omega (arith, lo, hi)))
  rounds-Ends (suc left) iters =
      let (found, e, f) = one_leader_round-safe (run iters) (connected iters) in
      go found e f (rounds-Ends left (iters + 1))
    where
      go :
          (found : Option ℕ)
          → one_leader_round n (readings iters) ≡ ok found
          → Finds n (readings iters) (ok found)
          → Ends left (iters + 1) (one_leader_rounds left n readings (iters + 1))
          → Ends (suc left) iters (one_leader_rounds (suc left) n readings iters)
      go (some l) e f rest = inl (iters, l, omega arith, ground (arith, e), f)
      go none e f (inl (k, l, small, o, g)) =
          inl (k, l, omega (arith, small), ground (arith, e, o), g)
      go none e f (inr (o, g)) = inr (
        ground (arith, e, o),
        λ k i lo hi h. elim (first_or k lo) [
          | inl same ↦ subst (λ m. says (readings m) i ≡ false) same (f i h)
          | inr more ↦ g k i (omega (arith, more)) (omega (arith, hi)) h
        ],
      )
        where
          first_or : (k : ℕ) → iters ≤ k → (iters ≡ k) ⊎ (iters < k)
          first_or k lo = ground (arith, lo)

  -- `checkOneLeader` over Raft servers that do not restart ends in one of two ways. It returns a server that claims to
  -- lead in one of its ten rounds, and in that round the server has the last term that is claimed
  -- and no term is claimed twice; or it fails because in none of the ten rounds a connected server
  -- claimed to lead.
  pub check_one_leader-safe :
      ((k : ℕ) × (l : ℕ) × (k < 10)
        × (check_one_leader n readings ≡ ok l)
        × Finds n (readings k) (ok (some l)))
      ⊎ ((check_one_leader n readings ≡ fatal)
          × ((k i : ℕ) → k < 10 → i < n → says (readings k) i ≡ false))
  unfolding check_one_leader
  check_one_leader-safe = elim (rounds-Ends 10 0) [
    | inl found ↦ inl found
    | inr (o, quiet) ↦ inr (o, λ k i hi h. quiet k i (omega arith) hi h)
  ]
