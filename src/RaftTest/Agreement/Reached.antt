-- ===== src/RaftTest/Agreement/Reached.antt =====
-- What `one` and `wait` promise when they return.
use pluggable_sharded_fault.Base.{
  ℕ, zero, suc, ◌+◌, ◌%◌, ◌≤◌, ◌<◌, ◌≡◌, ◌≢◌, refl, Bool, true, false, ◌&&◌, none, some, List, [],
  ◌∷◌, ℤ, minus_one, lookup, arith, ltb, leb, eqb_ℤ, eqb_ℤ_iff, if◌then◌else◌, ok, fatal, get_elem?,
  length, int_eq, ◌==◌, Option-cases, Outcome-cases, Bool-cases, inl, inr, ◌⊎◌,
}
use mathlib.Core.Path.{subst}
use pluggable_sharded_fault.Raft.Peer.{Raft, start as raft_start}
use pluggable_sharded_fault.RaftTest.Logs.{
  Command, command_eq, same_command_iff, Rfsrv, Test, rfsrv_logs, n_committed_from, n_committed,
}
use pluggable_sharded_fault.RaftTest.Logs.Count.{holders, AllHold, AllHold-cons}
use pluggable_sharded_fault.RaftTest.Agreement.{
  Attempt, poll, find_start, one_from, one, decided, decide, wait_from, wait,
}

-- `nCommitted` does not lie: whatever the copies are, when it returns, the count is that of the
-- servers that have an entry, and they all have the command.
n_committed_from-ok :
    (index : ℤ) (count : ℕ) (cmd : Command) (srvs : List Rfsrv) (n : ℕ) (v : Command)
    → n_committed_from index count cmd srvs ≡ ok (n, v)
    → (n ≡ count + holders index srvs) × AllHold index v srvs × (0 < count → v ≡ cmd)
unfolding n_committed_from holders rfsrv_logs
n_committed_from-ok index count cmd [] n v h =
    (ground (arith, h), λ i rs w at found. cc, λ some_one. ground (arith, h))
n_committed_from-ok index count cmd (rs ∷ srvs) n v h = elim (Option-cases (lookup index rs.logs)) [
  | inl e ↦
      let (counted, all, same) =
        n_committed_from-ok index count cmd srvs n v (ground (arith, h, e)) in
      (
        ground (arith, counted, e),
        AllHold-cons index v rs srvs (λ w found. ground (arith, found, e)) all,
        same,
      )
  | inr (cmd1, e) ↦
      let (counted, all, same) =
        n_committed_from-ok index (count + 1) cmd1 srvs n v (ground (arith, h, e)) in
      (
        ground (arith, counted, e),
        AllHold-cons index v rs srvs (λ w found. ground (arith, found, e, same)) all,
        λ some_one. ground (arith, h, e, same, some_one, same_command_iff cmd cmd1),
      )
]

-- Enough servers have an entry at the index, and all that have one have the command.
abbrev pub IsCommitted : ℤ → ℕ → Command → Test → Type 0
IsCommitted index n cmd ts = (n ≤ holders index ts.srvs) × AllHold index cmd ts.srvs

-- A poll saw the command committed.
abbrev pub Saw : ℕ → ℕ → ℤ → List Test → Type 0
Saw cmd expected index polls =
    (ts : Test) × (i : ℕ) × (get_elem? polls i ≡ some ts)
    × (0 < holders index ts.srvs)
    × IsCommitted index expected (some cmd) ts

poll-true :
    (cmd expected : ℕ) (index : ℤ) (polls : List Test)
    → poll cmd expected index polls ≡ ok true
    → Saw cmd expected index polls
unfolding poll n_committed
poll-true cmd expected index [] h = cc
poll-true cmd expected index (ts ∷ polls) h = elim (Outcome-cases (n_committed index ts)) [
  | inr e ↦ absurd (ground (arith, h, e))
  | inl ((nd, cmd1), e) ↦
      let (counted, all, _) = n_committed_from-ok index 0 none ts.srvs nd cmd1 e in
      elim (Bool-cases (ltb 0 nd && leb expected nd && cmd1 == some cmd)) [
        | inl enough ↦
            let it : cmd1 ≡ some cmd = ground (arith, enough, same_command_iff cmd1 (some cmd)) in
            (
              ts,
              0,
              refl,
              ground (arith, enough, counted),
              (ground (arith, enough, counted), subst (λ w. AllHold index w ts.srvs) it all),
            )
        | inr few ↦
            let (us, i, at, found, seen) =
              poll-true cmd expected index polls (ground (arith, h, e, few)) in
            (us, suc i, at, found, seen)
      ]
]

-- What a returned index means: it is -1, and the test is over, or it is another, that of a command
-- that a poll saw committed.
abbrev pub Returns : ℕ → ℕ → Bool → List Attempt → ℤ → Type 0
Returns cmd expected finished attempts index =
    ((index ≡ minus_one) × (finished ≡ true))
    ⊎ ((index ≢ minus_one)
        × ((a : Attempt) × (k : ℕ) × (get_elem? attempts k ≡ some a)
            × Saw cmd expected index a.polls))

Returns-cons :
    (cmd expected : ℕ) (finished : Bool) (a : Attempt) (rest : List Attempt) (index : ℤ)
    → Returns cmd expected finished rest index
    → Returns cmd expected finished (a ∷ rest) index
Returns-cons cmd expected finished a rest index (inl over) = inl over
Returns-cons cmd expected finished a rest index (inr (took, (b, k, at, seen))) =
    inr (took, (b, suc k, at, seen))

module _ (start : ℕ → Raft → ℤ × ℤ × Bool) where
  one_from-Returns :
      (cmd expected : ℕ) (retry finished : Bool) (starts : ℕ) (attempts : List Attempt) (index : ℤ)
      → one_from start cmd expected retry finished starts attempts ≡ ok index
      → Returns cmd expected finished attempts index
  unfolding one_from
  one_from-Returns cmd expected retry finished starts [] index h =
      inl (ground (arith, h), ground (arith, h))
  one_from-Returns cmd expected retry finished starts (a ∷ rest) index h =
      let found : ℕ × ℤ = find_start start cmd (length a.at.srvs) starts a in
      let later : one_from start cmd expected retry finished found.0 rest ≡ ok index
          → Returns cmd expected finished (a ∷ rest) index =
        λ e.
          Returns-cons cmd expected finished a rest index
            (one_from-Returns cmd expected retry finished found.0 rest index e) in
      elim (Bool-cases (eqb_ℤ found.1 minus_one)) [
        | inl nobody ↦ later (ground (arith, h, nobody))
        | inr took ↦ elim (Outcome-cases (poll cmd expected found.1 a.polls)) [
          | inr e ↦ absurd (ground (arith, h, took, e))
          | inl (false, e) ↦ later (ground (arith, h, took, e))
          | inl (true, e) ↦
              let it : found.1 ≡ index = ground (arith, h, took, e) in
              inr (
                λ none_took. ground (arith, took, it, none_took, eqb_ℤ_iff found.1 minus_one),
                (
                  a,
                  0,
                  refl,
                  subst (λ x. Saw cmd expected x a.polls) it
                      (poll-true cmd expected found.1 a.polls e),
                ),
              )
        ]
      ]

  -- Whatever Raft is plugged in: when `one` returns an index other than -1, some poll saw at least
  -- one server and at least the expected number of servers with an entry at that index, and every
  -- server with such an entry had the command that was submitted. It returns -1 only when the test
  -- is over.
  pub one-Returns :
      (cmd expected : ℕ) (retry finished : Bool) (attempts : List Attempt) (index : ℤ)
      → one start cmd expected retry finished attempts ≡ ok index
      → Returns cmd expected finished attempts index
  unfolding one
  one-Returns cmd expected retry finished attempts index =
      one_from-Returns cmd expected retry finished 0 attempts index

decide-ok :
    (index : ℤ) (n : ℕ) (ts : Test) (cmd : Command)
    → decide index n ts ≡ ok (decided cmd)
    → IsCommitted index n cmd ts
unfolding decide n_committed
decide-ok index n ts cmd h = elim (Outcome-cases (n_committed index ts)) [
  | inr e ↦ absurd (ground (arith, h, e))
  | inl ((nd, v), e) ↦
      let (counted, all, _) = n_committed_from-ok index 0 none ts.srvs nd v e in
      let it : v ≡ cmd = ground (arith, h, e) in
      (ground (arith, h, e, counted), subst (λ w. AllHold index w ts.srvs) it all)
]

wait_from-ok :
    (left : ℕ) (index : ℤ) (n : ℕ) (start_term : ℤ) (polls : ℕ → Test × Test) (last : Test)
    (cmd : Command)
    → wait_from left index n start_term polls last ≡ ok (decided cmd)
    → decide index n last ≡ ok (decided cmd)
unfolding wait_from
wait_from-ok zero index n start_term polls last cmd h = h
wait_from-ok (suc left) index n start_term polls last cmd h =
    ground (arith, h, wait_from-ok left index n start_term (λ i. polls (suc i)) last cmd)

-- When `wait` returns a command and not -1, at least the awaited number of servers have an entry
-- at the index after its loop, and every server with such an entry has that command.
pub wait-IsCommitted :
    (index : ℤ) (n : ℕ) (start_term : ℤ) (polls : ℕ → Test × Test) (last : Test) (cmd : Command)
    → wait index n start_term polls last ≡ ok (decided cmd)
    → IsCommitted index n cmd last
unfolding wait
wait-IsCommitted index n start_term polls last cmd h =
    decide-ok index n last cmd (wait_from-ok 30 index n start_term polls last cmd h)

-- `Start` of this Raft takes no command.
find_start-none :
    (cmd left starts : ℕ) (a : Attempt) → (find_start raft_start cmd left starts a).1 ≡ minus_one
unfolding find_start raft_start
find_start-none cmd zero starts a = refl
find_start-none cmd (suc left) starts a =
    ground (arith, find_start-none cmd left ((starts + 1) % length a.at.srvs) a)

one_from-start :
    (cmd expected : ℕ) (retry finished : Bool) (starts : ℕ) (attempts : List Attempt)
    → one_from raft_start cmd expected retry finished starts attempts
      ≡ (if finished then ok minus_one else fatal)
unfolding one_from
one_from-start cmd expected retry finished starts [] = refl
one_from-start cmd expected retry finished starts (a ∷ rest) =
    let next = (find_start raft_start cmd (length a.at.srvs) starts a).0 in
    ground (
      arith,
      find_start-none cmd (length a.at.srvs) starts a,
      one_from-start cmd expected retry finished next rest,
    )

-- With the `Start` of this Raft, `one` never reaches agreement: it fails, unless the test is over,
-- when it returns -1.
pub one-start :
    (cmd expected : ℕ) (retry finished : Bool) (attempts : List Attempt)
    → one raft_start cmd expected retry finished attempts
      ≡ (if finished then ok minus_one else fatal)
unfolding one
one-start cmd expected retry finished attempts =
    one_from-start cmd expected retry finished 0 attempts
