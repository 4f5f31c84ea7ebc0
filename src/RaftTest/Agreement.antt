-- ===== src/RaftTest/Agreement.antt =====
-- `one` and `wait` of src/raft1/test.go: submit a command, and wait until enough servers have it.
-- The clock and the servers go on by themselves: a list has the states that the loop meets until
-- its time is over.
pub mod Reached
use pluggable_sharded_fault.Base.{
  ℕ, zero, suc, ◌+◌, ◌%◌, ◌≤◌, ◌<◌, ◌≡◌, ◌≢◌, refl, Bool, true, false, ◌&&◌, not, Option, none,
  some, List, [], ◌∷◌, ℤ, pos, minus_one, lookup, arith, ltb, leb, ltb_ℤ, eqb_ℤ, eqb_ℤ_iff,
  if◌then◌else◌, Outcome, ok, panic, fatal, get_elem?, length, int_eq, ◌==◌, Option-cases,
  Outcome-cases, Bool-cases, inl, inr, ◌⊎◌,
}
use mathlib.Core.Path.{subst, sym}
use pluggable_sharded_fault.Raft.Peer.{Raft, get_state, start as raft_start}
use pluggable_sharded_fault.RaftTest.Logs.{
  Command, command_eq, same_command_iff, Rfsrv, Test, rfsrv_logs, n_committed_from, n_committed,
}

-- The states of one round of `one`: where it looks for a leader, and where it polls.
pub record Attempt : Type 0 where
  pub connected : ℕ → Bool
  pub at : Test
  pub polls : List Test

-- The Raft of a server, as the round at server `s` finds it
unfoldable pub raft_at : Attempt → ℕ → Option Raft
raft_at a s =
    if a.connected s then elim (get_elem? a.at.srvs s) [ none ↦ none | some rs ↦ rs.raft ] else none

-- Whether a poll saw the command committed by enough servers
unfoldable pub poll : ℕ → ℕ → ℤ → List Test → Outcome Bool
poll cmd expected index [] = ok false
poll cmd expected index (ts ∷ polls) = elim (n_committed index ts) [
  | ok (nd, cmd1) ↦
      if ltb 0 nd && leb expected nd && cmd1 == some cmd
      then ok true
      else poll cmd expected index polls
  | _ ↦ fatal
]

-- `Start` is that of the Raft that is plugged in, `raftapi.Raft`.
module _ (start : ℕ → Raft → ℤ × ℤ × Bool) where
  -- The loop over the servers: where it stops, and the index, -1 when nobody took the command
  unfoldable pub find_start : ℕ → ℕ → ℕ → Attempt → ℕ × ℤ
  find_start cmd zero starts a = (starts, minus_one)
  find_start cmd (suc left) starts a =
      let next = (starts + 1) % length a.at.srvs in
      let rest = find_start cmd left next a in
      elim (raft_at a next) [
        | none ↦ rest
        | some rf ↦ if (start cmd rf).2 then (next, (start cmd rf).0) else rest
      ]

  unfoldable pub one_from : ℕ → ℕ → Bool → Bool → ℕ → List Attempt → Outcome ℤ
  one_from cmd expected retry finished starts [] = if finished then ok minus_one else fatal
  one_from cmd expected retry finished starts (a ∷ rest) =
      let found = find_start cmd (length a.at.srvs) starts a in
      let again = one_from cmd expected retry finished found.0 rest in
      if eqb_ℤ found.1 minus_one then again else elim (poll cmd expected found.1 a.polls) [
        | ok true ↦ ok found.1
        | ok false ↦ if retry then again else fatal
        | _ ↦ fatal
      ]

  -- `finished` is `checkFinished` after the last round.
  unfoldable pub one : ℕ → ℕ → Bool → Bool → List Attempt → Outcome ℤ
  one cmd expected retry finished attempts = one_from cmd expected retry finished 0 attempts

-- `wait` returns -1 when a server moved on to a later term.
pub data Waited : Type 0 where
  moved_on : Waited
  decided : Command → Waited

unfoldable pub has_moved : ℤ → List Rfsrv → Outcome Bool
has_moved start_term [] = ok false
has_moved start_term (rs ∷ srvs) = elim rs.raft [
  | none ↦ panic
  | some rf ↦ if ltb_ℤ start_term (get_state rf).0 then ok true else has_moved start_term srvs
]

unfoldable pub decide : ℤ → ℕ → Test → Outcome Waited
decide index n ts = elim (n_committed index ts) [
  | ok (nd, cmd) ↦ if ltb nd n then fatal else ok (decided cmd)
  | _ ↦ fatal
]

-- The servers at a poll, and at the reading of the terms after it
unfoldable pub wait_from : ℕ → ℤ → ℕ → ℤ → (ℕ → Test × Test) → Test → Outcome Waited
wait_from zero index n start_term polls last = decide index n last
wait_from (suc left) index n start_term polls last =
    let rest = wait_from left index n start_term (λ i. polls (suc i)) last in
    elim (n_committed index (polls 0).0) [
      | ok (nd, cmd) ↦
          if leb n nd
          then decide index n last
          else (if ltb_ℤ minus_one start_term
              then elim (has_moved start_term (polls 0).1.srvs) [
                | ok true ↦ ok moved_on
                | ok false ↦ rest
                | panic ↦ panic
                | _ ↦ fatal
              ]
              else rest)
      | _ ↦ fatal
    ]

-- `last` is the state after the loop, which goes round at most 30 times.
unfoldable pub wait : ℤ → ℕ → ℤ → (ℕ → Test × Test) → Test → Outcome Waited
wait index n start_term polls last = wait_from 30 index n start_term polls last
