-- ===== src/RaftTest.antt =====
-- The test harness of Raft, src/raft1/test.go and src/raft1/server.go: what a test reads off the
-- servers, and what it fails on. A command is a number, as in `Raft`.
pub mod Agreement
pub mod Claimants
pub mod Leaders
pub mod OneLeader
pub mod Logs
pub mod Snapshots
pub mod Safety
pub mod Terms
use pluggable_sharded_fault.Base.{
  ℕ, zero, suc, ◌+◌, Bool, true, false, ◌&&◌, Option, none, some, List, [], ◌∷◌, ◌++◌, ℤ, minus_one,
  Map, insert, lookup, get_or, ltb, ltb_ℤ, eqb, eqb_ℤ, not, if◌then◌else◌, Outcome, ok, panic,
  fatal, length, int_eq,
}

-- What a check reads of the servers while it goes through them: which are connected, and what
-- `GetState` returns, each at the moment the loop comes to it.
pub record Readings : Type 0 where
  pub connected : ℕ → Bool
  pub state : ℕ → ℤ × Bool

-- `leaders`: for each term the servers that say that they lead it
unfoldable pub collect : Readings → ℕ → Map ℤ (List ℕ)
collect r zero = []
collect r (suc i) =
    let leaders = collect r i in
    if r.connected i && (r.state i).1
    then insert (r.state i).0 (get_or (r.state i).0 [] leaders ++ (i ∷ [])) leaders
    else leaders

-- `lastTermWithLeader`
unfoldable pub last_term : ℤ → Map ℤ (List ℕ) → Outcome ℤ
last_term last [] = ok last
last_term last ((term, leaders) ∷ rest) =
    if ltb 1 (length leaders)
    then fatal
    else last_term (if ltb_ℤ last term then term else last) rest

-- One round of `checkOneLeader`
unfoldable pub one_leader_round : ℕ → Readings → Outcome (Option ℕ)
one_leader_round n r =
    let leaders = collect r n in
    elim (last_term minus_one leaders) [
      | ok last ↦
          if eqb 0 (length leaders)
          then ok none
          else elim (get_or last [] leaders) [ [] ↦ panic | leader ∷ _ ↦ ok (some leader) ]
      | _ ↦ fatal
    ]

unfoldable pub one_leader_rounds : ℕ → ℕ → (ℕ → Readings) → ℕ → Outcome ℕ
one_leader_rounds zero n r iters = fatal
one_leader_rounds (suc left) n r iters =
    let rest = one_leader_rounds left n r (iters + 1) in
    elim (one_leader_round n (r iters)) [
      | ok none ↦ rest
      | ok (some leader) ↦ ok leader
      | panic ↦ panic
      | _ ↦ fatal
    ]

-- Each of the ten rounds has its own readings.
unfoldable pub check_one_leader : ℕ → (ℕ → Readings) → Outcome ℕ
check_one_leader n r = one_leader_rounds 10 n r 0

-- -1 while no server was connected
unfoldable pub check_terms_from : ℕ → Readings → Outcome ℤ
check_terms_from zero r = ok minus_one
check_terms_from (suc i) r = elim (check_terms_from i r) [
  | ok term ↦
      if r.connected i
      then (if eqb_ℤ term minus_one
          then ok (r.state i).0
          else (if not (eqb_ℤ term (r.state i).0) then fatal else ok term))
      else ok term
  | _ ↦ fatal
]

unfoldable pub check_terms : ℕ → Readings → Outcome ℤ
check_terms n r = check_terms_from n r

unfoldable pub check_no_leader : ℕ → Readings → Outcome {0} Unit
check_no_leader zero r = ok tt
check_no_leader (suc i) r = elim (check_no_leader i r) [
  | ok _ ↦ if r.connected i && (r.state i).1 then fatal else ok tt
  | _ ↦ fatal
]
