-- ===== src/RaftTest/Logs.antt =====
-- The copies of the committed entries that the harness keeps, src/raft1/server.go, and the checks
-- on them of src/raft1/test.go. What an error message says is not kept: where one is set, the
-- code calls `log.Fatalf` next, and the process ends.
pub mod Agree
pub mod Count
use pluggable_sharded_fault.Base.{
  ℕ, zero, suc, ◌+◌, ◌-◌, ◌%◌, ◌^◌, ◌≡◌, ◌↔◌, refl, Bool, true, false, ◌&&◌, ◌||◌, not, Option,
  none, some, List, [], ◌∷◌, ◌++◌, ℤ, pos, negsuc, minus_one, pos_part, neg_part, incr, Map, insert,
  lookup, has, arith, eqb, ltb, ltb_ℤ, eqb_ℤ, if◌then◌else◌, Outcome, ok, panic, fatal, length,
  get_elem?, set, Comparable, ◌==◌, int_eq, nat_eq, eqb_iff,
}
use pluggable_sharded_fault.Raft.Peer.{Raft, get_state}
use pluggable_sharded_fault.Tester.Persister.{Persister, save, read_raft_state, read_snapshot}

-- Go's `any`, for a command: `none` is nil.
abbrev pub Command : Type 0
Command = Option ℕ

abbrev same_command : Command → Command → Bool
same_command none none = true
same_command (some a) (some b) = eqb a b
same_command _ _ = false

pub same_command_iff : (a b : Command) → (same_command a b ≡ true) ↔ (a ≡ b)
same_command_iff none none = (λ h. refl, λ h. refl)
same_command_iff none (some b) = (λ h. cc, λ h. cc)
same_command_iff (some a) none = (λ h. cc, λ h. cc)
same_command_iff (some a) (some b) =
    (λ h. ground (arith, eqb_iff a b), λ h. ground (arith, eqb_iff a b))

instance abbrev pub command_eq : Comparable Command
command_eq = record { same = same_command; same_iff = same_command_iff }

-- `SnapshotTerm` is read nowhere. A nil slice of bytes is `none`.
pub record ApplyMsg : Type 0 where
  pub command_valid : Bool
  pub command : Command
  pub command_index : ℤ
  pub snapshot_valid : Bool
  pub snapshot : Option (List ℕ)
  pub snapshot_index : ℤ

pub record Rfsrv : Type 0 where
  pub me : ℕ
  pub apply_err : Bool
  pub last_applied : ℤ
  pub persister : Option Persister
  pub raft : Option Raft
  pub logs : Map ℤ Command

pub record Test : Type 0 where
  pub n : ℕ
  pub finished : Bool
  pub srvs : List Rfsrv
  pub max_index : ℤ
  pub snapshot : Bool

unfoldable pub rfsrv_logs : ℤ → Rfsrv → Option Command
rfsrv_logs i rs = lookup i rs.logs

-- A killed server has no Raft, and its method call panics.
unfoldable pub rfsrv_get_state : Rfsrv → Outcome (ℤ × Bool)
rfsrv_get_state rs = elim rs.raft [ none ↦ panic | some rf ↦ ok (get_state rf) ]

unfoldable pub rfsrv_raft : Rfsrv → Option Raft
rfsrv_raft rs = rs.raft

unfoldable pub check_finished : Test → Bool
check_finished ts = ts.finished

-- `n - 1` on an `int`
unfoldable pub decr : ℤ → ℤ
decr (pos zero) = minus_one
decr (pos (suc n)) = pos n
decr (negsuc n) = if ltb n (2 ^ 63 - 1) then negsuc (n + 1) else pos (2 ^ 63 - 1)

-- Some server has another command at the index.
unfoldable pub disagrees : ℤ → Command → List Rfsrv → Bool
disagrees index v [] = false
disagrees index v (rs ∷ srvs) =
    let rest = disagrees index v srvs in
    elim (rfsrv_logs index rs) [ none ↦ rest | some old ↦ not (old == v) || rest ]

-- Whether there was an error, and whether the entry before the message's is there
unfoldable pub check_logs : ℕ → ApplyMsg → Test → Outcome (Test × Bool × Bool)
check_logs i m ts = elim (get_elem? ts.srvs i) [
  | none ↦ panic
  | some me ↦ ok (
    record ts {
      srvs = set ts.srvs i (record me { logs = insert m.command_index m.command me.logs });
      max_index = if ltb_ℤ ts.max_index m.command_index then m.command_index else ts.max_index;
    },
    disagrees m.command_index m.command ts.srvs,
    has (decr m.command_index) me.logs,
  )
]

-- One message of `applier`
unfoldable pub applier : ℕ → ApplyMsg → Test → Outcome Test
applier i m ts =
    if m.command_valid
    then elim (check_logs i m ts) [
      | ok (checked, wrong, before) ↦
          if wrong || (ltb_ℤ (pos 1) m.command_index && not before) then fatal else ok checked
      | _ ↦ panic
    ]
    else ok ts

-- The loop of `nCommitted` over the servers, with `count` and `cmd` so far
unfoldable pub n_committed_from : ℤ → ℕ → Command → List Rfsrv → Outcome (ℕ × Command)
n_committed_from index count cmd [] = ok (count, cmd)
n_committed_from index count cmd (rs ∷ srvs) =
    if rs.apply_err then fatal else elim (rfsrv_logs index rs) [
      | none ↦ n_committed_from index count cmd srvs
      | some cmd1 ↦
          if ltb 0 count && not (cmd == cmd1)
          then fatal
          else n_committed_from index (count + 1) cmd1 srvs
    ]

unfoldable pub n_committed : ℤ → Test → Outcome (ℕ × Command)
n_committed index ts = n_committed_from index 0 none ts.srvs

unfoldable pub check_no_agreement : ℤ → Test → Outcome {0} Unit
check_no_agreement index ts = elim (n_committed index ts) [
  | ok (n, cmd) ↦ if ltb 0 n then fatal else ok tt
  | _ ↦ fatal
]
