-- ===== src/RaftTest/Snapshots.antt =====
-- The servers of the harness that take snapshots, src/raft1/server.go. The bytes of a snapshot are
-- those of `labgob`: `encode` and `decode` are parameters.
pub mod Adds
pub mod RoundTrip
use pluggable_sharded_fault.Base.{
  ℕ, zero, suc, ◌+◌, ◌-◌, ◌%◌, ◌^◌, ◌≡◌, ◌↔◌, refl, Bool, true, false, ◌&&◌, ◌||◌, not, Option,
  none, some, List, [], ◌∷◌, ◌++◌, ℤ, pos, negsuc, minus_one, pos_part, neg_part, incr, Map, insert,
  lookup, has, arith, eqb, ltb, ltb_ℤ, eqb_ℤ, if◌then◌else◌, Outcome, ok, panic, fatal, length,
  get_elem?, set, Comparable, ◌==◌, int_eq, nat_eq, eqb_iff,
}
use pluggable_sharded_fault.Raft.Peer.{Raft, make_raft, snapshot as raft_snapshot}
use pluggable_sharded_fault.Tester.Persister.{Persister, save, read_raft_state, read_snapshot}
use pluggable_sharded_fault.RaftTest.Logs.{
  Command, command_eq, ApplyMsg, Rfsrv, Test, decr, check_logs,
}

-- `logs[0]` to `logs[n - 1]`; a missing one is nil.
unfoldable pub log_upto : Map ℤ Command → ℕ → List Command
log_upto logs zero = []
log_upto logs (suc n) =
    log_upto logs n ++ (elim (lookup (pos n) logs) [ none ↦ none | some v ↦ v ]) ∷ []

unfoldable pub logs_of : ℕ → List Command → Map ℤ Command → Map ℤ Command
logs_of j [] logs = logs
logs_of j (v ∷ xlog) logs = logs_of (j + 1) xlog (insert (pos j) v logs)

module _ (decode : List ℕ → Option (ℤ × List Command)) where
  unfoldable pub ingest_snap : Option (List ℕ) → ℤ → Rfsrv → Outcome Rfsrv
  ingest_snap none index rs = fatal
  ingest_snap (some bytes) index rs = elim (decode bytes) [
    | none ↦ fatal
    | some (last_included, xlog) ↦
        if not (eqb_ℤ index minus_one) && not (eqb_ℤ index last_included)
        then fatal
        else ok (record rs { logs = logs_of 0 xlog []; last_applied = last_included })
  ]

  -- `newRfsrv`, with the Raft of src/raft1, and before the applier starts
  unfoldable pub new_rfsrv : ℕ → ℕ → Persister → Bool → Outcome Rfsrv
  new_rfsrv peers srv persister snapshot =
      let made : Rfsrv = record {
        me = srv;
        apply_err = false;
        last_applied = pos 0;
        persister = some persister;
        raft = some (make_raft peers srv (read_raft_state persister));
        logs = [];
      } in
      if snapshot && not (eqb (length (read_snapshot persister)) 0)
      then ingest_snap (some (read_snapshot persister)) minus_one made
      else ok made

-- The server's state is saved again as it is.
unfoldable pub rfsrv_kill : Rfsrv → Rfsrv
rfsrv_kill rs = record rs {
  raft = none;
  persister = elim rs.persister [
    | none ↦ none
    | some ps ↦ some (save (read_raft_state ps) (read_snapshot ps) ps)
  ];
}

-- What `checkLogs` leaves, and whether there was an error; at the wrong index it is not called.
unfoldable pub check_next : ℕ → ApplyMsg → Rfsrv → Test → Outcome (Test × Bool)
check_next i m rs ts =
    if eqb_ℤ m.command_index (incr rs.last_applied)
    then elim (check_logs i m ts) [
      | ok (checked, wrong, before) ↦
          ok (checked, wrong || (ltb_ℤ (pos 1) m.command_index && not before))
      | _ ↦ panic
    ]
    else ok (ts, true)

module _ (encode : ℤ → List Command → List ℕ) where
  -- What `applierSnap` gives to `Snapshot` after applying the command at an index
  unfoldable pub snapshot_of : ℤ → Rfsrv → List ℕ
  snapshot_of index rs = encode index (log_upto rs.logs (pos_part (incr index)))

  unfoldable pub take_snapshot : ℤ → Rfsrv → Outcome Rfsrv
  take_snapshot index rs =
      if eqb ((pos_part (incr index) + neg_part (incr index)) % 10) 0
      then elim rs.raft [
        | none ↦ panic
        | some rf ↦ ok (record rs { raft = some (raft_snapshot index (snapshot_of index rs) rf) })
      ]
      else ok rs

  -- An error ends the process after the snapshot was taken.
  unfoldable pub finish_command : ℕ → ApplyMsg → Test → Bool → Outcome Test
  finish_command i m checked wrong = elim (get_elem? checked.srvs i) [
    | none ↦ panic
    | some rs ↦
        elim (take_snapshot m.command_index (record rs { last_applied = m.command_index })) [
          | ok done ↦
              if wrong then fatal else ok (record checked { srvs = set checked.srvs i done })
          | _ ↦ panic
        ]
  ]

  unfoldable pub apply_command : ℕ → ApplyMsg → Rfsrv → Test → Outcome Test
  apply_command i m old ts = elim (check_next i m old ts) [
    | ok (checked, wrong) ↦ finish_command i m checked wrong
    | _ ↦ panic
  ]

module _ (encode : ℤ → List Command → List ℕ) (decode : List ℕ → Option (ℤ × List Command)) where
  -- One message of `applierSnap`, which runs only when the server had a Raft at the start
  unfoldable pub applier_snap : ℕ → ApplyMsg → Test → Outcome Test
  applier_snap i m ts = elim (get_elem? ts.srvs i) [
    | none ↦ panic
    | some rs ↦
        if m.snapshot_valid
        then elim (ingest_snap decode m.snapshot m.snapshot_index rs) [
          | ok done ↦ ok (record ts { srvs = set ts.srvs i done })
          | _ ↦ fatal
        ]
        else (if m.command_valid then apply_command encode i m rs ts else ok ts)
  ]
