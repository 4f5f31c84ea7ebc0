-- ===== src/RaftTest/Snapshots/Adds.antt =====
-- A server that takes snapshots adds the commands to its copy as one that does not.
use pluggable_sharded_fault.Base.{
  ℕ, zero, suc, ◌≡◌, ◌≢◌, refl, sym, Bool, true, false, Option, some, List, [], ◌∷◌, ℤ, pos, has,
  insert, arith, ok, get_elem?, set, Outcome-cases, int_eq, Bool-cases, Option-cases, inl, inr, ap,
  ◌∙◌, ◌<ℤ◌,
}
use mathlib.Core.Path.{subst}
use pluggable_sharded_fault.RaftTest.Logs.{
  Command, command_eq, ApplyMsg, Rfsrv, Test, decr, disagrees, check_logs,
}
use pluggable_sharded_fault.RaftTest.Snapshots.{
  take_snapshot, check_next, finish_command, apply_command, applier_snap,
}
use pluggable_sharded_fault.RaftTest.Logs.Agree.{Adds}

module _ {ℓ} {A : Type ℓ} where
  set-set : (xs : List A) (i : ℕ) (v w : A) → set (set xs i v) i w ≡ set xs i w
  set-set [] i v w = refl
  set-set (x ∷ xs) zero v w = refl
  set-set (x ∷ xs) (suc i) v w = ap (λ l. x ∷ l) (set-set xs i v w)

  get_elem?-set_same :
      (xs : List A) (i : ℕ) (v : A) {x : A}
      → get_elem? xs i ≡ some x
      → get_elem? (set xs i v) i ≡ some v
  get_elem?-set_same [] i v h = cc
  get_elem?-set_same (x ∷ xs) zero v h = refl
  get_elem?-set_same (x ∷ xs) (suc i) v h = get_elem?-set_same xs i v h

abbrev added : ApplyMsg → Rfsrv → Rfsrv
added m old = record old { logs = insert m.command_index m.command old.logs }

check_next_lem :
    (i : ℕ) (m : ApplyMsg) (old : Rfsrv) (ts checked : Test)
    → get_elem? ts.srvs i ≡ some old
    → check_next i m old ts ≡ ok (checked, false)
    → (checked.srvs ≡ set ts.srvs i (added m old))
      × (disagrees m.command_index m.command ts.srvs ≡ false)
      × (pos 1 <ℤ m.command_index → has (decr m.command_index) old.logs ≡ true)
unfolding check_next check_logs
check_next_lem i m old ts checked at h =
    (ground (arith, h, at), ground (arith, h, at), λ high. ground (arith, h, at, high))

module _ (encode : ℤ → List Command → List ℕ) (i : ℕ) (m : ApplyMsg) where
  take_snapshot-logs :
      (rs done : Rfsrv)
      → take_snapshot encode m.command_index rs ≡ ok done
      → (done.logs ≡ rs.logs) × (done.apply_err ≡ rs.apply_err)
  unfolding take_snapshot
  take_snapshot-logs rs done h = (ground (arith, h), ground (arith, h))

  finish_command_lem :
      (checked us : Test) (wrong : Bool) (rs : Rfsrv)
      → get_elem? checked.srvs i ≡ some rs
      → finish_command encode i m checked wrong ≡ ok us
      → (wrong ≡ false)
        × ((done : Rfsrv) × (done.logs ≡ rs.logs)
            × (done.apply_err ≡ rs.apply_err)
            × (us.srvs ≡ set checked.srvs i done))
  unfolding finish_command
  finish_command_lem checked us wrong rs at h =
      let last : Rfsrv = record rs { last_applied = m.command_index } in
      elim (Outcome-cases (take_snapshot encode m.command_index last)) [
        | inl (done, e) ↦ (
          ground (arith, h, at, e),
          (
            done,
            (take_snapshot-logs last done e).0,
            (take_snapshot-logs last done e).1,
            ground (arith, h, at, e),
          ),
        )
        | inr e ↦ absurd (ground (arith, h, at, e))
      ]

  finish_command-wrong : (checked us : Test) → finish_command encode i m checked true ≢ ok us
  unfolding finish_command
  finish_command-wrong checked us h = elim (Option-cases (get_elem? checked.srvs i)) [
    | inl e ↦ ground (arith, h, e)
    | inr (rs, e) ↦ cc ((finish_command_lem checked us true rs e h).0)
  ]

  apply_command-Adds :
      (old : Rfsrv) (ts us : Test)
      → get_elem? ts.srvs i ≡ some old
      → apply_command encode i m old ts ≡ ok us
      → Adds i m ts us
  unfolding apply_command
  apply_command-Adds old ts us at h = elim (Outcome-cases (check_next i m old ts)) [
    | inr e ↦ absurd (ground (arith, h, e))
    | inl ((checked, true), e) ↦ absurd (finish_command-wrong checked us (ground (arith, h, e)))
    | inl ((checked, false), e) ↦
        let (srvs, quiet, before) = check_next_lem i m old ts checked at e in
        let there : get_elem? checked.srvs i ≡ some (added m old) =
          subst (λ l. get_elem? l i ≡ some (added m old)) (sym srvs)
            (get_elem?-set_same ts.srvs i (added m old) at) in
        let (_, (done, logs, fine, ends)) =
          finish_command_lem checked us false (added m old) there (ground (arith, h, e)) in
        inr (
          old,
          done,
          at,
          ends ∙ ap (λ l. set l i done) srvs ∙ set-set ts.srvs i (added m old) done,
          logs,
          fine,
          quiet,
          before,
        )
  ]

  -- `applierSnap`, with a message that is not a snapshot
  pub applier_snap-Adds :
      (decode : List ℕ → Option (ℤ × List Command)) (ts us : Test)
      → m.snapshot_valid ≡ false
      → applier_snap encode decode i m ts ≡ ok us
      → Adds i m ts us
  unfolding applier_snap
  applier_snap-Adds decode ts us plain h = elim (Option-cases (get_elem? ts.srvs i)) [
    | inl e ↦ absurd (ground (arith, h, e))
    | inr (old, at) ↦ elim (Bool-cases m.command_valid) [
      | inr off ↦ inl (ground (arith, h, at, plain, off))
      | inl on ↦ apply_command-Adds old ts us at (ground (arith, h, at, plain, on))
    ]
  ]
