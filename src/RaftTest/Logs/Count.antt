-- ===== src/RaftTest/Logs/Count.antt =====
-- What `nCommitted` counts.
use pluggable_sharded_fault.Base.{
  ℕ, zero, suc, ◌+◌, ◌≡◌, refl, false, Option, none, some, List, [], ◌∷◌, ℤ, lookup, arith,
  if◌then◌else◌, Outcome, ok, panic, fatal, get_elem?, All, if◌then◌else◌, Bool-cases,
  Outcome-cases, int_eq, Option-cases, inl, inr,
}
use mathlib.Core.Path.{subst, sym, ◌∙◌}
use pluggable_sharded_fault.RaftTest.Logs.{
  Command, command_eq, same_command_iff, ApplyMsg, Rfsrv, Test, rfsrv_logs, applier,
  n_committed_from, n_committed,
}
use pluggable_sharded_fault.RaftTest.Logs.Agree.{Agree, Calm, Sound, applier-Adds, Adds-Sound}
use pluggable_sharded_fault.RaftTest.Snapshots.{applier_snap}
use pluggable_sharded_fault.RaftTest.Snapshots.Adds.{applier_snap-Adds}

-- How many servers have an entry at the index.
unfoldable pub holders : ℤ → List Rfsrv → ℕ
holders index [] = 0
holders index (rs ∷ srvs) =
    let rest = holders index srvs in elim (lookup index rs.logs) [ none ↦ rest | some v ↦ suc rest ]

-- Every entry at the index is the command.
abbrev pub AllHold : ℤ → Command → List Rfsrv → Type 0
AllHold index cmd srvs =
    (i : ℕ) (rs : Rfsrv) (v : Command)
    → get_elem? srvs i ≡ some rs
    → lookup index rs.logs ≡ some v
    → v ≡ cmd

pub AllHold-cons :
    (index : ℤ) (cmd : Command) (rs : Rfsrv) (srvs : List Rfsrv)
    → ((v : Command) → lookup index rs.logs ≡ some v → v ≡ cmd)
    → AllHold index cmd srvs
    → AllHold index cmd (rs ∷ srvs)
AllHold-cons index cmd rs srvs head tail zero b v at found =
    let it : rs ≡ b = ground (arith, at) in
    head v (subst (λ r. lookup index r.logs ≡ some v) (sym it) found)
AllHold-cons index cmd rs srvs head tail (suc i) b v at found = tail i b v at found

-- Once an entry was counted, the others are the same.
count_rest :
    (index : ℤ) (count : ℕ) (cmd : Command) (srvs : List Rfsrv)
    → Calm srvs
    → AllHold index cmd srvs
    → n_committed_from index count cmd srvs ≡ ok (count + holders index srvs, cmd)
unfolding n_committed_from holders rfsrv_logs
count_rest index count cmd [] calm all = ground arith
count_rest index count cmd (rs ∷ srvs) calm all = elim (Option-cases (lookup index rs.logs)) [
  | inl e ↦ ground (
    arith,
    e,
    calm 0 rs refl,
    count_rest index count cmd srvs (λ i. calm (suc i)) (λ i. all (suc i)),
  )
  | inr (v, e) ↦
      let step : n_committed_from index count cmd (rs ∷ srvs)
          ≡ n_committed_from index (count + 1) cmd srvs =
        ground (arith, e, calm 0 rs refl, all 0 rs v refl e, same_command_iff cmd v) in
      let rest = count_rest index (count + 1) cmd srvs (λ i. calm (suc i)) (λ i. all (suc i)) in
      step ∙ rest ∙ ground (arith, e)
]

count_all :
    (index : ℤ) (srvs : List Rfsrv)
    → Calm srvs
    → Agree srvs
    → (cmd : Command) × (n_committed_from index 0 none srvs ≡ ok (holders index srvs, cmd))
      × AllHold index cmd srvs
unfolding n_committed_from holders rfsrv_logs
count_all index [] calm agree = (none, refl, λ i rs v at found. cc)
count_all index (rs ∷ srvs) calm agree = elim (Option-cases (lookup index rs.logs)) [
  | inl e ↦
      let (cmd, counted, all) =
        count_all index srvs (λ i. calm (suc i)) (λ i j. agree (suc i) (suc j)) in
      (
        cmd,
        ground (arith, e, calm 0 rs refl, counted),
        AllHold-cons index cmd rs srvs (λ v found. cc) all,
      )
  | inr (v, e) ↦
      let all : AllHold index v (rs ∷ srvs) =
        λ i b w at found. agree i 0 b rs index w v at refl found e in
      let rest = count_rest index 1 v srvs (λ i. calm (suc i)) (λ i. all (suc i)) in
      (v, ground (arith, e, calm 0 rs refl, rest), all)
]

-- The harness's messages, each to one server, in the order in which they are read
module _ (encode : ℤ → List Command → List ℕ) (decode : List ℕ → Option (ℤ × List Command)) where
  unfoldable pub deliver : ℕ → ApplyMsg → Test → Outcome Test
  deliver i m ts = if ts.snapshot then applier_snap encode decode i m ts else applier i m ts

  unfoldable pub deliver_all : List (ℕ × ApplyMsg) → Test → Outcome Test
  deliver_all [] ts = ok ts
  deliver_all ((i, m) ∷ ms) ts = elim (deliver i m ts) [
    | ok us ↦ deliver_all ms us
    | panic ↦ panic
    | _ ↦ fatal
  ]

  deliver-Sound :
      (i : ℕ) (m : ApplyMsg) (ts us : Test)
      → m.snapshot_valid ≡ false
      → Sound ts.srvs
      → deliver i m ts ≡ ok us
      → Sound us.srvs
  unfolding deliver
  deliver-Sound i m ts us plain sound h = elim (Bool-cases ts.snapshot) [
    | inl e ↦
        Adds-Sound i m ts us
          (applier_snap-Adds encode i m decode ts us plain (ground (arith, e, h))) sound
    | inr e ↦ Adds-Sound i m ts us (applier-Adds i m ts us (ground (arith, e, h))) sound
  ]

  deliver_all-Sound :
      (ms : List (ℕ × ApplyMsg)) (ts us : Test)
      → All (λ e. e.1.snapshot_valid ≡ false) ms
      → Sound ts.srvs
      → deliver_all ms ts ≡ ok us
      → Sound us.srvs
  unfolding deliver_all
  deliver_all-Sound [] ts us plain sound h = ground (arith, h)
  deliver_all-Sound ((i, m) ∷ ms) ts us plain sound h = elim (Outcome-cases (deliver i m ts)) [
    | inl (vs, e) ↦
        deliver_all-Sound ms vs us plain.1 (deliver-Sound i m ts vs plain.0 sound e)
          (ground (arith, e, h))
    | inr e ↦ absurd (ground (arith, e, h))
  ]

  -- After any messages with commands, to servers that started sound and whose copies the harness
  -- did not refuse, `nCommitted` never fails: it returns how many servers have an entry at the
  -- index, and the command that they all have. The copies still agree and have no gaps.
  pub n_committed_lem :
      (ms : List (ℕ × ApplyMsg)) (ts us : Test) (index : ℤ)
      → All (λ e. e.1.snapshot_valid ≡ false) ms
      → Sound ts.srvs
      → deliver_all ms ts ≡ ok us
      → Sound us.srvs
        × ((cmd : Command) × (n_committed index us ≡ ok (holders index us.srvs, cmd))
            × AllHold index cmd us.srvs)
  unfolding n_committed
  n_committed_lem ms ts us index plain sound h =
      let after = deliver_all-Sound ms ts us plain sound h in
      (after, count_all index us.srvs after.2 after.0)
