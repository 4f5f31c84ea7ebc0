-- ===== src/Tester/Parts.antt =====
-- `MakePartition` of src/tester1/group.go: two parts of the servers, with the leader in the
-- smaller one. The slices start as zeros.
mod Slots
pub mod Cover
use pluggable_sharded_fault.Base.{
  ℕ, zero, suc, ◌+◌, ◌-◌, ◌/◌, List, [], ◌∷◌, ◌++◌, ltb, eqb, if◌then◌else◌, Outcome, ok, panic,
  fatal, stuck, length, set, replicate,
}

-- `p[i] = v`, a panic out of range
unfoldable pub assign : List ℕ → ℕ → ℕ → Outcome (List ℕ)
assign p i v = if ltb i (length p) then ok (set p i v) else panic

-- One assignment of the loop
unfoldable pub place : ℕ → ℕ → List ℕ → List ℕ → Outcome (List ℕ × List ℕ)
unfolding assign
place j i p1 p2 =
    if ltb j (length p1)
    then ok (set p1 j i, p2)
    else elim (assign p2 (j - length p1) i) [ ok q ↦ ok (p1, q) | _ ↦ panic ]

-- The loop with `left` rounds to go, at `i`.
unfoldable pub fill : ℕ → ℕ → ℕ → ℕ → List ℕ → List ℕ → Outcome (List ℕ × List ℕ)
unfolding place
fill l zero i j p1 p2 = ok (p1, p2)
fill l (suc left) i j p1 p2 =
    let skip = fill l left (i + 1) j p1 p2 in
    if eqb i l
    then skip
    else elim (place j i p1 p2) [ ok (q1, q2) ↦ fill l left (i + 1) (j + 1) q1 q2 | _ ↦ panic ]

-- `p2[len(p2)-1] = l`, where an index of -1 panics.
unfoldable pub put_last : ℕ → List ℕ → List ℕ → Outcome (List ℕ × List ℕ)
put_last l p1 [] = panic
put_last l p1 (x ∷ p2) = ok (p1, set (x ∷ p2) (length p2) l)

unfoldable pub make_partition : ℕ → ℕ → Outcome (List ℕ × List ℕ)
unfolding fill put_last
make_partition n l = elim (fill l n 0 0 (replicate (n / 2 + 1) 0) (replicate (n / 2) 0)) [
  | ok (p1, p2) ↦ put_last l p1 p2
  | _ ↦ panic
]
