-- ===== src/Tester/Persister.antt =====
-- `Persister` of src/tester1/persister.go. A nil slice of bytes is the empty list: no method tells
-- them apart. No method writes into a slice, so that sharing one is the same as a copy.
use pluggable_sharded_fault.Base.{ℕ, ◌≡◌, refl, ap, List, [], ◌∷◌, length}

pub record Persister : Type 0 where
  pub raftstate : List ℕ
  pub snapshot : List ℕ

unfoldable pub make_persister : Persister
make_persister = record { raftstate = []; snapshot = [] }

-- The copy, byte for byte
unfoldable pub clone : List ℕ → List ℕ
clone [] = []
clone (b ∷ orig) = b ∷ clone orig

unfoldable pub copy_persister : Persister → Persister
copy_persister ps = record make_persister { raftstate = ps.raftstate; snapshot = ps.snapshot }

unfoldable pub read_raft_state : Persister → List ℕ
read_raft_state ps = clone ps.raftstate

unfoldable pub raft_state_size : Persister → ℕ
raft_state_size ps = length ps.raftstate

unfoldable pub save : List ℕ → List ℕ → Persister → Persister
save raftstate snapshot ps = record ps { raftstate = clone raftstate; snapshot = clone snapshot }

unfoldable pub read_snapshot : Persister → List ℕ
read_snapshot ps = clone ps.snapshot

unfoldable pub snapshot_size : Persister → ℕ
snapshot_size ps = length ps.snapshot

clone_eq : (bytes : List ℕ) → clone bytes ≡ bytes
unfolding clone
clone_eq [] = refl
clone_eq (b ∷ bytes) = ap (λ l. b ∷ l) (clone_eq bytes)

-- What Save stores is what the reads of a later Copy return, with their sizes.
pub read-save :
    (raftstate snapshot : List ℕ) (ps : Persister)
    → (read_raft_state (copy_persister (save raftstate snapshot ps)) ≡ raftstate)
      × (read_snapshot (copy_persister (save raftstate snapshot ps)) ≡ snapshot)
      × (raft_state_size (copy_persister (save raftstate snapshot ps)) ≡ length raftstate)
      × (snapshot_size (copy_persister (save raftstate snapshot ps)) ≡ length snapshot)
unfolding read_raft_state read_snapshot raft_state_size snapshot_size copy_persister save
read-save raftstate snapshot ps =
    rw (clone_eq raftstate, clone_eq snapshot) (clone_eq raftstate, clone_eq snapshot, refl, refl)
