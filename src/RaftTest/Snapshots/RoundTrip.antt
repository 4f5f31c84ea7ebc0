-- ===== src/RaftTest/Snapshots/RoundTrip.antt =====
-- What a server takes from a snapshot is what another one put into it.
use pluggable_sharded_fault.Base.{
  ℕ, zero, suc, ◌+◌, ◌-◌, ◌^◌, ◌<◌, ◌≡◌, refl, ap, ◌∙◌, Option, none, some, List, [], ◌∷◌, ◌++◌, ℤ,
  pos, minus_one, incr, Map, lookup, insert, lookup-insert, arith, ltb, eqb, eqb_iff, eqb_ℤ_iff,
  if◌then◌else◌, ok, get_elem?, length, length-append, int_eq, ◌⊎◌,
}
use pluggable_sharded_fault.RaftTest.Logs.{Command, Rfsrv}
use pluggable_sharded_fault.RaftTest.Snapshots.{log_upto, logs_of, ingest_snap, snapshot_of}

-- An entry as Go's `logs[j]` reads it: nil when it is missing.
abbrev pub entry : Map ℤ Command → ℕ → Command
entry logs j = elim (lookup (pos j) logs) [ none ↦ none | some v ↦ v ]

module _ {ℓ} {A : Type ℓ} where
  get_elem?-last :
      (xs : List A) (x : A) (j : ℕ)
      → get_elem? (xs ++ (x ∷ [])) j ≡ (
          if ltb j (length xs)
          then get_elem? xs j
          else (if eqb j (length xs) then some x else none))
  get_elem?-last [] x zero = ground arith
  get_elem?-last [] x (suc j) = ground arith
  get_elem?-last (y ∷ xs) x zero = ground arith
  get_elem?-last (y ∷ xs) x (suc j) = ground (arith, get_elem?-last xs x j)

length-log_upto : (logs : Map ℤ Command) (n : ℕ) → length (log_upto logs n) ≡ n
unfolding log_upto
length-log_upto logs zero = refl
length-log_upto logs (suc n) =
    ground (arith, length-log_upto logs n, length-append (log_upto logs n) (entry logs n ∷ []))

get_elem?-log_upto :
    (logs : Map ℤ Command) (n j : ℕ)
    → get_elem? (log_upto logs n) j ≡ (if ltb j n then some (entry logs j) else none)
unfolding log_upto
get_elem?-log_upto logs zero j = ground arith
get_elem?-log_upto logs (suc n) j = ground (
  arith,
  get_elem?-log_upto logs n j,
  get_elem?-last (log_upto logs n) (entry logs n) j,
  length-log_upto logs n,
  eqb_iff j n,
)

lookup_below :
    (s : ℕ) (xs : List Command) (m : Map ℤ Command) (j : ℕ)
    → j < s
    → lookup (pos j) (logs_of s xs m) ≡ lookup (pos j) m
unfolding logs_of
lookup_below s [] m j h = refl
lookup_below s (x ∷ xs) m j h = ground (
  arith,
  h,
  lookup_below (s + 1) xs (insert (pos s) x m) j,
  lookup-insert (pos s) (pos j) x m,
  eqb_iff s j,
)

lookup_at :
    (s : ℕ) (xs : List Command) (m : Map ℤ Command) (d j : ℕ)
    → j ≡ s + d
    → lookup (pos j) (logs_of s xs m)
      ≡ elim (get_elem? xs d) [ none ↦ lookup (pos j) m | some v ↦ some v ]
unfolding logs_of
lookup_at s [] m d j h = refl
lookup_at s (x ∷ xs) m zero j h = ground (
  arith,
  h,
  lookup_below (s + 1) xs (insert (pos s) x m) j,
  lookup-insert (pos s) (pos j) x m,
  eqb_iff s j,
)
lookup_at s (x ∷ xs) m (suc d) j h = ground (
  arith,
  h,
  lookup_at (s + 1) xs (insert (pos s) x m) d j,
  lookup-insert (pos s) (pos j) x m,
  eqb_iff s j,
)

-- The copy after the snapshot, entry by entry
shown :
    (logs : Map ℤ Command) (k j : ℕ)
    → lookup (pos j) (logs_of 0 (log_upto logs (k + 1)) [])
      ≡ (if ltb k j then none else some (entry logs j))
unfolding lookup
shown logs k j =
    ground (arith, lookup_at 0 (log_upto logs (k + 1)) [] j j, get_elem?-log_upto logs (k + 1) j)

module _ (encode : ℤ → List Command → List ℕ) (decode : List ℕ → Option (ℤ × List Command))
    (decodes : (i : ℤ) (xlog : List Command) → decode (encode i xlog) ≡ some (i, xlog)) where
  -- Where decoding undoes encoding, a server that takes in the snapshot that another one made at an
  -- index, as the snapshot of that index or as a saved one, does not fail. It has then applied that
  -- index, and its copy has the other's commands up to the index, nil for a missing one, and no
  -- others. The next index is an `int`.
  pub ingest_snap-snapshot_of :
      (k : ℕ) (index : ℤ) (a b : Rfsrv)
      → k < 2 ^ 63 - 1
      → (index ≡ pos k) ⊎ (index ≡ minus_one)
      → (r : Rfsrv) × (ingest_snap decode (some (snapshot_of encode (pos k) a)) index b ≡ ok r)
        × (r.last_applied ≡ pos k)
        × ((j : ℕ) → lookup (pos j) r.logs ≡ (if ltb k j then none else some (entry a.logs j)))
  unfolding ingest_snap snapshot_of incr
  ingest_snap-snapshot_of k index a b small which =
      let xlog : List Command = log_upto a.logs (k + 1) in
      let bytes : snapshot_of encode (pos k) a ≡ encode (pos k) xlog = ground (arith, small) in
      let read : decode (snapshot_of encode (pos k) a) ≡ some (pos k, xlog) =
        ap decode bytes ∙ decodes (pos k) xlog in
      let r : Rfsrv = record b { logs = logs_of 0 xlog []; last_applied = pos k } in
      (
        r,
        ground (arith, read, which, eqb_ℤ_iff index minus_one, eqb_ℤ_iff index (pos k)),
        refl,
        shown a.logs k,
      )
