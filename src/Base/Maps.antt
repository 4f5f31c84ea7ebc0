-- ===== src/Base/Maps.antt =====
-- Go's maps as association lists. Iteration follows the list: an arbitrary order that the
-- program cannot rely on. A write keeps the place of its key, so the keys stay distinct.
use mathlib.Core.Path.{◌≡◌, refl}
use mathlib.Core.Logic.{inl, inr, ◌↔◌}
use mathlib.Core.Bool.{Bool, true, false, ◌||◌}
use mathlib.Core.List.{List, [], ◌∷◌}
use mathlib.Core.Option.{Option, none, some}
use native.Mathlib.Omega.{arith}
use pluggable_sharded_fault.Base.Tests.{if◌then◌else◌, Bool-cases}
use pluggable_sharded_fault.Base.Keys.{Comparable, ◌==◌}
use pluggable_sharded_fault.Base.Lists.{mem, Distinct}

abbrev pub Map {ℓ κ} : Type ℓ → Type κ → Type (ℓ ⊔ κ)
Map K V = List (K × V)

abbrev pub keys {ℓ κ} : {K : Type ℓ} {V : Type κ} → Map K V → List K
keys [] = []
keys ((k, v) ∷ m) = k ∷ keys m

module _ {ℓ κ} {K : Type ℓ} {V : Type κ} ⦃e : Comparable K⦄ where
  -- `v, ok := m[k]`
  unfoldable pub lookup : K → Map K V → Option V
  lookup k [] = none
  lookup k ((j, v) ∷ m) = if j == k then some v else lookup k m

  -- `_, ok := m[k]`
  abbrev pub has : K → Map K V → Bool
  has k m = mem k (keys m)

  -- `m[k] = v`
  unfoldable pub insert : K → V → Map K V → Map K V
  insert k v [] = (k, v) ∷ []
  insert k v (entry ∷ rest) = if entry.0 == k then (k, v) ∷ rest else entry ∷ insert k v rest

  -- `delete(m, k)`
  unfoldable pub delete : K → Map K V → Map K V
  delete k [] = []
  delete k ((j, w) ∷ m) = let rest = delete k m in if j == k then rest else (j, w) ∷ rest

  -- `m[k]`, with Go's zero value on a missing key
  abbrev pub get_or : K → V → Map K V → V
  get_or k d m = elim (lookup k m) [ none ↦ d | some v ↦ v ]

  pub lookup-insert :
      (key other : K) (new : V) (m : Map K V)
      → lookup other (insert key new m) ≡ (if key == other then some new else lookup other m)
  unfolding lookup insert
  lookup-insert key other new [] = refl
  lookup-insert key other new ((i, w) ∷ rest) = ground (
    arith,
    lookup-insert key other new rest,
    e.same_iff key other,
    e.same_iff i key,
    e.same_iff i other,
  )

  pub lookup-delete :
      (k j : K) (m : Map K V) → lookup j (delete k m) ≡ (if k == j then none else lookup j m)
  unfolding lookup delete
  lookup-delete k j [] = ground arith
  lookup-delete k j ((i, w) ∷ m) =
      ground (arith, e.same_iff k j, e.same_iff i k, e.same_iff i j, lookup-delete k j m)

  pub has-insert : (k j : K) (v : V) (m : Map K V) → has j (insert k v m) ≡ (k == j || has j m)
  unfolding insert
  has-insert k j v [] = refl
  has-insert k j v ((i, w) ∷ m) =
      ground (arith, e.same_iff k j, e.same_iff i k, e.same_iff i j, has-insert k j v m)

  pub has-delete :
      (k j : K) (m : Map K V) → has j (delete k m) ≡ (if k == j then false else has j m)
  unfolding delete
  has-delete k j [] = ground arith
  has-delete k j ((i, w) ∷ m) =
      ground (arith, e.same_iff k j, e.same_iff i k, e.same_iff i j, has-delete k j m)

  pub insert-Distinct :
      (k : K) (v : V) (m : Map K V) → Distinct (keys m) → Distinct (keys (insert k v m))
  unfolding insert
  insert-Distinct k v [] h = (refl, tt)
  insert-Distinct k v ((i, w) ∷ m) h =
      ground (arith, e.same_iff i k, e.same_iff k i, has-insert k i v m, insert-Distinct k v m h.1)

  pub delete-Distinct : (k : K) (m : Map K V) → Distinct (keys m) → Distinct (keys (delete k m))
  unfolding delete
  delete-Distinct k [] h = tt
  delete-Distinct k ((i, w) ∷ m) h = ground (arith, has-delete k i m, delete-Distinct k m h.1)

  -- A key that is present is the key of an entry.
  pub has-lookup : (k : K) (m : Map K V) → has k m ≡ true → (v : V) × (lookup k m ≡ some v)
  unfolding lookup
  has-lookup k [] h = absurd (ground arith)
  has-lookup k ((j, v) ∷ m) h = elim (Bool-cases (j == k)) [
    | inl same ↦ (v, rw same)
    | inr other ↦ rw other (has-lookup k m (ground arith))
  ]

  pub lookup-has : (k : K) (m : Map K V) (v : V) → lookup k m ≡ some v → has k m ≡ true
  unfolding lookup
  lookup-has k [] v h = cc
  lookup-has k ((j, w) ∷ m) v h = ground (arith, lookup-has k m v)

  -- A key is missing exactly when its lookup fails.
  pub lookup-none_iff : (k : K) (m : Map K V) → (lookup k m ≡ none) ↔ (has k m ≡ false)
  unfolding lookup
  lookup-none_iff k [] = (λ _. refl, λ _. refl)
  lookup-none_iff k ((j, w) ∷ m) =
      (λ h. ground (arith, (lookup-none_iff k m).0), λ h. ground (arith, (lookup-none_iff k m).1))
