-- ===== src/Base/Lists.antt =====
-- Lists measured and indexed by native numbers, membership as a test, and occurrence counts.
use Prim.Native.Nat.{ℕ, zero, suc, ◌+◌, ◌≤◌, ◌<◌}
use mathlib.Core.Path.{◌≡◌, refl, ap}
use mathlib.Core.Bool.{Bool, false, ◌||◌}
use mathlib.Core.List.{List, [], ◌∷◌, ◌++◌}
use mathlib.Core.Option.{Option, none, some}
use native.Mathlib.Omega.{arith}
use pluggable_sharded_fault.Base.Tests.{if◌then◌else◌, eqb}
use pluggable_sharded_fault.Base.Keys.{Comparable, ◌==◌}

module _ {ℓ} {A : Type ℓ} where
  abbrev pub length : List A → ℕ
  length [] = 0
  length (x ∷ xs) = suc (length xs)

  abbrev pub get_elem? : List A → ℕ → Option A
  get_elem? [] i = none
  get_elem? (x ∷ xs) zero = some x
  get_elem? (x ∷ xs) (suc i) = get_elem? xs i

  -- A write out of bounds changes nothing.
  abbrev pub set : List A → ℕ → A → List A
  set [] i v = []
  set (x ∷ xs) zero v = v ∷ xs
  set (x ∷ xs) (suc i) v = x ∷ set xs i v

  pub length-append : (xs ys : List A) → length (xs ++ ys) ≡ length xs + length ys
  length-append [] ys = omega arith
  length-append (x ∷ xs) ys = omega (arith, length-append xs ys)

  pub length-set : (xs : List A) (i : ℕ) (v : A) → length (set xs i v) ≡ length xs
  length-set [] i v = refl
  length-set (x ∷ xs) zero v = refl
  length-set (x ∷ xs) (suc i) v = ap suc (length-set xs i v)

  abbrev pub All {κ} : (A → Type κ) → List A → Type κ
  All P [] = Unit
  All P (x ∷ xs) = P x × All P xs

module _ {ℓ} {A : Type ℓ} ⦃e : Comparable A⦄ where
  abbrev pub mem : A → List A → Bool
  mem a [] = false
  mem a (x ∷ xs) = x == a || mem a xs

  abbrev pub count : A → List A → ℕ
  count a [] = 0
  count a (x ∷ xs) = (if x == a then 1 else 0) + count a xs

  abbrev pub Distinct : List A → Type 0
  Distinct [] = Unit
  Distinct (x ∷ xs) = (mem x xs ≡ false) × Distinct xs

  pub count-le-length : (a : A) (xs : List A) → count a xs ≤ length xs
  count-le-length a [] = omega arith
  count-le-length a (x ∷ xs) = ground (arith, count-le-length a xs)

  -- Taking one item's place changes two counts by one.
  pub count-set :
      (a : A) (xs : List A) (i : ℕ) (v : A) {w : A}
      → get_elem? xs i ≡ some w
      → count a (set xs i v) + (if w == a then 1 else 0) ≡ count a xs + (if v == a then 1 else 0)
  count-set a [] i v h = ground arith
  count-set a (x ∷ xs) zero v h = ground arith
  count-set a (x ∷ xs) (suc i) v {w} h = omega (arith, count-set a xs i v h)

module _ {ℓ} {A : Type ℓ} where
  abbrev pub replicate : ℕ → A → List A
  replicate zero a = []
  replicate (suc n) a = a ∷ replicate n a

  pub length-replicate : (n : ℕ) (a : A) → length (replicate n a) ≡ n
  length-replicate zero a = refl
  length-replicate (suc n) a = ap suc (length-replicate n a)

  pub get_elem?-lt : (xs : List A) (i : ℕ) → i < length xs → (a : A) × (get_elem? xs i ≡ some a)
  get_elem?-lt [] i h = absurd (omega arith)
  get_elem?-lt (x ∷ xs) zero h = (x, refl)
  get_elem?-lt (x ∷ xs) (suc i) h = get_elem?-lt xs i (omega arith)

  -- A write in bounds is read where it was made, and nowhere else.
  pub get_elem?-set_lt :
      (xs : List A) (i j : ℕ) (v : A)
      → i < length xs
      → get_elem? (set xs i v) j ≡ (if eqb i j then some v else get_elem? xs j)
  get_elem?-set_lt [] i j v h = absurd (omega arith)
  get_elem?-set_lt (x ∷ xs) zero zero v h = refl
  get_elem?-set_lt (x ∷ xs) zero (suc j) v h = ground arith
  get_elem?-set_lt (x ∷ xs) (suc i) zero v h = ground arith
  get_elem?-set_lt (x ∷ xs) (suc i) (suc j) v h =
      ground (arith, get_elem?-set_lt xs i j v (omega arith))

  pub get_elem?-replicate : (n i : ℕ) (v : A) → i < n → get_elem? (replicate n v) i ≡ some v
  get_elem?-replicate zero i v h = absurd (omega arith)
  get_elem?-replicate (suc n) zero v h = refl
  get_elem?-replicate (suc n) (suc i) v h = get_elem?-replicate n i v (omega arith)

  -- A list of one item over and over
  pub replicate_ext :
      (n : ℕ) (xs : List A) (v : A)
      → length xs ≡ n
      → ((i : ℕ) → i < n → get_elem? xs i ≡ some v)
      → xs ≡ replicate n v
  replicate_ext zero [] v h at = refl
  replicate_ext zero (x ∷ xs) v h at = absurd (omega (arith, h))
  replicate_ext (suc n) [] v h at = absurd (omega (arith, h))
  replicate_ext (suc n) (x ∷ xs) v h at =
      let tail = replicate_ext n xs v (omega (arith, h)) (λ i l. at (suc i) (omega (arith, l))) in
      let head : x ≡ v = ground (arith, at 0 (omega arith)) in ground (arith, head, tail)
