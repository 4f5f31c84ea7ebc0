-- ===== src/Tester/Parts/Slots.antt =====
-- Writes into slices that start as zeros.
use pluggable_sharded_fault.Base.{
  ℕ, zero, suc, ◌+◌, ◌≡◌, ◌<◌, refl, ap, ◌∙◌, List, [], ◌∷◌, ◌++◌, arith, length, set, replicate,
}

pub set-append_left : (p q : List ℕ) (j v : ℕ) → j < length p → set (p ++ q) j v ≡ set p j v ++ q
set-append_left [] q j v h = absurd (omega arith)
set-append_left (x ∷ p) q zero v h = refl
set-append_left (x ∷ p) q (suc j) v h = ap (λ r. x ∷ r) (set-append_left p q j v (omega arith))

pub set-append_right :
    (p q : List ℕ) (j k v : ℕ) → j ≡ length p + k → set (p ++ q) j v ≡ p ++ set q k v
set-append_right [] q j k v e = ap (λ m. set q m v) (omega (arith, e))
set-append_right (x ∷ p) q zero k v e = absurd (omega (arith, e))
set-append_right (x ∷ p) q (suc j) k v e =
    ap (λ r. x ∷ r) (set-append_right p q j k v (omega (arith, e)))

-- The zeros that are left, after the first of them is written
pub set_next :
    (done : List ℕ) (k v : ℕ)
    → set (done ++ replicate (suc k) 0) (length done) v ≡ (done ++ (v ∷ [])) ++ replicate k 0
set_next [] k v = refl
set_next (x ∷ done) k v = ap (λ r. x ∷ r) (set_next done k v)

pub set_last : (k v : ℕ) → set (replicate (suc k) 0) k v ≡ replicate k 0 ++ (v ∷ [])
set_last zero v = refl
set_last (suc k) v = ap (λ r. 0 ∷ r) (set_last k v)

pub append_assoc : (a b c : List ℕ) → (a ++ b) ++ c ≡ a ++ (b ++ c)
append_assoc [] b c = refl
append_assoc (x ∷ a) b c = ap (λ r. x ∷ r) (append_assoc a b c)

pub append_nil : (xs : List ℕ) → xs ++ [] ≡ xs
append_nil [] = refl
append_nil (x ∷ xs) = ap (λ r. x ∷ r) (append_nil xs)

unfoldable pub zeros : ℕ → List ℕ
zeros k = replicate k 0

pub replicate-add : (a b : ℕ) → zeros a ++ zeros b ≡ zeros (a + b)
unfolding zeros
replicate-add zero b = let number : b ≡ 0 + b = omega arith in ap (λ m. replicate m 0) number
replicate-add (suc a) b =
    let number : suc (a + b) ≡ suc a + b = omega arith in
    ap (λ r. 0 ∷ r) (replicate-add a b) ∙ ap (λ m. replicate m 0) number
