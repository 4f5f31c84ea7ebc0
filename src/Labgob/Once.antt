-- ===== src/Labgob/Once.antt =====
-- What a check of a type leaves, against the types below it.
use pluggable_sharded_fault.Base.{
  ℕ, ◌+◌, ◌<◌, ◌≡◌, refl, inl, inr, Bool, true, false, not, some, List, [], ◌∷◌, String, mem,
  nat_eq, All, Distinct, arith, total_disjoint, eqb_iff,
}
use pluggable_sharded_fault.Labgob.{Kind, LabState, check_type}
use pluggable_sharded_fault.Labgob.Types.{
  parts, lower_sum, unchecked, AllIn-keeps, check_type-Works,
}

-- The types that a value of a type may be made of
pub data Below (kind : ℕ → Kind) (t : ℕ) : ℕ → Type 0 where
  itself : Below kind t t
  part : {u : ℕ} (v : ℕ) → Below kind t u → mem v (parts (kind u)) ≡ true → Below kind t v

-- The parts of every type that was checked were checked.
abbrev pub IsClosed : (ℕ → Kind) → LabState → Type 0
IsClosed kind s =
    (t : ℕ) → mem t s.checked ≡ true → All (λ u. mem u s.checked ≡ true) (parts (kind t))

All-mem :
    (s : LabState) (ts : List ℕ)
    → All (λ u. mem u s.checked ≡ true) ts
    → (u : ℕ) → mem u ts ≡ true
    → mem u s.checked ≡ true
All-mem s [] all u h = cc
All-mem s (t ∷ ts) (this, all) u h = ground (arith, this, h, All-mem s ts all u, eqb_iff t u)

Below-checked :
    (kind : ℕ → Kind) (s : LabState) (t : ℕ)
    → IsClosed kind s
    → mem t s.checked ≡ true
    → (u : ℕ) → Below kind t u
    → mem u s.checked ≡ true
Below-checked kind s t closed here _ itself = here
Below-checked kind s t closed here _ (part {u} v below is_part) =
    All-mem s (parts (kind u)) (closed u (Below-checked kind s t closed here u below)) v is_part

module _ (is_upper : String → Bool) (kind : ℕ → Kind) (n : ℕ)
    (small : (t : ℕ) → t < n → All (λ u. u < n) (parts (kind t))) where
  enough : (s : LabState) → unchecked is_upper kind n s < n + 1
  unfolding unchecked
  enough s = omega (arith, total_disjoint (λ t. not (mem t s.checked)) (λ t. false) n (λ t h. refl))

  again :
      (t : ℕ) (r : LabState)
      → mem t r.checked ≡ true
      → check_type is_upper kind (n + 1) t r ≡ some r
  unfolding check_type
  again t r here = ground (arith, here)

  -- Over `n` types, each made of types among them, however they refer to each other and to
  -- themselves, one goroutine checking, from a state with no type half checked (each part of a
  -- checked type is checked) and none listed twice: `n + 1` nested calls are enough for `checkType` to end. Every type below the one
  -- given is then checked, none twice, the errors have grown by exactly the lower-case fields of
  -- the types that were checked now, and checking the type again does nothing.
  pub check_type-IsClosed :
      (t : ℕ) (s : LabState)
      → t < n
      → IsClosed kind s
      → Distinct s.checked
      → (r : LabState) × (check_type is_upper kind (n + 1) t s ≡ some r)
        × IsClosed kind r
        × Distinct r.checked
        × ((u : ℕ) → Below kind t u → mem u r.checked ≡ true)
        × (r.error_count + lower_sum is_upper kind n s.checked
            ≡ s.error_count + lower_sum is_upper kind n r.checked)
        × (check_type is_upper kind (n + 1) t r ≡ some r)
  check_type-IsClosed t s less closed once =
      let (r, done, c, here) = check_type-Works is_upper kind n small (n + 1) t s less (enough s) in
      let after : IsClosed kind r = λ u h. elim (c.below u h) [
        | inr all ↦ all
        | inl was ↦ AllIn-keeps is_upper kind n s r (parts (kind u)) c.keeps (closed u was)
      ] in
      (
        r,
        done,
        after,
        c.once once,
        Below-checked kind r t after here,
        omega (arith, c.counts),
        again t r here,
      )
