-- ===== src/Labgob/Leaves.antt =====
-- The scalars in a value, and which of them can be read.
use pluggable_sharded_fault.Base.{
  ℕ, suc, ◌+◌, ◌≤◌, ◌≡◌, refl, ◌↔◌, Bool, true, List, [], ◌∷◌, sym, inl, inr, ◌⊎◌,
}
use mathlib.Core.Path.{subst}
use pluggable_sharded_fault.Labgob.{
  FieldKind, exported, hidden, embedded, Flag, readable, embed_ro, sticky_ro, enter, can_interface,
  Value, fields, nil_ptr, opaque, ptr_to, scalar, Fields, no_field, field,
}

-- A scalar in a value: how many fields and pointers lead to it, the kinds of the fields on the way
-- to it, the outermost first, and whether the scalar is zero.
mutual
  pub data Leaf : Value → ℕ → List FieldKind → Bool → Type 0 where
    itself : (is_zero : Bool) → Leaf (scalar is_zero) 0 [] is_zero
    through :
        {v : Value} {d : ℕ} {way : List FieldKind} {is_zero : Bool}
        → Leaf v d way is_zero
        → Leaf (ptr_to v) (suc d) way is_zero
    inside :
        {fs : Fields} {d : ℕ} {way : List FieldKind} {is_zero : Bool}
        → FieldLeaf fs d way is_zero
        → Leaf (fields fs) (suc d) way is_zero

  pub data FieldLeaf : Fields → ℕ → List FieldKind → Bool → Type 0 where
    first :
        {v : Value} {fs : Fields} {d : ℕ} (k : FieldKind) {way : List FieldKind} {is_zero : Bool}
        → Leaf v d way is_zero
        → FieldLeaf (field k v fs) d (k ∷ way) is_zero
    next :
        {v : Value} {fs : Fields} {d : ℕ} (k : FieldKind) {way : List FieldKind} {is_zero : Bool}
        → FieldLeaf fs d way is_zero
        → FieldLeaf (field k v fs) d way is_zero

-- No field on the way is hidden, and the last, if there is one, is exported.
abbrev pub IsOpen : List FieldKind → Type 0
IsOpen [] = Unit {0}
IsOpen (exported ∷ way) = IsOpen way
IsOpen (hidden ∷ way) = ⊥
IsOpen (embedded ∷ []) = ⊥
IsOpen (embedded ∷ (k ∷ way)) = IsOpen (k ∷ way)

abbrev pub flag_after : Flag → List FieldKind → Flag
flag_after flag [] = flag
flag_after flag (k ∷ way) = flag_after (enter flag k) way

-- The flag lets a scalar at the end of the way be read.
abbrev pub Reads : Flag → List FieldKind → Type 0
Reads flag way = can_interface (flag_after flag way) ≡ true

Reads-sticky_ro : (way : List FieldKind) → Reads sticky_ro way → ⊥
Reads-sticky_ro [] h = cc
Reads-sticky_ro (k ∷ way) h = Reads-sticky_ro way h

-- The flag of an embedded field is cleared by a next one.
Reads-embed_ro :
    (k : FieldKind) (way : List FieldKind) → Reads embed_ro (k ∷ way) ≡ Reads readable (k ∷ way)
Reads-embed_ro exported way = refl
Reads-embed_ro hidden way = refl
Reads-embed_ro embedded way = refl

pub flag_after_iff : (way : List FieldKind) → Reads readable way ↔ IsOpen way
flag_after_iff [] = (λ h. tt, λ h. refl)
flag_after_iff (exported ∷ way) = flag_after_iff way
flag_after_iff (hidden ∷ way) = (λ h. Reads-sticky_ro way h, λ h. absurd h)
flag_after_iff (embedded ∷ []) = (λ h. cc, λ h. absurd h)
flag_after_iff (embedded ∷ (k ∷ way)) =
    let on = flag_after_iff (k ∷ way) in
    (
      λ h. on.0 (subst (λ T. T) (Reads-embed_ro k way) h),
      λ h. subst (λ T. T) (sym (Reads-embed_ro k way)) (on.1 h),
    )

-- Every scalar that the check comes to, from a depth on, has the property.
abbrev pub Near : Value → ℕ → (List FieldKind → Bool → Type 0) → Type 0
Near v k P =
    (d : ℕ) (way : List FieldKind) (is_zero : Bool)
    → Leaf v d way is_zero
    → k + d ≤ 3
    → P way is_zero

abbrev pub NearFields : Fields → ℕ → (List FieldKind → Bool → Type 0) → Type 0
NearFields fs k P =
    (d : ℕ) (way : List FieldKind) (is_zero : Bool)
    → FieldLeaf fs d way is_zero
    → k + d ≤ 3
    → P way is_zero

pub bare_nil : {d : ℕ} {e : List FieldKind} {z : Bool} → Leaf nil_ptr d e z → ⊥
bare_nil l = elim l [ ]

pub bare_opaque : {d : ℕ} {e : List FieldKind} {z : Bool} → Leaf opaque d e z → ⊥
bare_opaque l = elim l [ ]

pub bare_end : {d : ℕ} {e : List FieldKind} {z : Bool} → FieldLeaf no_field d e z → ⊥
bare_end l = elim l [ ]

pub Leaf-ptr_to :
    {v : Value} {d : ℕ} {e : List FieldKind} {z : Bool}
    → Leaf (ptr_to v) d e z
    → (c : ℕ) × (d ≡ suc c) × Leaf v c e z
Leaf-ptr_to (through l) = (_, refl, l)

pub Leaf-fields :
    {fs : Fields} {d : ℕ} {e : List FieldKind} {z : Bool}
    → Leaf (fields fs) d e z
    → (c : ℕ) × (d ≡ suc c) × FieldLeaf fs c e z
Leaf-fields (inside l) = (_, refl, l)

pub Leaf-scalar :
    {b : Bool} {d : ℕ} {e : List FieldKind} {z : Bool}
    → Leaf (scalar b) d e z
    → (d ≡ 0) × (e ≡ []) × (z ≡ b)
Leaf-scalar (itself b) = (refl, refl, refl)

pub FieldLeaf-field :
    {k : FieldKind} {v : Value} {fs : Fields} {d : ℕ} {e : List FieldKind} {z : Bool}
    → FieldLeaf (field k v fs) d e z
    → ((way : List FieldKind) × (e ≡ k ∷ way) × Leaf v d way z) ⊎ FieldLeaf fs d e z
FieldLeaf-field (first k {way} l) = inl (way, refl, l)
FieldLeaf-field (next k l) = inr l
