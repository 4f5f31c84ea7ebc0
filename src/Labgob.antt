-- ===== src/Labgob.antt =====
-- The checks that src/labgob/labgob.go makes before it calls gob: fields that gob leaves out, and
-- values that decoding into would not overwrite.
pub mod Leaves
pub mod Once
pub mod Types
pub mod Values
use pluggable_sharded_fault.Base.{
  ℕ, zero, suc, ◌+◌, Bool, true, false, Option, none, some, List, [], ◌∷◌, String, mem, nat_eq, ltb,
  not, ◌&&◌, if◌then◌else◌,
}

-- What `checkType` asks of a `reflect.Type`. Types are numbered, since a type may hold itself. A
-- field has its name and its type, and a map its element type and its key type.
pub data Kind : Type 0 where
  struct : List (String × ℕ) → Kind
  slice array ptr : ℕ → Kind
  map_of : ℕ → ℕ → Kind
  other : Kind

-- `checked` lists the types whose entry in the map is true.
pub record LabState : Type 0 where
  pub error_count : ℕ
  pub checked : List ℕ

-- The loop over the fields of a struct. `unicode.IsUpper` of the first rune of a name is a
-- parameter, and so is the check of a field's type.
module _ (is_upper : String → Bool) where
  unfoldable pub complain : String → LabState → LabState
  complain name s = if is_upper name then s else record s { error_count = s.error_count + 1 }

  unfoldable pub check_fields :
      (ℕ → LabState → Option LabState) → List (String × ℕ) → LabState → Option LabState
  check_fields check [] s = some s
  check_fields check ((name, t) ∷ fields) s = elim (check t (complain name s)) [
    | none ↦ none
    | some r ↦ check_fields check fields r
  ]

  unfoldable pub check_elem : (ℕ → LabState → Option LabState) → Kind → LabState → Option LabState
  check_elem check (struct fields) s = check_fields check fields s
  check_elem check (slice t) s = check t s
  check_elem check (array t) s = check t s
  check_elem check (ptr t) s = check t s
  check_elem check (map_of elem key) s = elim (check elem s) [ none ↦ none | some r ↦ check key r ]
  check_elem check other s = some s

  module _ (kind : ℕ → Kind) where
    -- `none` is running out of fuel.
    unfoldable pub check_type : ℕ → ℕ → LabState → Option LabState
    check_type zero t s = none
    check_type (suc fuel) t s = elim (mem t s.checked) [
      | true ↦ some s
      | false ↦ check_elem (check_type fuel) (kind t) (record s { checked = t ∷ s.checked })
    ]

-- A field is exported, or is not; one that is not may be embedded.
pub data FieldKind : Type 0 where
  exported hidden embedded : FieldKind

-- What `checkDefault1` asks of a `reflect.Value`: the values of a struct's fields, the value that a
-- pointer leads to, and whether a scalar is the zero value of its type. Of another value it asks
-- nothing.
mutual
  pub data Value : Type 0 where
    fields : Fields → Value
    nil_ptr opaque : Value
    ptr_to : Value → Value
    scalar : Bool → Value

  pub data Fields : Type 0 where
    no_field : Fields
    field : FieldKind → Value → Fields → Fields

-- The read-only flag of a `reflect.Value`: one that an embedded field sets is cleared at the next
-- field, and one that another field sets stays. A pointer passes it on.
pub data Flag : Type 0 where
  readable embed_ro sticky_ro : Flag

-- `Field` of `reflect`
abbrev pub enter : Flag → FieldKind → Flag
enter sticky_ro k = sticky_ro
enter readable exported = readable
enter readable hidden = sticky_ro
enter readable embedded = embed_ro
enter embed_ro exported = readable
enter embed_ro hidden = sticky_ro
enter embed_ro embedded = embed_ro

abbrev pub can_interface : Flag → Bool
can_interface readable = true
can_interface embed_ro = false
can_interface sticky_ro = false

-- The names are only printed. `none` is a panic: `reflect` refuses to read, by `Interface`, a
-- scalar whose value is read-only.
unfoldable mutual
  pub check_default_1 : Flag → ℕ → Value → LabState → Option LabState
  check_default_1 flag depth (fields fs) s =
      let rest = check_default_fields flag (depth + 1) fs s in if ltb 3 depth then some s else rest
  check_default_1 flag depth nil_ptr s = some s
  check_default_1 flag depth opaque s = some s
  check_default_1 flag depth (ptr_to v) s =
      let rest = check_default_1 flag (depth + 1) v s in if ltb 3 depth then some s else rest
  check_default_1 flag depth (scalar is_zero) s =
      if ltb 3 depth
      then some s
      else (if not (can_interface flag)
          then none
          else (if is_zero then some s else some (record s { error_count = s.error_count + 1 })))

  pub check_default_fields : Flag → ℕ → Fields → LabState → Option LabState
  check_default_fields flag depth no_field s = some s
  check_default_fields flag depth (field k v fs) s =
      elim (check_default_1 (enter flag k) depth v s) [
        | none ↦ none
        | some r ↦ check_default_fields flag depth fs r
      ]

-- `checkDefault`; a nil interface is `none`.
unfoldable pub check_default : Option Value → LabState → Option LabState
check_default none s = some s
check_default (some v) s = check_default_1 readable 1 v s
