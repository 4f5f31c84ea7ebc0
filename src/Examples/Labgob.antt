-- ===== src/Examples/Labgob.antt =====
-- The types of `[]map[*T]int`, where `T` is a struct with the fields `Yes` and `no` and a field
-- that leads back to `T`.
use pluggable_sharded_fault.Base.{
  ℕ, zero, suc, ◌+◌, ◌<◌, ◌≡◌, ◌↔◌, refl, Bool, true, false, none, some, [], ◌∷◌, String, mem,
  nat_eq, string_eq, ◌==◌, All, Distinct, arith,
}
use pluggable_sharded_fault.Labgob.{
  Kind, struct, slice, ptr, map_of, other, LabState, check_type, Value, fields, scalar, exported,
  embedded, check_default_1, check_default_fields, field, no_field, check_default, check_elem,
  check_fields, complain,
}
use pluggable_sharded_fault.Labgob.Types.{parts, lower_sum}
use pluggable_sharded_fault.Labgob.Once.{Below, IsClosed, check_type-IsClosed}
use pluggable_sharded_fault.Labgob.Leaves.{Near, IsOpen}
use pluggable_sharded_fault.Labgob.Values.{check_default_iff}

abbrev is_upper : String → Bool
is_upper name = name == "Yes"

abbrev kinds : ℕ → Kind
kinds zero = slice 1
kinds (suc zero) = map_of 2 3
kinds (suc (suc zero)) = other
kinds (suc (suc (suc zero))) = ptr 4
kinds (suc (suc (suc (suc t)))) = struct (("Yes", 2) ∷ ("no", 2) ∷ ("next", 3) ∷ [])

abbrev unused : LabState
unused = record { error_count = 0; checked = [] }

kinds_small : (t : ℕ) → t < 5 → All (λ u. u < 5) (parts (kinds t))
unfolding parts
kinds_small zero h = (omega arith, tt)
kinds_small (suc zero) h = (omega arith, (omega arith, tt))
kinds_small (suc (suc zero)) h = tt
kinds_small (suc (suc (suc zero))) h = (omega arith, tt)
kinds_small (suc (suc (suc (suc t)))) h = (omega arith, (omega arith, (omega arith, tt)))

unused-IsClosed : IsClosed kinds unused
unused-IsClosed t h = absurd (ground (arith, h))

check_type-IsClosed_example :
    (r : LabState) × (check_type is_upper kinds (5 + 1) 0 unused ≡ some r)
    × IsClosed kinds r
    × Distinct r.checked
    × ((u : ℕ) → Below kinds 0 u → mem u r.checked ≡ true)
    × (r.error_count + lower_sum is_upper kinds 5 unused.checked
        ≡ unused.error_count + lower_sum is_upper kinds 5 r.checked)
    × (check_type is_upper kinds (5 + 1) 0 r ≡ some r)
check_type-IsClosed_example =
    check_type-IsClosed is_upper kinds 5 kinds_small 0 unused (omega arith) unused-IsClosed tt

-- Two of the three fields begin with a lower-case letter.
check_type_test :
    check_type is_upper kinds 6 0 unused
    ≡ some (record { error_count = 2; checked = 4 ∷ 3 ∷ 2 ∷ 1 ∷ 0 ∷ [] })
unfolding check_type check_elem check_fields complain
check_type_test = refl

-- A reply that was used before, with an embedded field of an unexported type
abbrev reply : Value
reply = fields (
    field exported (scalar true)
      (field embedded (fields (field exported (scalar false) no_field)) no_field))

check_default_iff_example :
    (((r : LabState) × (check_default (some reply) unused ≡ some r))
      ↔ Near reply 1 (λ way is_zero. IsOpen way))
    × ((check_default (some reply) unused ≡ some unused)
        ↔ Near reply 1 (λ way is_zero. IsOpen way × (is_zero ≡ true)))
check_default_iff_example = check_default_iff reply unused

check_default_test :
    check_default (some reply) unused ≡ some (record { error_count = 1; checked = [] })
unfolding check_default check_default_1 check_default_fields
check_default_test = refl

-- An embedded field that is not a struct cannot be read.
check_default_panics :
    check_default (some (fields (field embedded (scalar true) no_field))) unused ≡ none
unfolding check_default check_default_1 check_default_fields
check_default_panics = refl
