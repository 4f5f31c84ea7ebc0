-- ===== src/Labgob/Values.antt =====
-- What the check of a value finds.
use pluggable_sharded_fault.Base.{
  ℕ, suc, ◌+◌, ◌≤◌, ◌≡◌, refl, ap, ◌∙◌, ◌↔◌, Bool, true, some, List, [], ◌∷◌, sym, ltb, arith,
  Bool-cases, Option-cases, inl, inr,
}
use mathlib.Core.Path.{subst}
use pluggable_sharded_fault.Labgob.{
  LabState, FieldKind, Flag, readable, enter, can_interface, Value, fields, nil_ptr, opaque, ptr_to,
  scalar, Fields, no_field, field, check_default_1, check_default_fields, check_default,
}
use pluggable_sharded_fault.Labgob.Leaves.{
  itself, through, inside, first, next, IsOpen, Reads, flag_after_iff, Near, NearFields, bare_nil,
  bare_opaque, bare_end, Leaf-ptr_to, Leaf-fields, Leaf-scalar, FieldLeaf-field,
}

-- What a check that returns says of a scalar
abbrev Seen : Flag → LabState → LabState → List FieldKind → Bool → Type 0
Seen flag s r way is_zero = Reads flag way × (r.error_count ≡ s.error_count → is_zero ≡ true)

-- A check that returns never takes an error back, and tells of the scalars that it came to.
mutual
  unfolding check_default_1 check_default_fields

  check_default_1-Seen :
      (flag : Flag) (k : ℕ) (v : Value) (s r : LabState)
      → check_default_1 flag k v s ≡ some r
      → (s.error_count ≤ r.error_count) × Near v k (Seen flag s r)
  check_default_1-Seen flag k (fields fs) s r h = elim (Bool-cases (ltb 3 k)) [
    | inl deep ↦ (
      ground (arith, h, deep),
      λ d e z l near. let (c, more, _) = Leaf-fields l in absurd (ground (arith, deep, near)),
    )
    | inr shallow ↦
        let (grows, all) =
          check_default_fields-Seen flag (k + 1) fs s r (ground (arith, h, shallow)) in
        (
          grows,
          λ d e z l near.
              let (c, more, leaf) = Leaf-fields l in all c e z leaf (omega (arith, more, near)),
        )
  ]
  check_default_1-Seen flag k nil_ptr s r h =
      (ground (arith, h), λ d e z l near. absurd (bare_nil l))
  check_default_1-Seen flag k opaque s r h =
      (ground (arith, h), λ d e z l near. absurd (bare_opaque l))
  check_default_1-Seen flag k (ptr_to v) s r h = elim (Bool-cases (ltb 3 k)) [
    | inl deep ↦ (ground (arith, h, deep), λ d e z l near. absurd (ground (arith, deep, near)))
    | inr shallow ↦
        let (grows, all) = check_default_1-Seen flag (k + 1) v s r (ground (arith, h, shallow)) in
        (
          grows,
          λ d e z l near.
              let (c, more, leaf) = Leaf-ptr_to l in all c e z leaf (omega (arith, more, near)),
        )
  ]
  check_default_1-Seen flag k (scalar is_zero) s r h = (
    ground (arith, h),
    λ d e z l near.
        let (at, open_all, same) = Leaf-scalar l in
        (
          subst (λ w. Reads flag w) (sym open_all) (ground (arith, h, near)),
          λ still. ground (arith, h, near, still, same),
        ),
  )

  check_default_fields-Seen :
      (flag : Flag) (k : ℕ) (fs : Fields) (s r : LabState)
      → check_default_fields flag k fs s ≡ some r
      → (s.error_count ≤ r.error_count) × NearFields fs k (Seen flag s r)
  check_default_fields-Seen flag k no_field s r h =
      (ground (arith, h), λ d e z l near. absurd (bare_end l))
  check_default_fields-Seen flag k (field c v fs) s r h =
      elim (Option-cases (check_default_1 (enter flag c) k v s)) [
        | inl e ↦ absurd (ground (arith, h, e))
        | inr (q, done) ↦
            let (first_grows, one) = check_default_1-Seen (enter flag c) k v s q done in
            let (rest_grows, all) =
              check_default_fields-Seen flag k fs q r (ground (arith, h, done)) in
            (
              omega (arith, first_grows, rest_grows),
              λ d e z l near. elim (FieldLeaf-field l) [
                | inl (x, both, leaf) ↦
                    let (can, zero_there) = one d x z leaf near in
                    (
                      subst (λ w. Reads flag w) (sym both) can,
                      λ still. zero_there (omega (arith, still, first_grows, rest_grows)),
                    )
                | inr leaf ↦
                    let (can, zero_there) = all d e z leaf near in
                    (can, λ still. zero_there (omega (arith, still, first_grows, rest_grows)))
              ],
            )
      ]

-- A check that comes only to scalars that it can read returns; when they are zero as well, it
-- leaves the errors as they were.
mutual
  unfolding check_default_1 check_default_fields

  check_default_1-some :
      (flag : Flag) (k : ℕ) (v : Value) (s : LabState)
      → Near v k (λ e z. Reads flag e)
      → (r : LabState) × (check_default_1 flag k v s ≡ some r)
        × (Near v k (λ e z. z ≡ true) → r ≡ s)
  check_default_1-some flag k (fields fs) s can = elim (Bool-cases (ltb 3 k)) [
    | inl deep ↦ (s, ground (arith, deep), λ h. refl)
    | inr shallow ↦
        let (r, done, same) =
          check_default_fields-some flag (k + 1) fs s
            (λ d e z l near. can (suc d) e z (inside l) (omega (arith, near))) in
        (
          r,
          ground (arith, shallow, done),
          λ h. same (λ d e z l near. h (suc d) e z (inside l) (omega (arith, near))),
        )
  ]
  check_default_1-some flag k nil_ptr s can = (s, refl, λ h. refl)
  check_default_1-some flag k opaque s can = (s, refl, λ h. refl)
  check_default_1-some flag k (ptr_to v) s can = elim (Bool-cases (ltb 3 k)) [
    | inl deep ↦ (s, ground (arith, deep), λ h. refl)
    | inr shallow ↦
        let (r, done, same) =
          check_default_1-some flag (k + 1) v s
            (λ d e z l near. can (suc d) e z (through l) (omega (arith, near))) in
        (
          r,
          ground (arith, shallow, done),
          λ h. same (λ d e z l near. h (suc d) e z (through l) (omega (arith, near))),
        )
  ]
  check_default_1-some flag k (scalar is_zero) s can = elim (Bool-cases (ltb 3 k)) [
    | inl deep ↦ (s, ground (arith, deep), λ h. refl)
    | inr shallow ↦
        let read : can_interface flag ≡ true =
          can 0 [] is_zero (itself is_zero) (ground (arith, shallow)) in
        elim (Bool-cases is_zero) [
          | inl z ↦ (s, ground (arith, shallow, read, z), λ h. refl)
          | inr z ↦ (
            record s { error_count = s.error_count + 1 },
            ground (arith, shallow, read, z),
            λ h.
                absurd
                  (ground (arith, z, h 0 [] is_zero (itself is_zero) (ground (arith, shallow)))),
          )
        ]
  ]

  check_default_fields-some :
      (flag : Flag) (k : ℕ) (fs : Fields) (s : LabState)
      → NearFields fs k (λ e z. Reads flag e)
      → (r : LabState) × (check_default_fields flag k fs s ≡ some r)
        × (NearFields fs k (λ e z. z ≡ true) → r ≡ s)
  check_default_fields-some flag k no_field s can = (s, refl, λ h. refl)
  check_default_fields-some flag k (field c v fs) s can =
      let (q, done, same) =
        check_default_1-some (enter flag c) k v s
          (λ d e z l near. can d (c ∷ e) z (first c l) near) in
      let (r, all, still) =
        check_default_fields-some flag k fs q (λ d e z l near. can d e z (next c l) near) in
      (
        r,
        ground (arith, done, all),
        λ h.
            still (λ d e z l near. h d e z (next c l) near)
            ∙ same (λ d e z l near. h d (c ∷ e) z (first c l) near),
      )

-- Decoding into a value: the check of it returns, and does not panic, exactly when for every scalar
-- that at most two fields and pointers lead to, the fields on the way to it are exported, or
-- unexported but embedded, and the last of them is exported; and it returns without a new error
-- exactly when these scalars are zero as well. What lies deeper is not looked at.
pub check_default_iff :
    (v : Value) (s : LabState)
    → (((r : LabState) × (check_default (some v) s ≡ some r))
        ↔ Near v 1 (λ way is_zero. IsOpen way))
      × ((check_default (some v) s ≡ some s)
          ↔ Near v 1 (λ way is_zero. IsOpen way × (is_zero ≡ true)))
unfolding check_default
check_default_iff v s = (
  (
    λ (r, done) d e z l near.
        (flag_after_iff e).0 ((check_default_1-Seen readable 1 v s r done).1 d e z l near).0,
    λ can.
        let (r, done, _) =
          check_default_1-some readable 1 v s
            (λ d e z l near. (flag_after_iff e).1 (can d e z l near)) in
        (r, done),
  ),
  (
    λ done d e z l near.
        let (open_all, zero_there) = (check_default_1-Seen readable 1 v s s done).1 d e z l near in
        ((flag_after_iff e).0 open_all, zero_there refl),
    λ fine.
        let (r, done, same) =
          check_default_1-some readable 1 v s
            (λ d e z l near. (flag_after_iff e).1 (fine d e z l near).0) in
        done ∙ ap some (same (λ d e z l near. (fine d e z l near).1)),
  ),
)
