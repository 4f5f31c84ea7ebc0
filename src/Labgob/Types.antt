-- ===== src/Labgob/Types.antt =====
-- Checking a type ends, visits every type below it once, and complains once of each field.
use pluggable_sharded_fault.Base.{
  ℕ, zero, suc, ◌+◌, ◌≤◌, ◌<◌, ◌≡◌, refl, ◌⊎◌, inl, inr, Bool, true, false, not, Option, some, List,
  [], ◌∷◌, String, mem, nat_eq, All, Distinct, if◌then◌else◌, arith, eqb, eqb_iff, total, total-le,
  total-lt, Bool-cases,
}
use mathlib.Core.Path.{subst}
use pluggable_sharded_fault.Labgob.{
  Kind, struct, slice, array, ptr, map_of, other, LabState, complain, check_fields, check_elem,
  check_type,
}

-- The types that a type is made of
unfoldable pub parts : Kind → List ℕ
parts (struct []) = []
parts (struct ((name, t) ∷ fields)) = t ∷ parts (struct fields)
parts (slice t) = t ∷ []
parts (array t) = t ∷ []
parts (ptr t) = t ∷ []
parts (map_of elem key) = elem ∷ key ∷ []
parts other = []

module _ (is_upper : String → Bool) where
  -- The fields that gob leaves out
  unfoldable pub lower_case : Kind → ℕ
  lower_case (struct []) = 0
  lower_case (struct ((name, t) ∷ fields)) =
      (if is_upper name then 0 else 1) + lower_case (struct fields)
  lower_case _ = 0

  module _ (kind : ℕ → Kind) (n : ℕ) where
    unfoldable pub lower_sum : List ℕ → ℕ
    lower_sum [] = 0
    lower_sum (t ∷ ts) = lower_case (kind t) + lower_sum ts

    -- The types below the bound that were not checked yet
    unfoldable pub unchecked : LabState → ℕ
    unchecked s = total (λ t. not (mem t s.checked)) n

    abbrev pub AllIn : LabState → List ℕ → Type 0
    AllIn s ts = All (λ t. mem t s.checked ≡ true) ts

    -- From `s` to `r` types were checked: no type was forgotten, the parts of each new type were
    -- checked too, the complaints are those of the new types and `k` more, and no type was checked
    -- twice.
    pub record Checks (k : ℕ) (s r : LabState) : Type 0 where
      pub keeps : (t : ℕ) → mem t s.checked ≡ true → mem t r.checked ≡ true
      pub below :
          (t : ℕ) → mem t r.checked ≡ true → (mem t s.checked ≡ true) ⊎ AllIn r (parts (kind t))
      pub counts : r.error_count + lower_sum s.checked ≡ s.error_count + k + lower_sum r.checked
      pub once : Distinct s.checked → Distinct r.checked

    pub AllIn-keeps :
        (s r : LabState) (ts : List ℕ)
        → ((t : ℕ) → mem t s.checked ≡ true → mem t r.checked ≡ true)
        → AllIn s ts
        → AllIn r ts
    AllIn-keeps s r [] keeps all = tt
    AllIn-keeps s r (t ∷ ts) keeps (this, all) = (keeps t this, AllIn-keeps s r ts keeps all)

    Checks-refl : (s : LabState) → Checks 0 s s
    Checks-refl s = record {
      keeps = λ t h. h;
      below = λ t h. inl h;
      counts = omega arith;
      once = λ h. h;
    }

    Checks-trans : {k l : ℕ} {s r q : LabState} → Checks k s r → Checks l r q → Checks (k + l) s q
    Checks-trans {s = s} {r = r} {q = q} a b = record {
      keeps = λ t h. b.keeps t (a.keeps t h);
      below = λ t h. elim (b.below t h) [
        | inr all ↦ inr all
        | inl was ↦ elim (a.below t was) [
          | inl first ↦ inl first
          | inr all ↦ inr (AllIn-keeps r q (parts (kind t)) b.keeps all)
        ]
      ];
      counts = omega (arith, a.counts, b.counts);
      once = λ h. b.once (a.once h);
    }

    unchecked-Checks : {k : ℕ} {s r : LabState} → Checks k s r → unchecked r ≤ unchecked s
    unfolding unchecked
    unchecked-Checks {s = s} {r = r} c =
        total-le (λ t. not (mem t r.checked)) (λ t. not (mem t s.checked)) n
          (λ t h. ground (arith, h, c.keeps t))

    unchecked-mark :
        (s : LabState) (t : ℕ)
        → t < n
        → mem t s.checked ≡ false
        → unchecked (record s { checked = t ∷ s.checked }) + 1 ≤ unchecked s
    unfolding unchecked
    unchecked-mark s t small new =
        total-lt (λ u. not (mem u (t ∷ s.checked))) (λ u. not (mem u s.checked)) n t small
          (λ u h. ground (arith, h)) (ground (arith, eqb_iff t t)) (ground (arith, new))

    -- What a check of a type with enough fuel does
    abbrev pub Works : (ℕ → LabState → Option LabState) → ℕ → Type 0
    Works check fuel =
        (t : ℕ) (s : LabState)
        → t < n
        → unchecked s < fuel
        → (r : LabState) × (check t s ≡ some r) × Checks 0 s r × (mem t r.checked ≡ true)

    complains :
        (name : String) (s : LabState)
        → Checks (if is_upper name then 0 else 1) s (complain is_upper name s)
    unfolding complain
    complains name s = elim (Bool-cases (is_upper name)) [
      | inl e ↦ record {
        keeps = λ t h. ground (arith, e, h);
        below = λ t h. inl (ground (arith, e, h));
        counts = ground (arith, e);
        once = λ h. rw e h;
      }
      | inr e ↦ record {
        keeps = λ t h. ground (arith, e, h);
        below = λ t h. inl (ground (arith, e, h));
        counts = ground (arith, e);
        once = λ h. rw e h;
      }
    ]

    module _ (check : ℕ → LabState → Option LabState) (fuel : ℕ) (works : Works check fuel) where
      -- Going through the fields
      fields-Checks :
          (fields : List (String × ℕ)) (s : LabState)
          → All (λ t. t < n) (parts (struct fields))
          → unchecked s < fuel
          → (r : LabState) × (check_fields is_upper check fields s ≡ some r)
            × Checks (lower_case (struct fields)) s r
            × AllIn r (parts (struct fields))
      unfolding check_fields lower_case parts
      fields-Checks [] s small room = (s, refl, Checks-refl s, tt)
      fields-Checks ((name, t) ∷ fields) s (less, small) room =
          let said = complains name s in
          let (r, done, one, here) =
            works t (complain is_upper name s) less (omega (arith, room, unchecked-Checks said)) in
          let so_far = Checks-trans said one in
          let (q, all, more, rest) =
            fields-Checks fields r small (omega (arith, room, unchecked-Checks so_far)) in
          (
            q,
            ground (arith, done, all),
            subst (λ k. Checks k s q) (omega arith) (Checks-trans so_far more),
            (more.keeps t here, rest),
          )

      elem-Checks :
          (k : Kind) (s : LabState)
          → All (λ t. t < n) (parts k)
          → unchecked s < fuel
          → (r : LabState) × (check_elem is_upper check k s ≡ some r)
            × Checks (lower_case k) s r
            × AllIn r (parts k)
      unfolding check_elem lower_case parts
      elem-Checks (struct fields) s small room = fields-Checks fields s small room
      elem-Checks (slice t) s (less, _) room =
          let (r, done, one, here) = works t s less room in (r, done, one, (here, tt))
      elem-Checks (array t) s (less, _) room =
          let (r, done, one, here) = works t s less room in (r, done, one, (here, tt))
      elem-Checks (ptr t) s (less, _) room =
          let (r, done, one, here) = works t s less room in (r, done, one, (here, tt))
      elem-Checks (map_of elem key) s (le, (lk, _)) room =
          let (r, done, one, here) = works elem s le room in
          let (q, all, two, there) = works key r lk (omega (arith, room, unchecked-Checks one)) in
          (q, ground (arith, done, all), Checks-trans one two, (two.keeps elem here, (there, tt)))
      elem-Checks other s small room = (s, refl, Checks-refl s, tt)

    -- A type that was not checked yet, with its parts
    Checks-mark :
        (t : ℕ) (s r : LabState)
        → mem t s.checked ≡ false
        → Checks (lower_case (kind t)) (record s { checked = t ∷ s.checked }) r
        → AllIn r (parts (kind t))
        → Checks 0 s r
    unfolding lower_sum
    Checks-mark t s r new c all = record {
      keeps = λ u h. c.keeps u (ground (arith, h));
      below = λ u h. elim (c.below u h) [
        | inr below ↦ inr below
        | inl was ↦ elim (Bool-cases (eqb t u)) [
          | inl same ↦ inr (subst (λ v. AllIn r (parts (kind v))) (ground (arith, same)) all)
          | inr differ ↦ inl (ground (arith, was, differ))
        ]
      ];
      counts = omega (arith, c.counts);
      once = λ h. c.once (new, h);
    }

    module _ (small : (t : ℕ) → t < n → All (λ u. u < n) (parts (kind t))) where
      pub check_type-Works : (fuel : ℕ) → Works (check_type is_upper kind fuel) fuel
      unfolding check_type
      check_type-Works zero t s less room = absurd (omega (arith, room))
      check_type-Works (suc fuel) t s less room = elim (Bool-cases (mem t s.checked)) [
        | inl was ↦ (s, ground (arith, was), Checks-refl s, was)
        | inr new ↦
            let (r, done, c, all) =
              elem-Checks (check_type is_upper kind fuel) fuel (check_type-Works fuel) (kind t)
                (record s { checked = t ∷ s.checked }) (small t less)
                (omega (arith, room, unchecked-mark s t less new)) in
            (
              r,
              ground (arith, new, done),
              Checks-mark t s r new c all,
              c.keeps t (ground (arith, eqb_iff t t)),
            )
      ]
