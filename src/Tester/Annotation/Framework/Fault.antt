-- ===== src/Tester/Annotation/Framework/Fault.antt =====
-- The fault annotation is on exactly while a server is disconnected or crashed.
use pluggable_sharded_fault.Base.{
  ℕ, zero, suc, ◌+◌, ◌<◌, ◌≡◌, refl, sym, ap, ◌∙◌, Bool, true, false, not, ◌||◌, some, List, [],
  ◌∷◌, String, get_elem?, set, length, mem, nat_eq, eqb_iff, get_elem?-set_lt, length-set,
  if◌then◌else◌, has, All, string_eq, has-insert, has-delete, arith, Option-cases, Bool-cases, inl,
  inr, get_elem?-lt, lookup,
}
use mathlib.Core.Path.{subst}
use pluggable_sharded_fault.Tester.Annotation.{
  Annotation, Continuous, annotate_continuous_color, annotate_continuous_end, tag_partition,
  color_fault,
}
use pluggable_sharded_fault.Tester.Annotation.Framework.{
  FrameworkInfo, Timeline, equal, copy_bools, is_faulty, set_crashed, fault_parts, fault_text,
  annotate_fault, fault_changed,
}

-- Both slices have an entry for each server.
abbrev pub IsSized : FrameworkInfo → Type 0
IsSized fi = (length fi.connected ≡ fi.nservers) × (length fi.crashed ≡ fi.nservers)

pub equal→eq : (xs ys : List Bool) → equal xs ys ≡ true → xs ≡ ys
unfolding equal
equal→eq [] [] h = refl
equal→eq [] (y ∷ ys) h = cc
equal→eq (x ∷ xs) [] h = ground (arith, h)
equal→eq (true ∷ xs) (true ∷ ys) h = ap (λ l. true ∷ l) (equal→eq xs ys h)
equal→eq (false ∷ xs) (false ∷ ys) h = ap (λ l. false ∷ l) (equal→eq xs ys h)
equal→eq (true ∷ xs) (false ∷ ys) h = cc
equal→eq (false ∷ xs) (true ∷ ys) h = cc

pub equal_refl : (xs : List Bool) → equal xs xs ≡ true
unfolding equal
equal_refl [] = refl
equal_refl (true ∷ xs) = equal_refl xs
equal_refl (false ∷ xs) = equal_refl xs

pub length-copy_bools : (dst src : List Bool) → length (copy_bools dst src) ≡ length dst
unfolding copy_bools
length-copy_bools [] src = refl
length-copy_bools (b ∷ dst) [] = refl
length-copy_bools (b ∷ dst) (s ∷ src) = ap suc (length-copy_bools dst src)

has-continuous_color :
    (tag desp details bgcolor : String) (now : ℕ) (an : Annotation)
    → has tag (annotate_continuous_color tag desp details bgcolor now an).continuous ≡ true
unfolding annotate_continuous_color
has-continuous_color tag desp details bgcolor now an =
    let next : Continuous = record {
      start = now;
      desp = desp;
      details = details;
      bgcolor = bgcolor;
    } in
    elim (Option-cases (lookup tag an.continuous)) [
      | inl e ↦ ground (arith, e, has-insert tag tag next an.continuous, string_eq.same_iff tag tag)
      | inr (c, e) ↦
          ground (arith, e, has-insert tag tag next an.continuous, string_eq.same_iff tag tag)
    ]

pub has-continuous_end :
    (tag : String) (now : ℕ) (an : Annotation)
    → has tag (annotate_continuous_end tag now an).continuous ≡ false
unfolding annotate_continuous_end
has-continuous_end tag now an =
    ground (arith, has-delete tag tag an.continuous, string_eq.same_iff tag tag)

-- A loop over slices of one length goes through.
module _ (print : ℕ → String) (print_all : List ℕ → String) where
  fault_parts-some :
      (id : ℕ) (connected crashed : List Bool) (text : String) (conn crashes : List ℕ)
      → length connected ≡ length crashed
      → (parts : String × List ℕ × List ℕ) × (fault_parts print print_all id connected crashed text
            conn crashes
          ≡ some parts)
  unfolding fault_parts
  fault_parts-some id [] crashed text conn crashes h = (_, refl)
  fault_parts-some id (c ∷ connected) [] text conn crashes h = absurd (omega (arith, h))
  fault_parts-some id (c ∷ connected) (true ∷ crashed) text conn crashes h =
      fault_parts-some (id + 1) connected crashed _ _ _ (omega (arith, h))
  fault_parts-some id (true ∷ connected) (false ∷ crashed) text conn crashes h =
      fault_parts-some (id + 1) connected crashed _ _ _ (omega (arith, h))
  fault_parts-some id (false ∷ connected) (false ∷ crashed) text conn crashes h =
      fault_parts-some (id + 1) connected crashed _ _ _ (omega (arith, h))

  -- After a change of the state the annotation is on exactly where a server is at fault.
  pub fault_changed-some :
      (fi : FrameworkInfo) (now : ℕ) (tl : Timeline)
      → IsSized fi
      → (us : Timeline) × (fault_changed print print_all fi now tl ≡ some us)
        × (us.finfo ≡ some fi)
        × (has tag_partition us.annotation.continuous ≡ is_faulty fi)
  unfolding fault_changed annotate_fault
  fault_changed-some fi now tl sized = elim (Bool-cases (is_faulty fi)) [
    | inl e ↦
        let (parts, found) =
          fault_parts-some 0 fi.connected fi.crashed "partition = " [] []
            (omega (arith, sized.0, sized.1)) in
        let text = fault_text print print_all parts in
        let an = annotate_continuous_color tag_partition text text color_fault now tl.annotation in
        (
          record { annotation = an; finfo = some fi },
          ground (arith, e, found),
          refl,
          has-continuous_color tag_partition text text color_fault now tl.annotation ∙ sym e,
        )
    | inr e ↦
        let an = annotate_continuous_end tag_partition now tl.annotation in
        (
          record { annotation = an; finfo = some fi },
          ground (arith, e),
          refl,
          has-continuous_end tag_partition now tl.annotation ∙ sym e,
        )
  ]

set-same : (xs : List Bool) (i : ℕ) (v : Bool) → get_elem? xs i ≡ some v → set xs i v ≡ xs
set-same [] i v h = refl
set-same (x ∷ xs) zero v h = ground (arith, h)
set-same (x ∷ xs) (suc i) v h = ap (λ l. x ∷ l) (set-same xs i v h)

-- Servers that exist are set, and the others stay as they are.
pub set_crashed-some :
    (b : Bool) (ids : List ℕ) (crashed : List Bool)
    → All (λ id. id < length crashed) ids
    → (after : List Bool) × (changed : Bool) × (set_crashed b ids crashed ≡ some (after, changed))
      × (length after ≡ length crashed)
      × (changed ≡ false → after ≡ crashed)
      × ((i : ℕ) → get_elem? after i ≡ (if mem i ids then some b else get_elem? crashed i))
unfolding set_crashed
set_crashed-some b [] crashed small = (crashed, false, refl, refl, λ h. refl, λ i. refl)
set_crashed-some b (id ∷ ids) crashed (less, small) =
    let (was, at) = get_elem?-lt crashed id less in
    let (after, changed, done, sized, same, each) =
      set_crashed-some b ids (set crashed id b)
        (subst (λ n. All (λ i. i < n) ids) (sym (length-set crashed id b)) small) in
    (
      after,
      not (equal (was ∷ []) (b ∷ [])) || changed,
      ground (arith, at, done),
      sized ∙ length-set crashed id b,
      λ h.
          let kept : was ≡ b = ground (arith, h, equal→eq (was ∷ []) (b ∷ [])) in
          same (ground (arith, h)) ∙ set-same crashed id b (ground (arith, at, kept)),
      λ i. ground (arith, each i, get_elem?-set_lt crashed id i b less, eqb_iff id i),
    )
