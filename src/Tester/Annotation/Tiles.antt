-- ===== src/Tester/Annotation/Tiles.antt =====
-- The continuous annotations of a tag cover the time from the first to the end, without a gap.
use pluggable_sharded_fault.Base.{
  ℕ, ◌≡◌, refl, ap, ◌∙◌, none, some, List, [], ◌∷◌, ◌++◌, String, lookup, string_eq, lookup-insert,
  lookup-delete, arith,
}
use mathlib.Core.List.{append_assoc}
use pluggable_sharded_fault.Tester.Annotation.{
  Mark, Continuous, Annotation, mark_of, annotate_continuous_color, annotate_continuous_end,
}

-- Continuous annotations of a tag, one after another, each at its start
unfoldable pub continue_all : String → List Continuous → Annotation → Annotation
continue_all tag [] an = an
continue_all tag (c ∷ cs) an =
    continue_all tag cs (annotate_continuous_color tag c.desp c.details c.bgcolor c.start an)

-- The marks of annotations that follow each other, to the end
unfoldable pub tiles : String → Continuous → List Continuous → ℕ → List Mark
tiles tag last [] end = mark_of tag end last ∷ []
tiles tag last (c ∷ cs) end = mark_of tag c.start last ∷ tiles tag c cs end

-- Marks of a tag that follow each other from a start to an end
abbrev pub IsChain : String → ℕ → List Mark → ℕ → Type 0
IsChain tag start [] end = start ≡ end
IsChain tag start (m ∷ marks) end = (m.tag ≡ tag) × (m.start ≡ start) × IsChain tag m.stop marks end

tiles-IsChain :
    (tag : String) (last : Continuous) (cs : List Continuous) (end : ℕ)
    → IsChain tag last.start (tiles tag last cs end) end
unfolding tiles mark_of
tiles-IsChain tag last [] end = (refl, refl, refl)
tiles-IsChain tag last (c ∷ cs) end = (refl, refl, tiles-IsChain tag c cs end)

module _ (tag : String) where
  continued :
      (last c : Continuous) (an : Annotation)
      → lookup tag an.continuous ≡ some last
      → ((annotate_continuous_color tag c.desp c.details c.bgcolor c.start an).annotations
          ≡ an.annotations ++ (mark_of tag c.start last ∷ []))
        × (lookup tag
              (annotate_continuous_color tag c.desp c.details c.bgcolor c.start an).continuous
            ≡ some c)
  unfolding annotate_continuous_color
  continued last c an open_now = (
    ground (arith, open_now),
    ground (arith, open_now, lookup-insert tag tag c an.continuous, string_eq.same_iff tag tag),
  )

  ended :
      (last : Continuous) (end : ℕ) (an : Annotation)
      → lookup tag an.continuous ≡ some last
      → ((annotate_continuous_end tag end an).annotations
          ≡ an.annotations ++ (mark_of tag end last ∷ []))
        × (lookup tag (annotate_continuous_end tag end an).continuous ≡ none)
  unfolding annotate_continuous_end
  ended last end an open_now = (
    ground (arith, open_now),
    ground (arith, lookup-delete tag tag an.continuous, string_eq.same_iff tag tag),
  )

  rest_tiles :
      (last : Continuous) (cs : List Continuous) (end : ℕ) (an : Annotation)
      → lookup tag an.continuous ≡ some last
      → ((annotate_continuous_end tag end (continue_all tag cs an)).annotations
          ≡ an.annotations ++ tiles tag last cs end)
        × (lookup tag (annotate_continuous_end tag end (continue_all tag cs an)).continuous ≡ none)
  unfolding continue_all tiles
  rest_tiles last [] end an open_now = ended last end an open_now
  rest_tiles last (c ∷ cs) end an open_now =
      let (marked, now_open) = continued last c an open_now in
      let (all, closed) =
        rest_tiles c cs end (annotate_continuous_color tag c.desp c.details c.bgcolor c.start an)
          now_open in
      (
        all
            ∙ ap (λ l. l ++ tiles tag c cs end) marked
            ∙ append_assoc an.annotations (mark_of tag c.start last ∷ []) (tiles tag c cs end),
        closed,
      )

  first_open :
      (c : Continuous) (an : Annotation)
      → lookup tag an.continuous ≡ none
      → ((annotate_continuous_color tag c.desp c.details c.bgcolor c.start an).annotations
          ≡ an.annotations)
        × (lookup tag
              (annotate_continuous_color tag c.desp c.details c.bgcolor c.start an).continuous
            ≡ some c)
  unfolding annotate_continuous_color
  first_open c an closed = (
    ground (arith, closed),
    ground (arith, closed, lookup-insert tag tag c an.continuous, string_eq.same_iff tag tag),
  )

-- When continuous annotations of a tag that was closed follow each other, and the tag is then
-- ended, the store has gained exactly one mark for each, with its text, in order: they cover the
-- time from the start of the first to the end without gap or overlap, and the tag is closed again.
pub continue_all-tiles :
    (tag : String) (c : Continuous) (cs : List Continuous) (end : ℕ) (an : Annotation)
    → lookup tag an.continuous ≡ none
    → ((annotate_continuous_end tag end (continue_all tag (c ∷ cs) an)).annotations
        ≡ an.annotations ++ tiles tag c cs end)
      × IsChain tag c.start (tiles tag c cs end) end
      × (lookup tag (annotate_continuous_end tag end (continue_all tag (c ∷ cs) an)).continuous
          ≡ none)
unfolding continue_all
continue_all-tiles tag c cs end an closed =
    let (same, now_open) = first_open tag c an closed in
    let (all, over) =
      rest_tiles tag c cs end (annotate_continuous_color tag c.desp c.details c.bgcolor c.start an)
        now_open in
    (all ∙ ap (λ l. l ++ tiles tag c cs end) same, tiles-IsChain tag c cs end, over)
