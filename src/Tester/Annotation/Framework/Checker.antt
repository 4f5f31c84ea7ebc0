-- ===== src/Tester/Annotation/Framework/Checker.antt =====
-- What the ends of a checker mark.
use Prim.Native.String.{◌++◌ as cat}
use pluggable_sharded_fault.Base.{
  ℕ, ◌≡◌, ◌≢◌, refl, ◌∙◌, sym, Option, none, some, List, [], ◌∷◌, ◌++◌, String, arith,
}
use mathlib.Core.List.{append_assoc, append-nil}
use pluggable_sharded_fault.Tester.Annotation.{Mark, tag_checker, annotate_interval_color}
use pluggable_sharded_fault.Tester.Annotation.Framework.{
  FrameworkInfo, Timeline, annotate_checker_begin, annotate_checker_end,
}

-- The end of a check: its text, details and colour, and its time
pub record CheckerEnd : Type 0 where
  pub desp : String
  pub details : String
  pub color : String
  pub now : ℕ

unfoldable pub end_all : List CheckerEnd → Timeline → Option Timeline
end_all [] tl = some tl
end_all (e ∷ ends) tl = elim (annotate_checker_end e.desp e.details e.color e.now tl) [
  | none ↦ none
  | some us ↦ end_all ends us
]

-- The marks of checks that began at one time
unfoldable pub marks_since : ℕ → String → List CheckerEnd → List Mark
marks_since ts begun [] = []
marks_since ts begun (e ∷ ends) =
    record {
      tag = tag_checker;
      start = ts;
      stop = e.now;
      desp = e.desp;
      details = cat (cat begun ": ") e.details;
      bgcolor = e.color;
    }
    ∷ marks_since ts begun ends

ends-marks :
    (ends : List CheckerEnd) (tl : Timeline) (fi : FrameworkInfo)
    → tl.finfo ≡ some fi
    → fi.ckbegin.ts ≢ 0
    → (us : Timeline) × (end_all ends tl ≡ some us)
      × (us.annotation.annotations
          ≡ tl.annotation.annotations ++ marks_since fi.ckbegin.ts fi.ckbegin.details ends)
      × (us.finfo ≡ some fi)
unfolding end_all marks_since annotate_checker_end annotate_interval_color
ends-marks [] tl fi there begun = (tl, refl, sym (append-nil tl.annotation.annotations), there)
ends-marks (e ∷ ends) tl fi there begun =
    let mark : Mark = record {
      tag = tag_checker;
      start = fi.ckbegin.ts;
      stop = e.now;
      desp = e.desp;
      details = cat (cat fi.ckbegin.details ": ") e.details;
      bgcolor = e.color;
    } in
    let next : Timeline = record tl {
      annotation = record tl.annotation { annotations = tl.annotation.annotations ++ (mark ∷ []) };
    } in
    let (us, all, marks, same) = ends-marks ends next fi there begun in
    (
      us,
      ground (arith, there, begun, all),
      marks
          ∙ append_assoc tl.annotation.annotations (mark ∷ [])
              (marks_since fi.ckbegin.ts fi.ckbegin.details ends),
      same,
    )

-- After a checker has begun, at a time that is not 0, every end is marked as an interval from
-- that time, however many ends there are: an end does not take the begin back.
pub begin-ends :
    (details : String) (ts : ℕ) (ends : List CheckerEnd) (tl : Timeline) (fi : FrameworkInfo)
    → tl.finfo ≡ some fi
    → ts ≢ 0
    → (begun : Timeline) × (us : Timeline) × (annotate_checker_begin details ts tl ≡ some begun)
      × (end_all ends begun ≡ some us)
      × (us.annotation.annotations ≡ tl.annotation.annotations ++ marks_since ts details ends)
unfolding annotate_checker_begin
begin-ends details ts ends tl fi there later =
    let begun : FrameworkInfo = record fi { ckbegin = record { ts = ts; details = details } } in
    let next : Timeline = record tl { finfo = some begun } in
    let (us, all, marks, _) = ends-marks ends next begun refl later in
    (next, us, ground (arith, there), all, marks)
