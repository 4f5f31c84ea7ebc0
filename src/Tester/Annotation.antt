-- ===== src/Tester/Annotation.antt =====
-- The annotations of a test's time line, src/tester1/annotation.go: points, intervals, and the
-- continuous annotations of a tag, each of which ends where the next one starts. The time of a call
-- is an argument, `now`. `porcupine.Annotation` is only stored here, as a `Mark`.
pub mod Tiles
pub mod Framework
use pluggable_sharded_fault.Base.{
  ℕ, zero, suc, Bool, true, false, not, ◌&&◌, ◌||◌, Option, none, some, List, [], ◌∷◌, ◌++◌, String,
  Map, lookup, insert, delete, if◌then◌else◌, ◌==◌, string_eq,
}

-- `stop` is `End`, 0 for a point in time.
pub record Mark : Type 0 where
  pub tag : String
  pub start : ℕ
  pub stop : ℕ
  pub desp : String
  pub details : String
  pub bgcolor : String

pub record Continuous : Type 0 where
  pub start : ℕ
  pub desp : String
  pub details : String
  pub bgcolor : String

pub record Annotation : Type 0 where
  pub annotations : List Mark
  pub continuous : Map String Continuous
  pub finalized : Bool

-- `mkAnnotation`, and what `clear` leaves
unfoldable pub make_annotation : Annotation
make_annotation = record { annotations = []; continuous = []; finalized = false }

unfoldable pub clear : Annotation → Annotation
clear an = record an { annotations = []; continuous = []; finalized = false }

abbrev pub color_info : String
color_info = "#FAFAFA"

abbrev pub color_fault : String
color_fault = "#B3E5FC"

abbrev pub color_user : String
color_user = "#FFF176"

abbrev pub tag_checker : String
tag_checker = "$ Checker"

abbrev pub tag_partition : String
tag_partition = "$ Failure"

abbrev pub tag_info : String
tag_info = "$ Test Info"

-- The mark of a continuous annotation that ends
unfoldable pub mark_of : String → ℕ → Continuous → Mark
mark_of tag now cont = record {
  tag = tag;
  start = cont.start;
  stop = now;
  desp = cont.desp;
  details = cont.details;
  bgcolor = cont.bgcolor;
}

abbrev pub append_mark : Mark → Annotation → Annotation
append_mark a an = record an { annotations = an.annotations ++ (a ∷ []) }

unfoldable pub annotate_point_color :
    String → String → String → String → ℕ → Annotation → Annotation
annotate_point_color tag desp details bgcolor now an =
    append_mark
      (record {
        tag = tag;
        start = now;
        stop = 0;
        desp = desp;
        details = details;
        bgcolor = bgcolor;
      })
      an

unfoldable pub annotate_interval_color :
    String → ℕ → String → String → String → ℕ → Annotation → Annotation
annotate_interval_color tag start desp details bgcolor now an =
    append_mark
      (record {
        tag = tag;
        start = start;
        stop = now;
        desp = desp;
        details = details;
        bgcolor = bgcolor;
      })
      an

unfoldable pub annotate_continuous_color :
    String → String → String → String → ℕ → Annotation → Annotation
annotate_continuous_color tag desp details bgcolor now an =
    let next : Continuous = record {
      start = now;
      desp = desp;
      details = details;
      bgcolor = bgcolor;
    } in
    elim (lookup tag an.continuous) [
      | none ↦ record an { continuous = insert tag next an.continuous }
      | some cont ↦ record an {
        annotations = an.annotations ++ (mark_of tag now cont ∷ []);
        continuous = insert tag next an.continuous;
      }
    ]

-- `Continuous{}`
abbrev pub zero_continuous : Continuous
zero_continuous = record { start = 0; desp = ""; details = ""; bgcolor = "" }

-- The code goes on where the tag is missing, with the zero value.
unfoldable pub annotate_continuous_end : String → ℕ → Annotation → Annotation
annotate_continuous_end tag now an =
    let cont : Continuous = elim (lookup tag an.continuous) [
      | none ↦ zero_continuous
      | some found ↦ found
    ] in
    record an {
      annotations = an.annotations ++ (mark_of tag now cont ∷ []);
      continuous = delete tag an.continuous;
    }

unfoldable pub close_all : ℕ → Map String Continuous → List Mark
close_all now [] = []
close_all now ((tag, cont) ∷ rest) = mark_of tag now cont ∷ close_all now rest

-- The marks, and the annotation after the call: it keeps the continuous annotations.
unfoldable pub finalize : ℕ → Annotation → List Mark × Annotation
finalize now an = (an.annotations ++ close_all now an.continuous, record an { finalized = true })

unfoldable pub end_mark : String → ℕ → Mark
end_mark end now = record {
  tag = tag_info;
  start = now;
  stop = 0;
  desp = end;
  details = end;
  bgcolor = color_info;
}

-- `t` is the time of the last mark.
unfoldable pub finalize_annotations : String → ℕ → ℕ → Annotation → List Mark × Annotation
finalize_annotations end now t an =
    ((finalize now an).0 ++ (end_mark end t ∷ []), (finalize now an).1)

unfoldable pub set_annotation_finalized : Annotation → Annotation
set_annotation_finalized an = record an { finalized = true }

unfoldable pub get_annotation_finalized : Annotation → Bool
get_annotation_finalized an = an.finalized

-- `cleanup`, with the value of `VIS_ENABLE`, up to the writing of the file: the marks that are
-- written, where some are.
unfoldable pub cleanup :
    String → Bool → String → ℕ → ℕ → Annotation → Option (List Mark) × Annotation
cleanup enabled failed end now t an =
    if enabled == "never"
      || (not failed && not (enabled == "always"))
      || get_annotation_finalized an
    then (none, clear an)
    else elim (finalize now an).0 [
      | [] ↦ (none, (finalize now an).1)
      | a ∷ marks ↦ (some ((a ∷ marks) ++ (end_mark end t ∷ [])), (finalize now an).1)
    ]

-- The three calls for users
unfoldable pub annotate : String → String → String → ℕ → Annotation → Annotation
annotate tag desp details now an = annotate_point_color tag desp details color_user now an

unfoldable pub annotate_interval : String → ℕ → String → String → ℕ → Annotation → Annotation
annotate_interval tag start desp details now an =
    annotate_interval_color tag start desp details color_user now an

unfoldable pub annotate_continuous : String → String → String → ℕ → Annotation → Annotation
annotate_continuous tag desp details now an =
    annotate_continuous_color tag desp details color_user now an
