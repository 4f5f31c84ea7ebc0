-- ===== src/Tester/Annotation/Framework.antt =====
-- What the test framework annotates, src/tester1/annotation.go: checkers, and the servers that are
-- disconnected or crashed. The store and the framework's state are global variables there, the
-- record `Timeline` here. `none` is a panic: no test was annotated yet, or a server's number is out
-- of range. How `Sprintf` prints a number or a list of numbers is a parameter.
pub mod Checker
pub mod Fault
pub mod Faults
pub mod Refinement
use Prim.Native.String.{◌++◌ as cat}
use pluggable_sharded_fault.Base.{
  ℕ, zero, suc, ◌+◌, Bool, true, false, not, ◌&&◌, ◌||◌, Option, none, some, List, [], ◌∷◌, ◌++◌,
  String, get_elem?, set, replicate, length, if◌then◌else◌, eqb,
}
use pluggable_sharded_fault.Tester.Group.{all_from}
use pluggable_sharded_fault.Tester.Annotation.{
  Annotation, clear, annotate_point_color, annotate_interval_color, annotate_continuous_color,
  annotate_continuous_end, tag_checker, tag_partition, tag_info, color_info, color_fault, cleanup,
}

pub record CheckerBegin : Type 0 where
  pub ts : ℕ
  pub details : String

pub record FrameworkInfo : Type 0 where
  pub nservers : ℕ
  pub connected : List Bool
  pub crashed : List Bool
  pub ckbegin : CheckerBegin

pub record Timeline : Type 0 where
  pub annotation : Annotation
  pub finfo : Option FrameworkInfo

unfoldable pub make_framework_info : ℕ → FrameworkInfo
make_framework_info nservers = record {
  nservers = nservers;
  connected = replicate nservers true;
  crashed = replicate nservers false;
  ckbegin = record { ts = 0; details = "" };
}

abbrev pub color_neutral : String
color_neutral = "#FFECB3"

abbrev pub color_success : String
color_success = "#C8E6C9"

abbrev pub color_failure : String
color_failure = "#FFCDD2"

unfoldable pub annotate_info : String → String → ℕ → Annotation → Annotation
annotate_info desp details now an = annotate_point_color tag_info desp details color_info now an

unfoldable pub annotate_info_interval : ℕ → String → String → ℕ → Annotation → Annotation
annotate_info_interval start desp details now an =
    annotate_interval_color tag_info start desp details color_info now an

unfoldable pub annotate_checker_begin : String → ℕ → Timeline → Option Timeline
annotate_checker_begin details now tl = elim tl.finfo [
  | none ↦ none
  | some fi ↦
      some (record tl {
        finfo = some (record fi { ckbegin = record { ts = now; details = details } });
      })
]

-- The reset at the end writes a local copy, so that nothing of it is left.
unfoldable pub annotate_checker_end : String → String → String → ℕ → Timeline → Option Timeline
annotate_checker_end desp details color now tl = elim tl.finfo [
  | none ↦ none
  | some fi ↦
      if eqb fi.ckbegin.ts 0
      then some (record tl {
        annotation = annotate_point_color tag_checker desp details color now tl.annotation;
      })
      else some (record tl {
        annotation =
            annotate_interval_color tag_checker fi.ckbegin.ts desp
              (cat (cat fi.ckbegin.details ": ") details) color now tl.annotation;
      })
]

unfoldable pub annotate_checker_success : String → String → ℕ → Timeline → Option Timeline
annotate_checker_success desp details now tl =
    annotate_checker_end desp details color_success now tl

unfoldable pub annotate_checker_failure : String → String → ℕ → Timeline → Option Timeline
annotate_checker_failure desp details now tl =
    annotate_checker_end desp details color_failure now tl

unfoldable pub annotate_checker_neutral : String → String → ℕ → Timeline → Option Timeline
annotate_checker_neutral desp details now tl =
    annotate_checker_end desp details color_neutral now tl

-- `slices.Equal`
unfoldable pub equal : List Bool → List Bool → Bool
equal [] [] = true
equal (true ∷ xs) (true ∷ ys) = equal xs ys
equal (false ∷ xs) (false ∷ ys) = equal xs ys
equal _ _ = false

-- Go's `copy`, into the first slice
unfoldable pub copy_bools : List Bool → List Bool → List Bool
copy_bools [] src = []
copy_bools (b ∷ dst) [] = b ∷ dst
copy_bools (b ∷ dst) (s ∷ src) = s ∷ copy_bools dst src

-- Whether a server is disconnected or crashed
unfoldable pub is_faulty : FrameworkInfo → Bool
is_faulty fi = not (
    equal (replicate fi.nservers true) fi.connected
    && equal (replicate fi.nservers false) fi.crashed)

-- `crashed[id] = b` for each server, and whether this changed a server
unfoldable pub set_crashed : Bool → List ℕ → List Bool → Option (List Bool × Bool)
set_crashed b [] crashed = some (crashed, false)
set_crashed b (id ∷ ids) crashed = elim (get_elem? crashed id) [
  | none ↦ none
  | some was ↦ elim (set_crashed b ids (set crashed id b)) [
    | none ↦ none
    | some (last, changed) ↦ some (last, not (equal (was ∷ []) (b ∷ [])) || changed)
  ]
]

module _ (print : ℕ → String) (print_all : List ℕ → String) where
  unfoldable pub annotate_test : String → ℕ → ℕ → Timeline → Timeline
  annotate_test desp nservers now tl =
      let details = cat desp (cat " (" (cat (print nservers) " servers)")) in
      record {
        annotation = annotate_info details details now (clear tl.annotation);
        finfo = some (make_framework_info nservers);
      }

  -- The loop of `annotateFault`: the text, the connected servers and the crashed ones
  unfoldable pub fault_parts :
      ℕ → List Bool → List Bool → String → List ℕ → List ℕ → Option (String × List ℕ × List ℕ)
  fault_parts id [] crashed text conn crashes = some (text, conn, crashes)
  fault_parts id (c ∷ connected) [] text conn crashes = none
  fault_parts id (c ∷ connected) (true ∷ crashed) text conn crashes =
      fault_parts (id + 1) connected crashed text conn (crashes ++ (id ∷ []))
  fault_parts id (true ∷ connected) (false ∷ crashed) text conn crashes =
      fault_parts (id + 1) connected crashed text (conn ++ (id ∷ [])) crashes
  fault_parts id (false ∷ connected) (false ∷ crashed) text conn crashes =
      fault_parts (id + 1) connected crashed (cat text (cat "[" (cat (print id) "] "))) conn crashes

  unfoldable pub fault_text : String × List ℕ × List ℕ → String
  fault_text (text, conn, crashes) =
      let shown = if eqb (length conn) 0 then text else cat text (print_all conn) in
      if eqb (length crashes) 0 then shown else cat shown (cat " / crash = " (print_all crashes))

  unfoldable pub annotate_fault : FrameworkInfo → ℕ → Annotation → Option Annotation
  annotate_fault fi now an =
      if is_faulty fi
      then elim (fault_parts 0 fi.connected fi.crashed "partition = " [] []) [
        | none ↦ none
        | some parts ↦ some (
            annotate_continuous_color tag_partition (fault_text parts) (fault_text parts)
              color_fault now an)
      ]
      else some (annotate_continuous_end tag_partition now an)

  -- The state is written before the fault is annotated.
  unfoldable pub fault_changed : FrameworkInfo → ℕ → Timeline → Option Timeline
  fault_changed fi now tl = elim (annotate_fault fi now tl.annotation) [
    | none ↦ none
    | some an ↦ some (record { annotation = an; finfo = some fi })
  ]

  unfoldable pub annotate_connection : List Bool → ℕ → Timeline → Option Timeline
  annotate_connection connection now tl = elim tl.finfo [
    | none ↦ none
    | some fi ↦
        if equal fi.connected connection
        then some tl
        else fault_changed (record fi { connected = copy_bools fi.connected connection }) now tl
  ]

  unfoldable pub annotate_two_partitions : List ℕ → List ℕ → ℕ → Annotation → Annotation
  annotate_two_partitions p1 p2 now an =
      let text = cat "partition = " (cat (print_all p1) (cat " " (print_all p2))) in
      annotate_continuous_color tag_partition text text color_fault now an

  -- Shutting down (`true`) and restarting (`false`)
  unfoldable pub crash : Bool → List ℕ → ℕ → Timeline → Option Timeline
  crash b servers now tl = elim tl.finfo [
    | none ↦ none
    | some fi ↦ elim (set_crashed b servers fi.crashed) [
      | none ↦ none
      | some (crashed, true) ↦ fault_changed (record fi { crashed = crashed }) now tl
      | some (crashed, false) ↦ some (record tl { finfo = some (record fi { crashed = crashed }) })
    ]
  ]

  unfoldable pub annotate_shutdown : List ℕ → ℕ → Timeline → Option Timeline
  annotate_shutdown servers now tl = crash true servers now tl

  unfoldable pub annotate_restart : List ℕ → ℕ → Timeline → Option Timeline
  annotate_restart servers now tl = crash false servers now tl

  abbrev servers_of : Timeline → List ℕ
  servers_of tl = elim tl.finfo [ none ↦ [] | some fi ↦ all_from 0 fi.nservers ]

  unfoldable pub annotate_shutdown_all : ℕ → Timeline → Option Timeline
  annotate_shutdown_all now tl = annotate_shutdown (servers_of tl) now tl

  unfoldable pub annotate_restart_all : ℕ → Timeline → Option Timeline
  annotate_restart_all now tl = annotate_restart (servers_of tl) now tl

unfoldable pub annotate_clear_failure : ℕ → Timeline → Option Timeline
annotate_clear_failure now tl = elim tl.finfo [
  | none ↦ none
  | some fi ↦ some (record {
    annotation = annotate_continuous_end tag_partition now tl.annotation;
    finfo = some (record fi {
      connected = replicate (length fi.connected) true;
      crashed = replicate (length fi.crashed) false;
    });
  })
]

-- The values of `VIS_ENABLE`, and the times of the two steps
unfoldable pub annotate_checker_failure_before_exit :
    String → String → String → ℕ → ℕ → ℕ → Timeline → Option Timeline
annotate_checker_failure_before_exit enabled desp details now later last tl =
    elim (annotate_checker_failure desp details now tl) [
      | none ↦ none
      | some ended ↦ some (record ended {
        annotation = (cleanup enabled true "test failed" later last ended.annotation).1;
      })
    ]
