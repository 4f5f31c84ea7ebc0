-- ===== src/Examples/Timeline.antt =====
-- The time line of a test with two servers.
use pluggable_sharded_fault.Base.{
  ℕ, zero, suc, ◌<◌, ◌≡◌, refl, ◌↔◌, true, false, none, some, List, [], ◌∷◌, ◌++◌, String,
  get_elem?, lookup, has, string_eq, arith,
}
use pluggable_sharded_fault.Tester.Annotation.{
  Continuous, Annotation, annotate_continuous_end, color_fault, tag_partition,
}
use pluggable_sharded_fault.Tester.Annotation.Tiles.{
  continue_all, tiles, IsChain, continue_all-tiles,
}
use pluggable_sharded_fault.Tester.Annotation.Framework.{
  FrameworkInfo, Timeline, annotate_test, annotate_checker_begin, color_success,
}
use pluggable_sharded_fault.Tester.Annotation.Framework.Checker.{
  CheckerEnd, end_all, marks_since, begin-ends,
}
use pluggable_sharded_fault.Tester.Annotation.Framework.Faults.{
  no_faults, FaultOp, connection, shutdown, restart, react_all,
}
use pluggable_sharded_fault.Tester.Annotation.Framework.Refinement.{perform_all, perform_all-Faults}

abbrev bare : Annotation
bare = record { annotations = []; continuous = []; finalized = false }

abbrev split : Continuous
split = record { start = 10; desp = "[0]"; details = "[0]"; bgcolor = color_fault }

abbrev worse : Continuous
worse = record { start = 25; desp = "[0] [1]"; details = "[0] [1]"; bgcolor = color_fault }

closed : lookup tag_partition bare.continuous ≡ none
unfolding lookup
closed = refl

continue_all-tiles_example :
    ((annotate_continuous_end tag_partition 40
        (continue_all tag_partition (split ∷ worse ∷ []) bare)).annotations
      ≡ bare.annotations ++ tiles tag_partition split (worse ∷ []) 40)
    × IsChain tag_partition 10 (tiles tag_partition split (worse ∷ []) 40) 40
    × (lookup tag_partition
          (annotate_continuous_end tag_partition 40
            (continue_all tag_partition (split ∷ worse ∷ []) bare)).continuous
        ≡ none)
continue_all-tiles_example = continue_all-tiles tag_partition split (worse ∷ []) 40 bare closed

abbrev info : FrameworkInfo
info = record {
  nservers = 2;
  connected = true ∷ true ∷ [];
  crashed = false ∷ false ∷ [];
  ckbegin = record { ts = 0; details = "" };
}

abbrev started : Timeline
started = record { annotation = bare; finfo = some info }

abbrev ends : List CheckerEnd
ends =
    record { desp = "leader"; details = "1"; color = color_success; now = 50 }
    ∷ record { desp = "leader"; details = "0"; color = color_success; now = 90 }
    ∷ []

begin-ends_example :
    (begun : Timeline) × (us : Timeline) × (annotate_checker_begin "checking" 30 started
      ≡ some begun)
    × (end_all ends begun ≡ some us)
    × (us.annotation.annotations ≡ started.annotation.annotations ++ marks_since 30 "checking" ends)
begin-ends_example = begin-ends "checking" 30 ends started info refl (ground arith)

abbrev print : ℕ → String
print zero = "0"
print (suc i) = "1"

abbrev print_all : List ℕ → String
print_all [] = "[]"
print_all (i ∷ is) = "[..]"

abbrev ops : List (FaultOp × ℕ)
ops =
    (connection (true ∷ false ∷ []), 5)
    ∷ (shutdown (1 ∷ []), 6)
    ∷ (connection (true ∷ true ∷ []), 8)
    ∷ (restart (1 ∷ 0 ∷ []), 9)
    ∷ []

perform_all-Faults_example :
    (us : Timeline) × (fi : FrameworkInfo) × (perform_all print print_all ops
        (annotate_test print print_all "test" 2 3 started)
      ≡ some us)
    × (us.finfo ≡ some fi)
    × ((i : ℕ) → i < 2 → get_elem? fi.connected i ≡ some ((react_all ops no_faults).connected i))
    × ((i : ℕ) → i < 2 → get_elem? fi.crashed i ≡ some ((react_all ops no_faults).crashed i))
    × ((has tag_partition us.annotation.continuous ≡ false) ↔ (
        (i : ℕ)
        → i < 2
        → ((react_all ops no_faults).connected i ≡ true)
          × ((react_all ops no_faults).crashed i ≡ false)))
perform_all-Faults_example =
    perform_all-Faults print print_all "test" 2 3 started ops
      (refl, ((omega arith, tt), (refl, ((omega arith, (omega arith, tt)), tt))))
