-- ===== src/Tester/Annotation/Framework/Refinement.antt =====
-- What the framework promises of the fault annotation, against the plain state of the servers.
use pluggable_sharded_fault.Base.{
  ℕ, ◌<◌, ◌≡◌, refl, sym, ap, ◌∙◌, true, false, Option, none, some, List, [], ◌∷◌, String, ◌↔◌,
  get_elem?, length-replicate, has, nat_eq, All, string_eq, arith, replicate_ext,
  get_elem?-replicate,
}
use pluggable_sharded_fault.Tester.Annotation.{clear, annotate_point_color, tag_partition}
use pluggable_sharded_fault.Tester.Annotation.Framework.{
  FrameworkInfo, Timeline, make_framework_info, annotate_info, annotate_test, annotate_connection,
  annotate_shutdown, annotate_restart, annotate_clear_failure,
}
use pluggable_sharded_fault.Tester.Annotation.Framework.Faults.{
  Faults, no_faults, FaultOp, connection, shutdown, restart, clear_failure, react, react_all,
  IsValidOp, Shows, not_faulty, calm_all, connection-Shows, crash-Shows, clear_failure-Shows,
}

module _ (print : ℕ → String) (print_all : List ℕ → String) where
  unfoldable pub perform : FaultOp → ℕ → Timeline → Option Timeline
  perform (connection c) now tl = annotate_connection print print_all c now tl
  perform (shutdown ids) now tl = annotate_shutdown print print_all ids now tl
  perform (restart ids) now tl = annotate_restart print print_all ids now tl
  perform clear_failure now tl = annotate_clear_failure now tl

  unfoldable pub perform_all : List (FaultOp × ℕ) → Timeline → Option Timeline
  perform_all [] tl = some tl
  perform_all ((op, now) ∷ ops) tl = elim (perform op now tl) [
    | none ↦ none
    | some us ↦ perform_all ops us
  ]

  perform-Shows :
      (n : ℕ) (op : FaultOp) (now : ℕ) (tl : Timeline) (f : Faults)
      → IsValidOp n op
      → Shows n tl f
      → (us : Timeline) × (perform op now tl ≡ some us) × Shows n us (react op f)
  unfolding perform react annotate_shutdown annotate_restart
  perform-Shows n (connection c) now tl f valid s =
      connection-Shows print print_all n c now tl f valid s
  perform-Shows n (shutdown ids) now tl f valid s =
      let (us, e, (fi, there, count, sized, told, conn, cr)) =
        crash-Shows print print_all true n ids now tl f valid s in
      (us, e, (fi, there, count, sized, told, conn, λ i h. ground (arith, cr i h)))
  perform-Shows n (restart ids) now tl f valid s =
      let (us, e, (fi, there, count, sized, told, conn, cr)) =
        crash-Shows print print_all false n ids now tl f valid s in
      (us, e, (fi, there, count, sized, told, conn, λ i h. ground (arith, cr i h)))
  perform-Shows n clear_failure now tl f valid s = clear_failure-Shows print print_all n now tl f s

  perform_all-Shows :
      (n : ℕ) (ops : List (FaultOp × ℕ)) (tl : Timeline) (f : Faults)
      → All (λ o. IsValidOp n o.0) ops
      → Shows n tl f
      → (us : Timeline) × (perform_all ops tl ≡ some us) × Shows n us (react_all ops f)
  unfolding perform_all react_all
  perform_all-Shows n [] tl f valid s = (tl, refl, s)
  perform_all-Shows n ((op, now) ∷ ops) tl f (this, rest) s =
      let (us, e, after) = perform-Shows n op now tl f this s in
      let (vs, all, last) = perform_all-Shows n ops us (react op f) rest after in
      (vs, ground (arith, e, all), last)

  annotate_test-Shows :
      (desp : String) (n now : ℕ) (tl : Timeline)
      → Shows n (annotate_test print print_all desp n now tl) no_faults
  unfolding annotate_test annotate_info annotate_point_color clear make_framework_info
  annotate_test-Shows desp n now tl = (
    make_framework_info n,
    refl,
    refl,
    (length-replicate n true, length-replicate n false),
    sym (not_faulty n (make_framework_info n) refl refl refl),
    λ i h. get_elem?-replicate n i true h,
    λ i h. get_elem?-replicate n i false h,
  )

  -- From the start of a test with `n` servers on, after any reports of connections, each of all
  -- servers, of shutdowns and restarts of existing servers, and of cleared failures, and whatever
  -- was annotated before:
  -- the framework does not panic, its state is the plain state of the servers, and the continuous
  -- annotation of faults is off exactly when every server is connected and none has crashed.
  pub perform_all-Faults :
      (desp : String) (n now : ℕ) (tl : Timeline) (ops : List (FaultOp × ℕ))
      → All (λ o. IsValidOp n o.0) ops
      → (us : Timeline) × (fi : FrameworkInfo) × (perform_all ops
            (annotate_test print print_all desp n now tl)
          ≡ some us)
        × (us.finfo ≡ some fi)
        × ((i : ℕ)
            → i < n
            → get_elem? fi.connected i ≡ some ((react_all ops no_faults).connected i))
        × ((i : ℕ) → i < n → get_elem? fi.crashed i ≡ some ((react_all ops no_faults).crashed i))
        × ((has tag_partition us.annotation.continuous ≡ false) ↔ (
            (i : ℕ)
            → i < n
            → ((react_all ops no_faults).connected i ≡ true)
              × ((react_all ops no_faults).crashed i ≡ false)))
  perform_all-Faults desp n now tl ops valid =
      let (us, e, (fi, there, count, sized, told, conn, cr)) =
        perform_all-Shows n ops (annotate_test print print_all desp n now tl) no_faults valid
          (annotate_test-Shows desp n now tl) in
      (
        us,
        fi,
        e,
        there,
        conn,
        cr,
        (
          λ off i h.
              let calm = calm_all n fi count (sym told ∙ off) in
              (ground (arith, calm.0 i h, conn i h), ground (arith, calm.1 i h, cr i h)),
          λ fine.
              told
              ∙ not_faulty n fi count
                  (replicate_ext fi.nservers fi.connected true sized.0 (λ i h.
                    conn i (omega (arith, h, count))
                    ∙ ap some (fine i (omega (arith, h, count))).0))
                  (replicate_ext fi.nservers fi.crashed false sized.1 (λ i h.
                    cr i (omega (arith, h, count)) ∙ ap some (fine i (omega (arith, h, count))).1)),
        ),
      )
