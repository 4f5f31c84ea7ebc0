-- ===== src/Tester/Annotation/Framework/Faults.antt =====
-- The plain state of the servers, and how the framework's state shows it after each report.
use pluggable_sharded_fault.Base.{
  ℕ, ◌<◌, ◌≡◌, refl, sym, ap, ◌∙◌, Bool, true, false, not, ◌&&◌, ◌||◌, none, some, List, [], ◌∷◌,
  String, get_elem?, replicate, length, length-replicate, if◌then◌else◌, has, mem, nat_eq, All,
  string_eq, arith, get_elem?-replicate, get_elem?-lt, Bool-cases, inl, inr,
}
use mathlib.Core.Path.{subst}
use pluggable_sharded_fault.Tester.Annotation.{annotate_continuous_end, tag_partition}
use pluggable_sharded_fault.Tester.Annotation.Framework.{
  FrameworkInfo, Timeline, equal, copy_bools, is_faulty, annotate_connection, crash,
  annotate_clear_failure,
}
use pluggable_sharded_fault.Tester.Annotation.Framework.Fault.{
  IsSized, equal→eq, equal_refl, length-copy_bools, has-continuous_end, fault_changed-some,
  set_crashed-some,
}

-- Which servers are connected, and which have crashed
pub record Faults : Type 0 where
  pub connected : ℕ → Bool
  pub crashed : ℕ → Bool

abbrev pub no_faults : Faults
no_faults = record { connected = λ i. true; crashed = λ i. false }

-- What a test reports: the state of the connections, servers that shut down or restart, or that
-- every fault is over.
pub data FaultOp : Type 0 where
  connection : List Bool → FaultOp
  shutdown restart : List ℕ → FaultOp
  clear_failure : FaultOp

abbrev item : List Bool → ℕ → Bool
item xs i = elim (get_elem? xs i) [ none ↦ false | some b ↦ b ]

-- What a report says of the servers
unfoldable pub react : FaultOp → Faults → Faults
react (connection c) f = record f { connected = item c }
react (shutdown ids) f = record f { crashed = λ i. f.crashed i || mem i ids }
react (restart ids) f = record f { crashed = λ i. f.crashed i && not (mem i ids) }
react clear_failure f = no_faults

unfoldable pub react_all : List (FaultOp × ℕ) → Faults → Faults
react_all [] f = f
react_all ((op, now) ∷ ops) f = react_all ops (react op f)

-- The slice has an entry for each server, and the servers exist.
abbrev pub IsValidOp : ℕ → FaultOp → Type 0
IsValidOp n (connection c) = length c ≡ n
IsValidOp n (shutdown ids) = All (λ id. id < n) ids
IsValidOp n (restart ids) = All (λ id. id < n) ids
IsValidOp n clear_failure = Unit

-- The timeline has the state of the servers, and tells whether one is at fault.
abbrev pub Shows : ℕ → Timeline → Faults → Type 0
Shows n tl f =
    (fi : FrameworkInfo) × (tl.finfo ≡ some fi)
    × (fi.nservers ≡ n)
    × IsSized fi
    × (has tag_partition tl.annotation.continuous ≡ is_faulty fi)
    × ((i : ℕ) → i < n → get_elem? fi.connected i ≡ some (f.connected i))
    × ((i : ℕ) → i < n → get_elem? fi.crashed i ≡ some (f.crashed i))

copy_bools_all : (dst src : List Bool) → length src ≡ length dst → copy_bools dst src ≡ src
unfolding copy_bools
copy_bools_all [] [] h = refl
copy_bools_all [] (s ∷ src) h = absurd (omega (arith, h))
copy_bools_all (b ∷ dst) [] h = absurd (omega (arith, h))
copy_bools_all (b ∷ dst) (s ∷ src) h = ap (λ l. s ∷ l) (copy_bools_all dst src (omega (arith, h)))

item-at : (c : List Bool) (i : ℕ) → i < length c → get_elem? c i ≡ some (item c i)
item-at c i h = ground (arith, get_elem?-lt c i h)

pub not_faulty :
    (n : ℕ) (fi : FrameworkInfo)
    → fi.nservers ≡ n
    → fi.connected ≡ replicate fi.nservers true
    → fi.crashed ≡ replicate fi.nservers false
    → is_faulty fi ≡ false
unfolding is_faulty
not_faulty n fi count on up =
    rw (on, up) ground
      (arith, equal_refl (replicate fi.nservers true), equal_refl (replicate fi.nservers false))

pub calm_all :
    (n : ℕ) (fi : FrameworkInfo)
    → fi.nservers ≡ n
    → is_faulty fi ≡ false
    → ((i : ℕ) → i < n → get_elem? fi.connected i ≡ some true)
      × ((i : ℕ) → i < n → get_elem? fi.crashed i ≡ some false)
unfolding is_faulty
calm_all n fi count h =
    let on = equal→eq (replicate fi.nservers true) fi.connected (ground (arith, h)) in
    let up = equal→eq (replicate fi.nservers false) fi.crashed (ground (arith, h)) in
    (
      λ i l.
          ap (λ xs. get_elem? xs i) (sym on)
          ∙ get_elem?-replicate fi.nservers i true (omega (arith, l, count)),
      λ i l.
          ap (λ xs. get_elem? xs i) (sym up)
          ∙ get_elem?-replicate fi.nservers i false (omega (arith, l, count)),
    )

module _ (print : ℕ → String) (print_all : List ℕ → String) where
  pub connection-Shows :
      (n : ℕ) (c : List Bool) (now : ℕ) (tl : Timeline) (f : Faults)
      → length c ≡ n
      → Shows n tl f
      → (us : Timeline) × (annotate_connection print print_all c now tl ≡ some us)
        × Shows n us (react (connection c) f)
  unfolding annotate_connection react
  connection-Shows n c now tl f long (fi, there, count, sized, told, conn, cr) =
      let here : (i : ℕ) → i < n → get_elem? c i ≡ some (item c i) =
        λ i h. item-at c i (omega (arith, long, h)) in
      let copied : copy_bools fi.connected c ≡ c =
        copy_bools_all fi.connected c (omega (arith, long, sized.0, count)) in
      let next : FrameworkInfo = record fi { connected = copy_bools fi.connected c } in
      elim (Bool-cases (equal fi.connected c)) [
        | inl e ↦
            let same = equal→eq fi.connected c e in
            (
              tl,
              ground (arith, there, e),
              (fi, there, count, sized, told, λ i h. ap (λ l. get_elem? l i) same ∙ here i h, cr),
            )
        | inr e ↦
            let (us, ended, state, tells) =
              fault_changed-some print print_all next now tl
                (length-copy_bools fi.connected c ∙ sized.0, sized.1) in
            (
              us,
              ground (arith, there, e, ended),
              (
                next,
                state,
                count,
                (length-copy_bools fi.connected c ∙ sized.0, sized.1),
                tells,
                λ i h. ap (λ l. get_elem? l i) copied ∙ here i h,
                cr,
              ),
            )
      ]

  pub crash-Shows :
      (b : Bool) (n : ℕ) (ids : List ℕ) (now : ℕ) (tl : Timeline) (f : Faults)
      → All (λ id. id < n) ids
      → Shows n tl f
      → (us : Timeline) × (crash print print_all b ids now tl ≡ some us)
        × Shows n us (record f { crashed = λ i. if mem i ids then b else f.crashed i })
  unfolding crash
  crash-Shows b n ids now tl f small (fi, there, count, sized, told, conn, cr) =
      let (after, changed, done, long, same, each) =
        set_crashed-some b ids fi.crashed
          (subst (λ k. All (λ i. i < k) ids) (sym (sized.1 ∙ count)) small) in
      let next : FrameworkInfo = record fi { crashed = after } in
      let all : (i : ℕ) → i < n → get_elem? after i ≡ some (if mem i ids then b else f.crashed i) =
        λ i h. ground (arith, each i, cr i h) in
      elim (Bool-cases changed) [
        | inl e ↦
            let (us, ended, state, tells) =
              fault_changed-some print print_all next now tl (sized.0, long ∙ sized.1) in
            (
              us,
              ground (arith, there, done, e, ended),
              (next, state, count, (sized.0, long ∙ sized.1), tells, conn, all),
            )
        | inr e ↦ (
          record tl { finfo = some next },
          ground (arith, there, done, e),
          (
            next,
            refl,
            count,
            (sized.0, long ∙ sized.1),
            told ∙ ap (λ c. is_faulty (record fi { crashed = c })) (sym (same e)),
            conn,
            all,
          ),
        )
      ]

  pub clear_failure-Shows :
      (n now : ℕ) (tl : Timeline) (f : Faults)
      → Shows n tl f
      → (us : Timeline) × (annotate_clear_failure now tl ≡ some us) × Shows n us no_faults
  unfolding annotate_clear_failure is_faulty
  clear_failure-Shows n now tl f (fi, there, count, sized, told, conn, cr) =
      let next : FrameworkInfo = record fi {
        connected = replicate (length fi.connected) true;
        crashed = replicate (length fi.crashed) false;
      } in
      (
        record {
          annotation = annotate_continuous_end tag_partition now tl.annotation;
          finfo = some next;
        },
        ground (arith, there),
        (
          next,
          refl,
          count,
          (
            length-replicate (length fi.connected) true ∙ sized.0,
            length-replicate (length fi.crashed) false ∙ sized.1,
          ),
          has-continuous_end tag_partition now tl.annotation
              ∙ sym (
                  not_faulty n next count (ap (λ k. replicate k true) sized.0)
                    (ap (λ k. replicate k false) sized.1)),
          λ i h.
              get_elem?-replicate (length fi.connected) i true (omega (arith, h, sized.0, count)),
          λ i h. get_elem?-replicate (length fi.crashed) i false (omega (arith, h, sized.1, count)),
        ),
      )
