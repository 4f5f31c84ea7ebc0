-- ===== src/KvModel/Laws.antt =====
-- What the model accepts of one operation, and how it splits a history.
use pluggable_sharded_fault.Base.{
  ◌≡◌, ◌≢◌, ◌↔◌, ◌⊎◌, refl, ap, sym, true, List, [], ◌∷◌, ◌++◌, String, arith, if◌then◌else◌, ◌==◌,
  string_eq, Map, lookup, lookup-insert, insert, get_or,
}
use pluggable_sharded_fault.KvModel.{KvInput, KvOutput, KvState, step, group}

-- A put is accepted exactly with no error or ErrMaybe when its version is the state's, and with
-- ErrVersion or ErrMaybe when it is not.
pub step_put_iff :
    (st : KvState) (inp : KvInput) (out : KvOutput)
    → inp.op ≡ 1
    → ((step st inp out).0 ≡ true) ↔ (
        ((st.version ≡ inp.version) × ((out.err ≡ "OK") ⊎ (out.err ≡ "ErrMaybe")))
        ⊎ ((st.version ≢ inp.version) × ((out.err ≡ "ErrVersion") ⊎ (out.err ≡ "ErrMaybe"))))
unfolding step
step_put_iff st inp out put = (
  λ h. ground (
    arith,
    string_eq.same_iff out.err "OK",
    string_eq.same_iff out.err "ErrMaybe",
    string_eq.same_iff out.err "ErrVersion",
  ),
  λ h. ground (
    arith,
    string_eq.same_iff out.err "OK",
    string_eq.same_iff out.err "ErrMaybe",
    string_eq.same_iff out.err "ErrVersion",
  ),
)

-- The operations of one key, in their order
module _ {A : Type 0} (key : A → String) where
  abbrev pub of_key : String → List A → List A
  of_key k [] = []
  of_key k (v ∷ history) = if key v == k then v ∷ of_key k history else of_key k history

  append_assoc : (a b c : List A) → (a ++ b) ++ c ≡ a ++ (b ++ c)
  append_assoc [] b c = refl
  append_assoc (x ∷ a) b c = ap (λ r. x ∷ r) (append_assoc a b c)

  append_nil : (a : List A) → a ++ [] ≡ a
  append_nil [] = refl
  append_nil (x ∷ a) = ap (λ r. x ∷ r) (append_nil a)

  group-of_key :
      (k : String) (history : List A) (m : Map String (List A))
      → get_or k [] (group key history m) ≡ get_or k [] m ++ of_key k history
  unfolding group
  group-of_key k [] m = sym (append_nil (get_or k [] m))
  group-of_key k (v ∷ history) m =
      let longer = get_or (key v) [] m ++ (v ∷ []) in
      ground (
        arith,
        group-of_key k history (insert (key v) longer m),
        lookup-insert (key v) k longer m,
        string_eq.same_iff (key v) k,
        append_assoc (get_or k [] m) (v ∷ []) (of_key k history),
      )

  -- The part of a key holds exactly the operations of the history on that key, in their order.
  pub group_lem :
      (k : String) (history : List A) → get_or k [] (group key history []) ≡ of_key k history
  unfolding lookup
  group_lem k history = group-of_key k history []
