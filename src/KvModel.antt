-- ===== src/KvModel.antt =====
-- The model of one key that the linearizability checker runs on: src/models1/kv.go.
pub mod Laws
pub mod Versions
use pluggable_sharded_fault.Base.{
  ℕ, ◌+◌, ◌%◌, ◌^◌, Bool, true, false, not, ◌&&◌, ◌||◌, Option, none, some, List, [], ◌∷◌, ◌++◌,
  map, String, if◌then◌else◌, eqb, ◌==◌, string_eq, Map, keys, lookup, insert, get_or,
}

pub record KvInput : Type 0 where
  pub op : ℕ
  pub key : String
  pub value : String
  pub version : ℕ

pub record KvOutput : Type 0 where
  pub value : String
  pub version : ℕ
  pub err : String

pub record KvState : Type 0 where
  pub value : String
  pub version : ℕ

unfoldable pub init : KvState
init = record { value = ""; version = 0 }

unfoldable pub step_put : KvState → KvInput → KvOutput → Bool × Option KvState
step_put st inp out =
    if eqb st.version inp.version
    then (
      out.err == "OK" || out.err == "ErrMaybe",
      some (record { value = inp.value; version = (st.version + 1) % 2 ^ 64 }),
    )
    else (out.err == "ErrVersion" || out.err == "ErrMaybe", some st)

-- Versions are 64-bit. The new state is `none` for the string "<invalid>".
unfoldable pub step : KvState → KvInput → KvOutput → Bool × Option KvState
unfolding step_put
step st inp out =
    if eqb inp.op 0
    then (out.value == st.value, some st)
    else if eqb inp.op 1
    then step_put st inp out
    else (false, none)

-- The map from keys to operations, in the order of the history
module _ {A : Type 0} (key : A → String) where
  unfoldable pub group : List A → Map String (List A) → Map String (List A)
  group [] m = m
  group (v ∷ history) m = group history (insert (key v) (get_or (key v) [] m ++ (v ∷ [])) m)

  -- `sort_strings` is the standard library's `sort.Strings`.
  unfoldable pub partition : (List String → List String) → List A → List (List A)
  partition sort_strings history =
      let m = group history [] in map (λ k. get_or k [] m) (sort_strings (keys m))
