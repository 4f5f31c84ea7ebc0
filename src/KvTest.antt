-- ===== src/KvTest.antt =====
-- The checks that the key/value tests make of a service: src/kvtest1/kvtest.go, and the errors of
-- src/kvsrv1/rpc/rpc.go. Counts and ids are natural numbers; versions are 64-bit.
pub mod Appends
pub mod Logged
pub mod OnePut
pub mod Run
use pluggable_sharded_fault.Base.{
  ℕ, zero, suc, ◌+◌, ◌-◌, ◌%◌, ◌^◌, Bool, true, false, not, ◌&&◌, ◌||◌, Option, none, some, List,
  [], ◌∷◌, ◌++◌, String, ltb, eqb, if◌then◌else◌, Outcome, ok, panic, fatal, stuck, ◌==◌, string_eq,
  nat_eq, length, get_elem?, Map, lookup, insert, get_or,
}

abbrev pub ok_err : String
ok_err = "OK"

abbrev pub err_version : String
err_version = "ErrVersion"

abbrev pub err_maybe : String
err_maybe = "ErrMaybe"

-- `IKVClerk`: a clerk and the world `W` that it acts on. The implementation is a parameter.
pub record KvClerk (W : Type 0) : Type 0 where
  pub get : String → W → (String × ℕ × String) × W
  pub put : String → String → ℕ → W → String × W

pub record ClntRes : Type 0 where
  pub nok : ℕ
  pub nmaybe : ℕ

pub record EntryN : Type 0 where
  pub id : ℕ
  pub n : ℕ

module _ {W : Type 0} (ck : KvClerk W) where
  -- The loop runs on fuel. Each answer but OK tries again, with the next version unless the error
  -- says nothing of versions, which is fatal after version 0.
  unfoldable pub put_at_least_once : ℕ → String → String → ℕ → W → Outcome (ℕ × W)
  put_at_least_once zero key value ver w = stuck
  put_at_least_once (suc fuel) key value ver w =
      let (err, now) = ck.put key value ver w in
      let next = (ver + 1) % 2 ^ 64 in
      let again_next = put_at_least_once fuel key value next now in
      let again = put_at_least_once fuel key value ver now in
      if err == ok_err
      then ok (next, now)
      else if err == err_maybe || err == err_version
      then again_next
      else if not (eqb ver 0)
      then fatal
      else again

  unfoldable pub check_get : String → String → ℕ → W → Outcome W
  check_get key value version w =
      let (answer, now) = ck.get key w in
      if not (answer.2 == ok_err)
      then fatal
      else if not (answer.0 == value) || not (eqb answer.1 version)
      then fatal
      else ok now

unfoldable pub add_results : List ClntRes → ClntRes → ClntRes
add_results [] res = res
add_results (r ∷ rs) res =
    add_results rs (record { nok = res.nok + r.nok; nmaybe = res.nmaybe + r.nmaybe })

-- `ver0` is the version that the server has for the key.
unfoldable pub check_put_concurrent : ℕ → List ClntRes → ClntRes → Bool → Outcome ClntRes
check_put_concurrent ver0 rs res reliable =
    let sum = add_results rs res in
    if reliable
    then (if not (eqb ver0 (sum.nok % 2 ^ 64)) then fatal else ok sum)
    else if ltb ((sum.nok + sum.nmaybe) % 2 ^ 64) ver0
    then fatal
    else ok sum

unfoldable pub clear_from : ℕ → ℕ → Map ℕ ℕ → Map ℕ ℕ
clear_from i zero m = m
clear_from i (suc nclnt) m = clear_from (i + 1) nclnt (insert i 0 m)

-- `expect` and `skipped`
pub record Counts : Type 0 where
  pub expect : Map ℕ ℕ
  pub skipped : Map ℕ ℕ

-- One entry of the value: an old one is fatal.
unfoldable pub count_entry : EntryN → Counts → Option Counts
count_entry e c =
    let due = get_or e.id 0 c.expect in
    if ltb e.n due
    then none
    else if eqb due e.n
    then some (record c { expect = insert e.id (due + 1) c.expect })
    else some (record {
      expect = insert e.id (e.n + 1) c.expect;
      skipped = insert e.id (get_or e.id 0 c.skipped + (e.n - due)) c.skipped;
    })

unfoldable pub count_entries : List EntryN → Counts → Option Counts
count_entries [] c = some c
count_entries (e ∷ es) c = elim (count_entry e c) [
  | none ↦ none
  | some next ↦ count_entries es next
]

-- The last loop, over `expect` in the order of the map
unfoldable pub check_clients : Map ℕ ℕ → Map ℕ ℕ → List ClntRes → Outcome (Unit {0})
check_clients [] skipped rs = ok tt
check_clients ((c, n) ∷ expect) skipped rs =
    let rest = check_clients expect skipped rs in
    elim (get_elem? rs c) [
      | none ↦ panic
      | some r ↦
          if ltb r.nmaybe (get_or c 0 skipped)
          then fatal
          else if ltb (r.nok + r.nmaybe) n
          then fatal
          else rest
    ]

unfoldable pub check_appends : List EntryN → ℕ → List ClntRes → ℕ → Outcome (Unit {0})
check_appends es nclnt rs ver =
    let cleared : Map ℕ ℕ = clear_from 0 nclnt [] in
    elim (count_entries es (record { expect = cleared; skipped = cleared })) [
      | none ↦ fatal
      | some c ↦
          if not (eqb (length es + 1) ver) then fatal else check_clients c.expect c.skipped rs
    ]

-- The log of operations, of src/kvtest1/porcupine.go
module _ {A : Type 0} where
  unfoldable pub log_len : List A → ℕ
  log_len operations = length operations

  unfoldable pub log_append : A → List A → List A
  log_append op operations = operations ++ (op ∷ [])

  -- A copy, element for element
  unfoldable pub log_read : List A → List A
  log_read [] = []
  log_read (op ∷ operations) = op ∷ log_read operations
