-- ===== src/KvTest/OnePut.antt =====
-- One put of a client among others, with values in JSON: `OnePut`, `GetJson`, `PutJson` and
-- `PutAtLeastOnceJson` of src/kvtest1/kvtest.go. The clerk may be one whose calls are logged.
pub mod Returns
use pluggable_sharded_fault.Base.{
  ℕ, zero, suc, ◌+◌, ◌%◌, ◌^◌, Bool, true, false, not, ◌&&◌, ◌||◌, Option, none, some, String, eqb,
  if◌then◌else◌, Outcome, ok, panic, fatal, stuck, ◌==◌, string_eq, ℤ,
}
use pluggable_sharded_fault.KvTest.{KvClerk, ok_err, err_version, err_maybe}
use pluggable_sharded_fault.KvTest.Logged.{Session, logged_get, logged_put}

pub record EntryV : Type 0 where
  pub id : ℕ
  pub v : ℕ

-- The clerk of a client whose calls are logged. Its times depend on how many calls there were.
abbrev pub logged_clerk : {W : Type 0} → KvClerk W → (ℕ → ℕ × ℕ) → ℤ → KvClerk (Session W)
logged_clerk ck times me = record {
  get = λ key s. logged_get ck key (times s.ops).0 (times s.ops).1 me s;
  put = λ key value version s. logged_put ck key value version (times s.ops).0 (times s.ops).1 me s;
}

-- `decode` is `json.Unmarshal` at `V`.
unfoldable pub read_json :
    {W V : Type 0} → (String → Option V) → (String × ℕ × String) × W → Outcome ((V × ℕ) × W)
read_json decode ((val, ver, err), now) =
    if err == ok_err
    then (elim (decode val) [ none ↦ fatal | some v ↦ ok ((v, ver), now) ])
    else fatal

-- `encode` and `decode` are `json.Marshal` and `json.Unmarshal` at `V`.
module _ {W V : Type 0} (ck : KvClerk W) (encode : V → String) (decode : String → Option V) where
  unfoldable pub get_json : String → W → Outcome ((V × ℕ) × W)
  get_json key w = read_json decode (ck.get key w)

  unfoldable pub put_json : String → V → ℕ → W → String × W
  put_json key v ver w = ck.put key (encode v) ver w

  -- The loop runs on fuel. Each put is at version 0.
  unfoldable pub put_at_least_once_json : ℕ → String → V → ℕ → W → Outcome (ℕ × W)
  put_at_least_once_json zero key value ver w = stuck
  put_at_least_once_json (suc fuel) key value ver w =
      let (err, now) = put_json key value 0 w in
      let again = put_at_least_once_json fuel key value ((ver + 1) % 2 ^ 64) now in
      if not (err == err_maybe) then ok (ver, now) else again

abbrev pub wrong_value : EntryV → ℕ → ℕ → Bool
wrong_value e me ver = not (eqb e.id me) && not (eqb e.v ver)

-- What a turn of `OnePut` makes of the answers to its put and its get: the result, or where to go on
unfoldable pub one_turn :
    {W : Type 0} → ℕ → ℕ → String → Outcome ((EntryV × ℕ) × W) → Outcome (Bool × (ℕ × Bool) × W)
one_turn me ver err (ok ((e, ver0), now)) =
    if err == ok_err && eqb ver0 ((ver + 1) % 2 ^ 64) && wrong_value e me ver
    then fatal
    else ok (err == ok_err || err == err_maybe, (ver0, err == ok_err), now)
one_turn me ver err panic = panic
one_turn me ver err fatal = fatal
one_turn me ver err stuck = stuck

module _ {W : Type 0} (ck : KvClerk W) (encode : EntryV → String)
    (decode : String → Option EntryV) where
  -- The get that follows a put, with the put's answer
  unfoldable pub check_put : ℕ → String → ℕ → String × W → Outcome (Bool × (ℕ × Bool) × W)
  check_put me key ver (err, now) =
      if not (err == ok_err || (err == err_version || err == err_maybe))
      then fatal
      else one_turn me ver err (get_json ck encode decode key now)

  -- The loop runs on fuel.
  unfoldable pub one_put : ℕ → ℕ → String → ℕ → W → Outcome ((ℕ × Bool) × W)
  one_put zero me key ver w = stuck
  one_put (suc fuel) me key ver w =
      let answer = put_json ck encode decode key (record { id = me; v = ver }) ver w in
      elim (check_put me key ver answer) [
        | ok (done, (ver0, won), now) ↦
            let again = one_put fuel me key ver0 now in
            if done then ok ((ver0, won), now) else again
        | panic ↦ panic
        | fatal ↦ fatal
        | stuck ↦ stuck
      ]
