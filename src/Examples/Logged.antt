-- ===== src/Examples/Logged.antt =====
-- A logged put and get on a key, over a service that has the key's state.
use pluggable_sharded_fault.Base.{
  ◌≡◌, refl, ◌+◌, ◌++◌, ◌%◌, ◌^◌, some, List, [], ◌∷◌, map, pos, eqb, if◌then◌else◌, true, false,
  string_eq, arith, inl,
}
use pluggable_sharded_fault.KvModel.{KvState}
use pluggable_sharded_fault.KvTest.{KvClerk}
use pluggable_sharded_fault.KvTest.Logged.{Operation, Session}
use pluggable_sharded_fault.KvTest.Logged.History.{
  Call, get_call, put_call, Serves, calls, AllTold, calls-Legal,
}
use pluggable_sharded_fault.KvModel.Versions.{Legal}

-- A put at the current version installs the value, and no other put changes anything.
abbrev pub one_key : KvClerk KvState
one_key = record {
  get = λ key w. ((w.value, w.version, "OK"), w);
  put = λ key value version w.
      if eqb w.version version
      then ("OK", record { value = value; version = (w.version + 1) % 2 ^ 64 })
      else ("ErrVersion", w);
}

one_key-Serves : Serves one_key "x" (λ w. w)
one_key-Serves = record {
  gets = λ w. refl;
  reads = λ w. refl;
  puts = λ value w. let same : eqb w.version w.version ≡ true = ground arith in inl (rw same);
  writes = λ value w. let same : eqb w.version w.version ≡ true = ground arith in rw same;
  refuses = λ value version w late.
      let other : eqb w.version version ≡ false = ground arith in inl (rw other);
  keeps =
      λ value version w late. let other : eqb w.version version ≡ false = ground arith in rw other;
}

abbrev todo : List Call
todo = put_call "hello" 0 1 2 (pos 0) ∷ put_call "late" 0 3 4 (pos 1) ∷ get_call 5 6 (pos 0) ∷ []

abbrev opened : Session KvState
opened = record { world = record { value = ""; version = 0 }; oplog = some []; ops = 0 }

calls-Legal_example :
    (new : List Operation) × ((calls one_key "x" todo opened).oplog ≡ some ([] ++ new))
    × AllTold one_key "x" todo opened.world new
    × Legal opened.world
        (map (λ op. (op.input, op.output)) new)
        (calls one_key "x" todo opened).world
calls-Legal_example = calls-Legal one_key "x" (λ w. w) one_key-Serves todo [] opened refl
