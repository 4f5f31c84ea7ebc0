-- ===== src/Examples/OnePut.antt =====
-- A client that puts until it succeeds, at a version that the key no longer has.
use pluggable_sharded_fault.Base.{
  ◌≡◌, refl, ap, ◌+◌, ◌%◌, ◌^◌, Option, none, some, List, [], ◌∷◌, String, eqb, true, false, arith,
  ok,
}
use pluggable_sharded_fault.KvModel.{KvState}
use pluggable_sharded_fault.KvTest.{EntryN}
use pluggable_sharded_fault.KvTest.OnePut.{EntryV, one_put}
use pluggable_sharded_fault.KvTest.OnePut.Returns.{Sole, one_put-Returns}
use pluggable_sharded_fault.Examples.Appends.{encode, decode, decode-encode}
use pluggable_sharded_fault.Examples.Logged.{one_key}

abbrev encode_one : EntryV → String
encode_one e = encode (record { id = e.id; n = e.v } ∷ [])

abbrev only : Option (List EntryN) → Option EntryV
only (some (e ∷ [])) = some (record { id = e.id; v = e.n })
only (some []) = none
only (some (e ∷ f ∷ es)) = none
only none = none

abbrev decode_one : String → Option EntryV
decode_one s = only (decode s)

decode_one-encode_one : (e : EntryV) → decode_one (encode_one e) ≡ some e
decode_one-encode_one e = ap only (decode-encode (record { id = e.id; n = e.v } ∷ []))

one_key-Sole : Sole one_key "x" (λ w. w)
one_key-Sole = record {
  gets = λ w. (w, refl, refl);
  puts = λ value w.
      let same : eqb w.version w.version ≡ true = ground arith in
      (record { value = value; version = (w.version + 1) % 2 ^ 64 }, rw same, refl);
  refuses = λ value version w late.
      let other : eqb w.version version ≡ false = ground arith in (w, rw other, refl);
}

abbrev old_state : KvState
old_state = record { value = encode_one (record { id = 7; v = 2 }); version = 3 }

one_put-Returns_example :
    (now : KvState) × (one_put one_key encode_one decode_one 2 1 "x" 0 old_state
      ≡ ok ((4, true), now))
    × (now ≡ record { value = encode_one (record { id = 1; v = 3 }); version = 4 })
one_put-Returns_example =
    one_put-Returns one_key encode_one decode_one "x" (λ w. w) one_key-Sole decode_one-encode_one 0
      1 0 old_state (record { id = 7; v = 2 }) refl
