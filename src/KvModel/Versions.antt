-- ===== src/KvModel/Versions.antt =====
-- Sequences of operations that the model accepts one after the other.
use mathlib.Core.Path.{subst}
use pluggable_sharded_fault.Base.{
  ℕ, ◌+◌, ◌%◌, ◌^◌, ◌≡◌, ◌≤◌, ◌<◌, refl, sym, true, false, ◌&&◌, some, List, [], ◌∷◌, String, arith,
  if◌then◌else◌, eqb, ◌==◌, string_eq, length,
}
use pluggable_sharded_fault.KvModel.{KvInput, KvOutput, KvState, step}

-- From one state to another by operations that are all accepted
pub data Legal : KvState → List (KvInput × KvOutput) → KvState → Type 0 where
  done : {st : KvState} → Legal st [] st
  then_step :
      {st mid last : KvState} (inp : KvInput) (out : KvOutput) {ops : List (KvInput × KvOutput)}
      → step st inp out ≡ (true, some mid)
      → Legal mid ops last
      → Legal st ((inp, out) ∷ ops) last

abbrev pub puts : List (KvInput × KvOutput) → ℕ
puts [] = 0
puts ((inp, out) ∷ ops) = (if eqb inp.op 1 then 1 else 0) + puts ops

abbrev pub ok_puts : List (KvInput × KvOutput) → ℕ
ok_puts [] = 0
ok_puts ((inp, out) ∷ ops) = (if eqb inp.op 1 && out.err == "OK" then 1 else 0) + ok_puts ops

ok_is_no_error :
    (err : String)
    → (err == "OK") ≡ true
    → ((err == "ErrVersion") ≡ false) × ((err == "ErrMaybe") ≡ false)
ok_is_no_error err h =
    subst (λ e. ((e == "ErrVersion") ≡ false) × ((e == "ErrMaybe") ≡ false))
      (sym ((string_eq.same_iff err "OK").0 h)) (refl, refl)

next_version : (v : ℕ) → v + 1 < 2 ^ 64 → (v + 1) % 2 ^ 64 ≡ v + 1
next_version v h = omega (arith, h)

step-version :
    (st mid : KvState) (inp : KvInput) (out : KvOutput)
    → step st inp out ≡ (true, some mid)
    → st.version + 1 < 2 ^ 64
    → (st.version + (if eqb inp.op 1 && out.err == "OK" then 1 else 0) ≤ mid.version)
      × (mid.version ≤ st.version + (if eqb inp.op 1 then 1 else 0))
unfolding step
step-version st mid inp out h room =
    ground (arith, ok_is_no_error out.err, next_version st.version room)

-- In a sequence of operations that the model accepts one by one, the version grows by at least the
-- puts that returned OK and at most all puts, as long as it stays within 64 bits.
pub Legal-version :
    {st last : KvState} {ops : List (KvInput × KvOutput)}
    → Legal st ops last
    → st.version + length ops < 2 ^ 64
    → (st.version + ok_puts ops ≤ last.version) × (last.version ≤ st.version + puts ops)
Legal-version done room = omega arith
Legal-version {st = st} (then_step {mid = mid} inp out accepted rest) room =
    let first = step-version st mid inp out accepted (omega (arith, room)) in
    let small : mid.version ≤ st.version + 1 = ground (arith, first.1) in
    let more = Legal-version rest (omega (arith, room, small)) in ground (arith, first, more)
