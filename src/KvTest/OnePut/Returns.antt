-- ===== src/KvTest/OnePut/Returns.antt =====
-- Two turns of `OnePut` are enough where no other client puts.
use pluggable_sharded_fault.Base.{
  ℕ, suc, ◌+◌, ◌%◌, ◌^◌, ◌≡◌, ap, sym, ◌∙◌, true, false, Option, some, String, ok, arith, eqb, Bool,
  Bool-cases, inl, inr,
}
use pluggable_sharded_fault.KvModel.{KvState}
use pluggable_sharded_fault.KvTest.{KvClerk}
use pluggable_sharded_fault.KvTest.OnePut.{
  EntryV, one_turn, check_put, read_json, get_json, put_json, one_put,
}

-- The service has one key's value and version, and no other client puts.
pub record Sole {W : Type 0} (ck : KvClerk W) (key : String) (state : W → KvState) : Type 0 where
  pub gets :
      (w : W)
      → (now : W) × (ck.get key w ≡ (((state w).value, (state w).version, "OK"), now))
        × (state now ≡ state w)
  pub puts :
      (value : String) (w : W)
      → (now : W) × (ck.put key value (state w).version w ≡ ("OK", now))
        × (state now ≡ record { value = value; version = ((state w).version + 1) % 2 ^ 64 })
  pub refuses :
      (value : String) (version : ℕ) (w : W)
      → ¬ (version ≡ (state w).version)
      → (now : W) × (ck.put key value version w ≡ ("ErrVersion", now)) × (state now ≡ state w)

module _ {W : Type 0} (ck : KvClerk W) (encode : EntryV → String) (decode : String → Option EntryV)
    (key : String) (state : W → KvState) (sole : Sole ck key state) where
  get_json-state :
      (w : W) (e : EntryV)
      → decode (state w).value ≡ some e
      → (now : W) × (get_json ck encode decode key w ≡ ok ((e, (state w).version), now))
        × (state now ≡ state w)
  unfolding get_json read_json
  get_json-state w e h =
      let (now, answer, same) = sole.gets w in (now, (ap (read_json decode) answer ∙ rw h), same)

  won_turn :
      (me ver ver0 : ℕ) (v : W)
      → one_turn me ver "OK" (ok ((record { id = me; v = ver }, ver0), v))
        ≡ ok (true, (ver0, true), v)
  unfolding one_turn
  won_turn me ver ver0 v = ground arith

  abbrev Wrote : ℕ → W → W → Type 0
  Wrote me w now = state now ≡ record {
    value = encode (record { id = me; v = (state w).version });
    version = ((state w).version + 1) % 2 ^ 64;
  }

  turn-current :
      (decode_encode : (e : EntryV) → decode (encode e) ≡ some e) (me : ℕ) (w : W)
      → (now : W) × (check_put ck encode decode me key (state w).version (
            put_json ck encode decode key
              (record { id = me; v = (state w).version })
              (state w).version
              w)
          ≡ ok (true, (((state w).version + 1) % 2 ^ 64, true), now))
        × Wrote me w now
  unfolding put_json check_put
  turn-current decode_encode me w =
      let mine : EntryV = record { id = me; v = (state w).version } in
      let (mid, put, stored) = sole.puts (encode mine) w in
      let (now, got, same) =
        get_json-state mid mine (ap (λ s. decode s.value) stored ∙ decode_encode mine) in
      let turn =
        ap (check_put ck encode decode me key (state w).version) put
        ∙ ap (one_turn me (state w).version "OK") got
        ∙ won_turn me (state w).version (state mid).version now in
      (now, turn ∙ ap (λ s. ok (true, (s.version, true), now)) stored, same ∙ stored)

  turn-late :
      (me ver : ℕ) (w : W) (old : EntryV)
      → decode (state w).value ≡ some old
      → ¬ (ver ≡ (state w).version)
      → (now : W) × (check_put ck encode decode me key ver
            (put_json ck encode decode key (record { id = me; v = ver }) ver w)
          ≡ ok (false, ((state w).version, false), now))
        × (state now ≡ state w)
  unfolding put_json check_put one_turn
  turn-late me ver w old h late =
      let (mid, put, kept) = sole.refuses (encode (record { id = me; v = ver })) ver w late in
      let (now, got, same) = get_json-state mid old (ap (λ s. decode s.value) kept ∙ h) in
      (
        now,
        ap (check_put ck encode decode me key ver) put
            ∙ ap (one_turn me ver "ErrVersion") got
            ∙ ap (λ s. ok (false, (s.version, false), now)) kept,
        same ∙ kept,
      )

  one_put-current :
      (decode_encode : (e : EntryV) → decode (encode e) ≡ some e) (fuel me : ℕ) (w : W)
      → (now : W) × (one_put ck encode decode (suc fuel) me key (state w).version w
          ≡ ok ((((state w).version + 1) % 2 ^ 64, true), now))
        × Wrote me w now
  unfolding one_put
  one_put-current decode_encode fuel me w =
      let (now, turn, wrote) = turn-current decode_encode me w in (now, rw (one_put, turn), wrote)

  one_put-goes_on :
      (fuel me ver ver0 : ℕ) (won : Bool) (w mid : W)
      → check_put ck encode decode me key ver
          (put_json ck encode decode key (record { id = me; v = ver }) ver w)
        ≡ ok (false, (ver0, won), mid)
      → one_put ck encode decode (suc fuel) me key ver w
        ≡ one_put ck encode decode fuel me key ver0 mid
  unfolding one_put
  one_put-goes_on fuel me ver ver0 won w mid turn = rw (one_put, turn)

  -- Over a clerk that always answers, of a key that no other client puts: with two turns of the loop
  -- or more, from any version, `one_put` returns that its put succeeded, with the version one more
  -- than the key had, wrapped to 64 bits, and the key then has that version and this client's
  -- entry. The key's old value has to decode, and an encoded entry to decode to itself.
  pub one_put-Returns :
      (decode_encode : (e : EntryV) → decode (encode e) ≡ some e) (fuel me ver : ℕ) (w : W)
      (old : EntryV)
      → decode (state w).value ≡ some old
      → (now : W) × (one_put ck encode decode (suc (suc fuel)) me key ver w
          ≡ ok ((((state w).version + 1) % 2 ^ 64, true), now))
        × Wrote me w now
  one_put-Returns decode_encode fuel me ver w old h =
      elim (Bool-cases (eqb ver (state w).version)) [
        | inl same ↦
            let now_equal : ver ≡ (state w).version = ground arith in
            rw now_equal (one_put-current decode_encode (suc fuel) me w)
        | inr late ↦
            let (mid, turn, kept) = turn-late me ver w old h (λ e. ground arith) in
            let (now, again, wrote) = one_put-current decode_encode fuel me mid in
            (
              now,
              one_put-goes_on (suc fuel) me ver (state w).version false w mid turn
                  ∙ ap (λ s. one_put ck encode decode (suc fuel) me key s.version mid) (sym kept)
                  ∙ again
                  ∙ ap (λ s. ok (((s.version + 1) % 2 ^ 64, true), now)) kept,
              wrote
                  ∙ ap
                      (λ s. record {
                        value = encode (record { id = me; v = s.version });
                        version = (s.version + 1) % 2 ^ 64;
                      })
                      kept,
            )
      ]
