-- ===== src/KvTest/Run/Invariant.antt =====
-- What every run of appending clients keeps.
use pluggable_sharded_fault.Base.{
  ℕ, ◌+◌, ◌%◌, ◌^◌, ◌≤◌, ◌<◌, ◌≡◌, ◌≢◌, refl, sym, ap, ◌∙◌, true, false, Option, some, List, [],
  String, ◌==◌, string_eq, nat_eq, eqb, eqb_iff, arith, lookup, Bool-cases, inl, inr, ◌⊎◌,
}
use mathlib.Core.Path.{subst}
use mathlib.Core.Option.{some-injective}
use pluggable_sharded_fault.KvModel.{KvOutput, KvState, step, step_put}
use pluggable_sharded_fault.KvTest.{ok_err, err_maybe, EntryN, Counts, count_entries}
use pluggable_sharded_fault.KvTest.Run.{
  before_get, before_put, Client, World, set_client, appended, after_put, get_input, put_input,
  gets, puts, start_world, AppendRun, started, ran,
}
use pluggable_sharded_fault.KvTest.Run.Counting.{
  count_entry-some, clear_from-zero, length-appended, ids-appended, counted-appended,
}
use pluggable_sharded_fault.KvTest.Run.Agreement.{
  cleared, Agrees, Holds, Agrees-quiet, Agrees-put, Agrees-other, after_put-answered,
  after_put-failed, set_client_all,
}

module _ (encode : List EntryN → String) (decode : String → Option (List EntryN)) where
  -- What the model allows a put to do
  put_cases :
      (st next : KvState) (me : ℕ) (c : Client) (es : List EntryN) (ver : ℕ) (out : KvOutput)
      → st.version + 1 < 2 ^ 64
      → step st (put_input encode decode me c es ver) out ≡ (true, some next)
      → ((st.version ≡ ver)
          × (next ≡ record { value = encode (appended me c es); version = st.version + 1 })
          × ((out.err ≡ ok_err) ⊎ (out.err ≡ err_maybe)))
        ⊎ ((st.version ≢ ver) × (next ≡ st) × (out.err ≢ ok_err))
  unfolding step step_put put_input
  put_cases st next me c es ver out room h =
      let full : (st.version + 1) % 2 ^ 64 ≡ st.version + 1 = omega (arith, room) in
      elim (Bool-cases (eqb st.version ver)) [
        | inl same ↦ inl (
          ground (arith, same),
          ground (arith, h, same, full),
          ground (
            arith,
            h,
            same,
            string_eq.same_iff out.err "OK",
            string_eq.same_iff out.err "ErrMaybe",
          ),
        )
        | inr other ↦ inr (
          ground (arith, other),
          ground (arith, h, other),
          λ e.
              let version : (out.err == "ErrVersion") ≡ false = ap (λ x. x == "ErrVersion") e in
              let maybe : (out.err == "ErrMaybe") ≡ false = ap (λ x. x == "ErrMaybe") e in
              ground (arith, h, other, version, maybe),
        )
      ]

  -- A put that is accepted
  Holds-accepted :
      {n : ℕ} {w : World} {es : List EntryN} {r : Counts} (me : ℕ) (next : KvState) (d : Client)
      → me < n
      → Holds n encode w es r
      → next
        ≡ record { value = encode (appended me (w.client me) es); version = w.store.version + 1 }
      → d.phase ≡ before_get
      → d.nok ≤ (w.client me).nok + 1
      → d.i ≡ (w.client me).i + 1
      → d.i ≡ d.nok + d.nmay
      → (q : Counts) × Holds n encode
          (record { store = next; client = set_client w.client me d })
          (appended me (w.client me) es)
          q
  Holds-accepted {n} {w} {es} {r} me next d small a it phase nok i tried =
      let c = w.client me in
      let e : EntryN = record { id = me; n = c.i } in
      let (q, one, each) = count_entry-some e r (a.clients me).due in
      let version : next.version ≡ w.store.version + 1 = ap (λ s. s.version) it in
      (
        q,
        record {
          value = ap (λ s. s.value) it;
          version = omega (arith, version, a.version, length-appended me c es);
          ids = ids-appended me c es a.ids small;
          counted = counted-appended me c es (cleared n) r q a.counted one;
          clients =
              set_client_all w.client me d (Agrees next.version (appended me c es) q)
                (subst (λ v. Agrees v (appended me c es) q me d) (sym version)
                  (Agrees-put (a.clients me) (ground (arith, each me, eqb_iff me me)) phase nok i
                    tried))
                (λ j other.
                  subst (λ v. Agrees v (appended me c es) q j (w.client j)) (sym version)
                    (Agrees-other c other (a.clients j)
                      (ground (arith, each j, other, eqb_iff me j))));
        },
      )

  -- A client that changes while the store does not
  Holds-client :
      {n : ℕ} {w : World} {es : List EntryN} {r : Counts} (me : ℕ) (d : Client)
      → Holds n encode w es r
      → Agrees w.store.version es r me d
      → Holds n encode (record w { client = set_client w.client me d }) es r
  Holds-client {w = w} {es = es} {r = r} me d a now = record {
    value = a.value;
    version = a.version;
    ids = a.ids;
    counted = a.counted;
    clients =
        set_client_all w.client me d (Agrees w.store.version es r) now (λ j other. a.clients j);
  }

  Holds-puts :
      {n : ℕ} {w : World} {es : List EntryN} {r : Counts} (me : ℕ) (out : KvOutput)
      {got : List EntryN} {ver : ℕ} {next : KvState}
      → Holds n encode w es r
      → me < n
      → (w.client me).phase ≡ before_put got ver
      → w.store.version + 1 < 2 ^ 64
      → step w.store (put_input encode decode me (w.client me) got ver) out ≡ (true, some next)
      → (now : List EntryN) × (q : Counts) × Holds n encode
          (record {
            store = next;
            client = set_client w.client me (after_put out.err (w.client me));
          })
          now
          q
  Holds-puts {n} {w} {es} {r} me out {got} {ver} {next} a small at room answer =
      let c = w.client me in
      let old = a.clients me in
      elim (put_cases w.store next me c got ver out room answer) [
        | inl (same, it, err) ↦
            let mine : got ≡ es = (old.seen got ver at).1 (sym same) in
            let stored : next
                ≡ record { value = encode (appended me c es); version = w.store.version + 1 } =
              it
              ∙ ap (λ l. record { value = encode (appended me c l); version = w.store.version + 1 })
                  mine in
            let (phase, nok, i, tried) = after_put-answered out.err c err old.tried in
            let (q, done) =
              Holds-accepted me next (after_put out.err c) small a stored phase nok i tried in
            (appended me c es, q, done)
        | inr (other, it, failed) ↦
            let (phase, nok, i, tried) = after_put-failed out.err c failed old.tried in
            let done =
              Holds-client me (after_put out.err c) a (Agrees-quiet old phase nok i tried) in
            (
              es,
              r,
              subst
                  (λ st.
                    Holds n encode
                      (record { store = st; client = set_client w.client me (after_put out.err c) })
                      es r)
                  (sym it) done,
            )
      ]

  module _ (decodes : (es : List EntryN) → decode (encode es) ≡ some es) where
    Holds-gets :
        {n : ℕ} {w : World} {es : List EntryN} {r : Counts} (me : ℕ) (out : KvOutput)
        {got : List EntryN}
        → Holds n encode w es r
        → (step w.store get_input out).0 ≡ true
        → out.version ≡ w.store.version
        → decode out.value ≡ some got
        → Holds n encode
            (record w {
              client =
                  set_client w.client me
                    (record (w.client me) { phase = before_put got out.version });
            })
            es
            r
    unfolding step
    Holds-gets {w = w} {es = es} {r = r} me out {got} a answer same read =
        let old = a.clients me in
        let value : out.value ≡ encode es =
          ground (arith, answer, string_eq.same_iff out.value w.store.value, a.value) in
        let mine : got ≡ es = some-injective got es (sym read ∙ ap decode value ∙ decodes es) in
        Holds-client me (record (w.client me) { phase = before_put got out.version }) a
          (record {
            seen = λ held ver h. (ground (arith, h, same), λ e. ground (arith, h, mine));
            tried = old.tried;
            kept = old.kept;
            due = old.due;
          })

    Holds-start : (n : ℕ) → Holds n encode (start_world encode decode) [] (cleared n)
    unfolding start_world count_entries lookup
    Holds-start n = record {
      value = refl;
      version = refl;
      ids = tt;
      counted = refl;
      clients = λ me. record {
        seen = λ got ver h. cc;
        tried = refl;
        kept = omega arith;
        due = omega (arith, clear_from-zero me 0 n [] refl);
      };
    }

    -- The store of a run has the entries that the clients appended, as its count tells.
    pub AppendRun-Holds :
        {n : ℕ} {w : World}
        → AppendRun encode decode n w
        → (es : List EntryN) × (r : Counts) × Holds n encode w es r
    AppendRun-Holds {n} started = ([], cleared n, Holds-start n)
    AppendRun-Holds (ran run (gets me out small idle answer same fine read)) =
        let (es, r, a) = AppendRun-Holds run in (es, r, Holds-gets me out a answer same read)
    AppendRun-Holds (ran run (puts me out small at room answer)) =
        let (es, r, a) = AppendRun-Holds run in Holds-puts me out a small at room answer
