-- ===== src/KvTest/Logged/History.antt =====
-- The log of a client's calls is a history that the model accepts, if the service is one of a key.
use pluggable_sharded_fault.Base.{
  ℕ, ◌+◌, ◌%◌, ◌^◌, ◌≡◌, ◌≢◌, refl, sym, ap, ◌∙◌, ◌⊎◌, inl, inr, true, some, List, [], ◌∷◌, ◌++◌,
  map, String, ℤ, arith, eqb, string_eq, Bool-cases, false, ◌==◌,
}
use mathlib.Core.List.{append_assoc, append-nil}
use pluggable_sharded_fault.KvModel.{KvInput, KvOutput, KvState, step, step_put}
use pluggable_sharded_fault.KvModel.Versions.{Legal, done, then_step}
use pluggable_sharded_fault.KvTest.{KvClerk, log_append}
use pluggable_sharded_fault.KvTest.Logged.{
  Operation, Session, note, input_of_get, input_of_put, output_of_get, output_of_put, logged_get,
  logged_put,
}

-- A call of a client, with its times
pub data Call : Type 0 where
  get_call : (start end : ℕ) (cli : ℤ) → Call
  put_call : (value : String) (version start end : ℕ) (cli : ℤ) → Call

abbrev pub pair : Operation → KvInput × KvOutput
pair op = (op.input, op.output)

-- A service with one key's value and version: a get reads them; a put is made at the key's version,
-- which it counts up, and changes nothing at another; either kind of put may answer ErrMaybe.
pub record Serves {W : Type 0} (ck : KvClerk W) (key : String) (state : W → KvState) : Type 0 where
  pub gets : (w : W) → (ck.get key w).0 ≡ ((state w).value, (state w).version, "OK")
  pub reads : (w : W) → state (ck.get key w).1 ≡ state w
  pub puts :
      (value : String) (w : W)
      → ((ck.put key value (state w).version w).0 ≡ "OK")
        ⊎ ((ck.put key value (state w).version w).0 ≡ "ErrMaybe")
  pub writes :
      (value : String) (w : W)
      → state (ck.put key value (state w).version w).1
        ≡ record { value = value; version = ((state w).version + 1) % 2 ^ 64 }
  pub refuses :
      (value : String) (version : ℕ) (w : W)
      → version ≢ (state w).version
      → ((ck.put key value version w).0 ≡ "ErrVersion")
        ⊎ ((ck.put key value version w).0 ≡ "ErrMaybe")
  pub keeps :
      (value : String) (version : ℕ) (w : W)
      → version ≢ (state w).version
      → state (ck.put key value version w).1 ≡ state w

step-current :
    (key value err : String) (st : KvState)
    → (err ≡ "OK") ⊎ (err ≡ "ErrMaybe")
    → step st (input_of_put key value st.version) (output_of_put err)
      ≡ (true, some (record { value = value; version = (st.version + 1) % 2 ^ 64 }))
unfolding step step_put
step-current key value err st answered =
    let same : eqb st.version st.version ≡ true = ground arith in
    elim answered [ inl done_it ↦ rw (same, done_it) | inr maybe ↦ rw (same, maybe) ]

step-late :
    (key value : String) (version : ℕ) (err : String) (st : KvState)
    → version ≢ st.version
    → (err ≡ "ErrVersion") ⊎ (err ≡ "ErrMaybe")
    → step st (input_of_put key value version) (output_of_put err) ≡ (true, some st)
unfolding step step_put
step-late key value version err st late answered =
    let other : eqb st.version version ≡ false = ground arith in
    elim answered [ inl refused ↦ rw (other, refused) | inr maybe ↦ rw (other, maybe) ]

module _ {W : Type 0} (ck : KvClerk W) (key : String) where
  unfoldable pub calls : List Call → Session W → Session W
  calls [] s = s
  calls (get_call start end cli ∷ rest) s = calls rest (logged_get ck key start end cli s).1
  calls (put_call value version start end cli ∷ rest) s =
      calls rest (logged_put ck key value version start end cli s).1

  -- The operation tells of the call at the world: its input is the call's, with the key; its output
  -- is the answer of the service; its times and client are the call's.
  abbrev pub TellsOf : Call → W → Operation → Type 0
  TellsOf (get_call start end cli) w op =
      (op.input.op ≡ 0)
      × (op.input.key ≡ key)
      × (op.output.value ≡ (ck.get key w).0.0)
      × (op.output.version ≡ (ck.get key w).0.1)
      × (op.output.err ≡ (ck.get key w).0.2)
      × (op.call ≡ start)
      × (op.ret ≡ end)
      × (op.client_id ≡ cli)
  TellsOf (put_call value version start end cli) w op =
      (op.input ≡ record { op = 1; key = key; value = value; version = version })
      × (op.output.err ≡ (ck.put key value version w).0)
      × (op.call ≡ start)
      × (op.ret ≡ end)
      × (op.client_id ≡ cli)

  abbrev pub world_after : Call → W → W
  world_after (get_call start end cli) w = (ck.get key w).1
  world_after (put_call value version start end cli) w = (ck.put key value version w).1

  -- One operation for each call, in order
  abbrev pub AllTold : List Call → W → List Operation → Type 0
  AllTold [] w [] = Unit {0}
  AllTold [] w (op ∷ ops) = ⊥
  AllTold (call ∷ rest) w [] = ⊥
  AllTold (call ∷ rest) w (op ∷ ops) = TellsOf call w op × AllTold rest (world_after call w) ops

  module _ (state : W → KvState) (serves : Serves ck key state) where
    put-accepted :
        (value : String) (version : ℕ) (w : W)
        → step
            (state w)
            (input_of_put key value version)
            (output_of_put (ck.put key value version w).0)
          ≡ (true, some (state (ck.put key value version w).1))
    put-accepted value version w = elim (Bool-cases (eqb version (state w).version)) [
      | inl current ↦
          let same : version ≡ (state w).version = ground arith in
          rw same (
            step-current key value (ck.put key value (state w).version w).0 (state w)
              (serves.puts value w)
            ∙ ap (λ st. (true, some st)) (sym (serves.writes value w)))
      | inr late ↦
          let other : version ≢ (state w).version = λ same. ground arith in
          step-late key value version (ck.put key value version w).0 (state w) other
            (serves.refuses value version w other)
          ∙ ap (λ st. (true, some st)) (sym (serves.keeps value version w other))
    ]

    get-accepted :
        (w : W)
        → step (state w) (input_of_get key) (output_of_get (ck.get key w).0)
          ≡ (true, some (state (ck.get key w).1))
    unfolding step
    get-accepted w =
        ap (λ v. (v == (state w).value, some (state w))) (ap (λ r. r.0) (serves.gets w))
        ∙ ap (λ b. (b, some (state w)))
            ((string_eq.same_iff (state w).value (state w).value).1 refl)
        ∙ ap (λ st. (true, some st)) (sym (serves.reads w))

    -- The log after a session that was logged gains a history of the calls, which the model accepts.
    abbrev pub Logs : List Call → List Operation → W → Session W → Type 0
    Logs todo log w s =
        (new : List Operation) × (s.oplog ≡ some (log ++ new))
        × AllTold todo w new
        × Legal (state w) (map pair new) (state s.world)

    one_more :
        (call : Call) (todo : List Call) (log : List Operation) (op : Operation) (w : W)
        (s : Session W)
        → TellsOf call w op
        → step (state w) op.input op.output ≡ (true, some (state (world_after call w)))
        → Logs todo (log_append op log) (world_after call w) s
        → Logs (call ∷ todo) log w s
    unfolding log_append
    one_more call todo log op w s told accepted (new, logged, all, legal) = (
      op ∷ new,
      logged ∙ ap some (append_assoc log (op ∷ []) new),
      (told, all),
      then_step op.input op.output accepted legal,
    )

    -- Over a service with one key's value and version, calls on that key, one after the other: the
    -- log gains one operation for each call, in order, which tells of the call's input, of the
    -- service's answer, of its times and its client. These operations are a history that the model
    -- of the key accepts, from the service's state before the calls to its state after them.
    pub calls-Legal :
        (todo : List Call) (log : List Operation) (s : Session W)
        → s.oplog ≡ some log
        → Logs todo log s.world (calls todo s)
    unfolding calls logged_get logged_put note
    calls-Legal [] log s h = ([], h ∙ ap some (sym (append-nil log)), tt, done)
    calls-Legal (get_call start end cli ∷ rest) log s h =
        let op : Operation = record {
          input = input_of_get key;
          output = output_of_get (ck.get key s.world).0;
          call = start;
          ret = end;
          client_id = cli;
        } in
        one_more (get_call start end cli) rest log op s.world
          (calls rest (logged_get ck key start end cli s).1)
          (refl, refl, refl, refl, refl, refl, refl, refl) (get-accepted s.world)
          (calls-Legal rest (log_append op log) (logged_get ck key start end cli s).1
            (ap (note op) h))
    calls-Legal (put_call value version start end cli ∷ rest) log s h =
        let op : Operation = record {
          input = input_of_put key value version;
          output = output_of_put (ck.put key value version s.world).0;
          call = start;
          ret = end;
          client_id = cli;
        } in
        one_more (put_call value version start end cli) rest log op s.world
          (calls rest (logged_put ck key value version start end cli s).1)
          (refl, refl, refl, refl, refl) (put-accepted value version s.world)
          (calls-Legal rest (log_append op log) (logged_put ck key value version start end cli s).1
            (ap (note op) h))
