-- ===== src/KvTest/Logged.antt =====
-- The gets and puts that the tests log for the linearizability checker: `Get` and `Put` of
-- src/kvtest1/porcupine.go. The times of a call are arguments.
pub mod History
use pluggable_sharded_fault.Base.{ℕ, ◌+◌, ◌∷◌, [], List, Option, none, some, String, ℤ}
use pluggable_sharded_fault.KvModel.{KvInput, KvOutput}
use pluggable_sharded_fault.KvTest.{KvClerk, log_append}

-- `porcupine.Operation`
pub record Operation : Type 0 where
  pub input : KvInput
  pub output : KvOutput
  pub call : ℕ
  pub ret : ℕ
  pub client_id : ℤ

-- What a clerk acts on, the log, nil where nothing is logged, and how often `cfg.Op` was called
pub record Session (W : Type 0) : Type 0 where
  pub world : W
  pub oplog : Option (List Operation)
  pub ops : ℕ

unfoldable pub note : Operation → Option (List Operation) → Option (List Operation)
note op none = none
note op (some log) = some (log_append op log)

abbrev pub input_of_get : String → KvInput
input_of_get key = record { op = 0; key = key; value = ""; version = 0 }

abbrev pub input_of_put : String → String → ℕ → KvInput
input_of_put key value version = record { op = 1; key = key; value = value; version = version }

abbrev pub output_of_get : String × ℕ × String → KvOutput
output_of_get (value, version, err) = record { value = value; version = version; err = err }

abbrev pub output_of_put : String → KvOutput
output_of_put err = record { value = ""; version = 0; err = err }

module _ {W : Type 0} (ck : KvClerk W) where
  unfoldable pub logged_get : String → ℕ → ℕ → ℤ → Session W → (String × ℕ × String) × Session W
  logged_get key start end cli s =
      let (answer, now) = ck.get key s.world in
      (
        answer,
        record {
          world = now;
          oplog =
              note
                (record {
                  input = input_of_get key;
                  output = output_of_get answer;
                  call = start;
                  ret = end;
                  client_id = cli;
                })
                s.oplog;
          ops = s.ops + 1;
        },
      )

  unfoldable pub logged_put : String → String → ℕ → ℕ → ℕ → ℤ → Session W → String × Session W
  logged_put key value version start end cli s =
      let (err, now) = ck.put key value version s.world in
      (
        err,
        record {
          world = now;
          oplog =
              note
                (record {
                  input = input_of_put key value version;
                  output = output_of_put err;
                  call = start;
                  ret = end;
                  client_id = cli;
                })
                s.oplog;
          ops = s.ops + 1;
        },
      )
