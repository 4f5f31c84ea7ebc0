-- ===== src/Examples/RaftTest.antt =====
-- The harness of Raft on three servers.
use pluggable_sharded_fault.Base.{
  ℕ, zero, suc, ◌<◌, ◌≡◌, ◌≢◌, incr, refl, Bool, true, false, Option, none, some, List, [], ◌∷◌,
  ◌⊎◌, inl, ℤ, pos, negsuc, minus_one, arith, ok, fatal, get_elem?, lookup, int_eq, if◌then◌else◌,
  ltb, ◌<ℤ◌, ap, insert,
}
use mathlib.Core.Path.{subst}
use pluggable_sharded_fault.Raft.Peer.{Raft, make_raft, start as raft_start}
use pluggable_sharded_fault.Raft.System.{System, Ahead, here}
use pluggable_sharded_fault.RaftTest.{
  Readings, collect, last_term, one_leader_round, check_one_leader, check_terms,
}
use pluggable_sharded_fault.RaftTest.OneLeader.{says, Finds, one_leader_round_lem}
use pluggable_sharded_fault.RaftTest.Safety.{Run, read, check_one_leader-safe}
use pluggable_sharded_fault.RaftTest.Terms.{TermsEnd, check_terms_lem}
use pluggable_sharded_fault.RaftTest.Logs.{
  Command, command_eq, ApplyMsg, Rfsrv, Test, rfsrv_logs, decr, disagrees, check_logs,
  n_committed_from, n_committed,
}
use pluggable_sharded_fault.RaftTest.Logs.Agree.{Sound}
use pluggable_sharded_fault.RaftTest.Logs.Count.{
  holders, AllHold, deliver, deliver_all, n_committed_lem,
}
use pluggable_sharded_fault.RaftTest.Snapshots.{
  ingest_snap, snapshot_of, take_snapshot, check_next, finish_command, apply_command, applier_snap,
}
use pluggable_sharded_fault.RaftTest.Snapshots.RoundTrip.{entry, ingest_snap-snapshot_of}
use pluggable_sharded_fault.RaftTest.Agreement.{Attempt, raft_at, poll, find_start, one_from, one}
use pluggable_sharded_fault.RaftTest.Agreement.Reached.{Returns, one-Returns, one-start}
use pluggable_sharded_fault.Examples.Election.{won, Reach-won, thinned, Ahead-thinned}

abbrev everyone : ℕ → Bool
everyone i = true

-- Peer 1 stops while the round reads the servers.
abbrev passing : ℕ → System
passing zero = won
passing (suc i) = thinned

passes : (i : ℕ) → Ahead 3 (passing i) (passing (suc i))
passes zero = Ahead-thinned
passes (suc i) = here

abbrev run : Run 3
run = record { system = passing; reached = Reach-won; goes_on = passes }

abbrev same_run : ℕ → Run 3
same_run k = run

abbrev all_rounds : ℕ → ℕ → Bool
all_rounds k = everyone

abbrev seen : ℕ → Readings
seen k = read everyone run

check_one_leader-safe_example :
    ((k : ℕ) × (l : ℕ) × (k < 10)
      × (check_one_leader 3 seen ≡ ok l)
      × Finds 3 (seen k) (ok (some l)))
    ⊎ ((check_one_leader 3 seen ≡ fatal) × ((k i : ℕ) → k < 10 → i < 3 → says (seen k) i ≡ false))
check_one_leader-safe_example = check_one_leader-safe same_run all_rounds

-- Servers 0 and 2 claim the terms 4 and 7.
abbrev readings : Readings
readings = record {
  connected = everyone;
  state = λ i. if ltb i 2 then (pos 4, ltb i 1) else (pos 7, true);
}

readings_born : (i : ℕ) → i < 3 → says readings i ≡ true → minus_one <ℤ (readings.state i).0
readings_born i h s = ground arith

one_leader_round_lem_example : Finds 3 readings (one_leader_round 3 readings)
one_leader_round_lem_example = one_leader_round_lem 3 readings readings_born

one_leader_round_test : one_leader_round 3 readings ≡ ok (some 2)
unfolding one_leader_round collect last_term insert lookup
one_leader_round_test = refl

readings_in_term : (i : ℕ) → i < 3 → readings.connected i ≡ true → minus_one <ℤ (readings.state i).0
readings_in_term i h s = ground arith

check_terms_lem_example : TermsEnd 3 readings (check_terms 3 readings)
check_terms_lem_example = check_terms_lem 3 readings readings_in_term

abbrev server : ℕ → Rfsrv
server i = record {
  me = i;
  apply_err = false;
  last_applied = pos 0;
  persister = none;
  raft = some (make_raft 2 i []);
  logs = [];
}

abbrev fresh : Test
fresh = record {
  n = 2;
  finished = false;
  srvs = server 0 ∷ server 1 ∷ [];
  max_index = pos 0;
  snapshot = true;
}

abbrev command : ℕ → ℕ → ApplyMsg
command index v = record {
  command_valid = true;
  command = some v;
  command_index = pos index;
  snapshot_valid = false;
  snapshot = none;
  snapshot_index = pos 0;
}

abbrev messages : List (ℕ × ApplyMsg)
messages = (0, command 1 70) ∷ (1, command 1 70) ∷ (0, command 2 80) ∷ []

-- A snapshot of commands that are not nil: the index, and the commands one by one.
abbrev encode_all : List Command → List ℕ
encode_all [] = []
encode_all (none ∷ xlog) = 0 ∷ encode_all xlog
encode_all (some v ∷ xlog) = suc v ∷ encode_all xlog

abbrev encode : ℤ → List Command → List ℕ
encode (pos i) xlog = 0 ∷ i ∷ encode_all xlog
encode (negsuc i) xlog = 1 ∷ i ∷ encode_all xlog

abbrev decode_all : List ℕ → List Command
decode_all [] = []
decode_all (zero ∷ bytes) = none ∷ decode_all bytes
decode_all (suc v ∷ bytes) = some v ∷ decode_all bytes

abbrev decode : List ℕ → Option (ℤ × List Command)
decode (zero ∷ i ∷ bytes) = some (pos i, decode_all bytes)
decode (suc _ ∷ i ∷ bytes) = some (negsuc i, decode_all bytes)
decode _ = none

decode-encode_all : (xlog : List Command) → decode_all (encode_all xlog) ≡ xlog
decode-encode_all [] = refl
decode-encode_all (none ∷ xlog) = ap (λ l. none ∷ l) (decode-encode_all xlog)
decode-encode_all (some v ∷ xlog) = ap (λ l. some v ∷ l) (decode-encode_all xlog)

decode-encode : (i : ℤ) (xlog : List Command) → decode (encode i xlog) ≡ some (i, xlog)
decode-encode (pos i) xlog = ap (λ l. some (pos i, l)) (decode-encode_all xlog)
decode-encode (negsuc i) xlog = ap (λ l. some (negsuc i, l)) (decode-encode_all xlog)

abbrev applied : Test
applied = record fresh {
  srvs =
      record (server 0) { last_applied = pos 2; logs = (pos 1, some 70) ∷ (pos 2, some 80) ∷ [] }
      ∷ record (server 1) { last_applied = pos 1; logs = (pos 1, some 70) ∷ [] }
      ∷ [];
  max_index = pos 2;
}

messages_delivered : deliver_all encode decode messages fresh ≡ ok applied
unfolding deliver_all deliver applier_snap apply_command finish_command take_snapshot check_next
    check_logs disagrees rfsrv_logs decr lookup insert incr
messages_delivered = refl

fresh_logs :
    (i : ℕ) (a : Rfsrv) → get_elem? fresh.srvs i ≡ some a → (a.logs ≡ []) × (a.apply_err ≡ false)
fresh_logs zero a h = (ground (arith, h), ground (arith, h))
fresh_logs (suc zero) a h = (ground (arith, h), ground (arith, h))
fresh_logs (suc (suc i)) a h = cc

empty_lookup : (k : ℤ) (v : Command) → lookup k [] ≢ some v
unfolding lookup
empty_lookup k v h = cc

fresh-Sound : Sound fresh.srvs
fresh-Sound = (
  λ i j a b k v w ai bj found also.
      absurd (empty_lookup k v (subst (λ l. lookup k l ≡ some v) (fresh_logs i a ai).0 found)),
  λ i a k ai high found. absurd (ground (arith, found, (fresh_logs i a ai).0)),
  λ i a ai. (fresh_logs i a ai).1,
)

n_committed_lem_example :
    Sound applied.srvs
    × ((cmd : Command) × (n_committed (pos 1) applied ≡ ok (holders (pos 1) applied.srvs, cmd))
        × AllHold (pos 1) cmd applied.srvs)
n_committed_lem_example =
    n_committed_lem encode decode messages fresh applied (pos 1) (refl, (refl, (refl, tt)))
      fresh-Sound messages_delivered

abbrev behind : Rfsrv
behind = server 1

abbrev ahead : Rfsrv
ahead = record (server 0) { last_applied = pos 2; logs = (pos 1, some 70) ∷ (pos 2, some 80) ∷ [] }

ingest_snap-snapshot_of_example :
    (r : Rfsrv) × (ingest_snap decode (some (snapshot_of encode (pos 2) ahead)) (pos 2) behind
      ≡ ok r)
    × (r.last_applied ≡ pos 2)
    × ((j : ℕ) → lookup (pos j) r.logs ≡ (if ltb 2 j then none else some (entry ahead.logs j)))
ingest_snap-snapshot_of_example =
    ingest_snap-snapshot_of encode decode decode-encode 2 (pos 2) ahead behind (omega arith)
      (inl refl)

abbrev attempts : List Attempt
attempts = record { connected = everyone; at = fresh; polls = fresh ∷ applied ∷ [] } ∷ []

-- A Raft that takes every command at index 1
abbrev eager : ℕ → Raft → ℤ × ℤ × Bool
eager cmd rf = (pos 1, pos 1, true)

returned : one eager 70 2 true false attempts ≡ ok (pos 1)
unfolding one one_from find_start raft_at poll n_committed n_committed_from rfsrv_logs lookup
returned = refl

one-Returns_example : Returns 70 2 false attempts (pos 1)
one-Returns_example = one-Returns eager 70 2 true false attempts (pos 1) returned

one-start_example : one raft_start 70 2 true false attempts ≡ fatal
one-start_example = one-start 70 2 true false attempts
