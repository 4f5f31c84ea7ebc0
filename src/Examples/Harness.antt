-- ===== src/Examples/Harness.antt =====
-- A clerk with two ends, a partition of three servers, and two puts on one key.
use pluggable_sharded_fault.Base.{
  ℕ, ◌+◌, ◌/◌, ◌%◌, ◌-◌, ◌≤◌, ◌≡◌, refl, true, false, none, some, List, [], ◌∷◌, ◌++◌, String,
  arith, ok, string_eq, nat_eq, lookup, has, insert, length, if◌then◌else◌, ◌==◌, replicate,
}
use pluggable_sharded_fault.Labrpc.Network.{Network, make_end, connect, enable}
use pluggable_sharded_fault.Tester.Clients.{Clnt, allowed, clnt_make_end, set_up_end}
use pluggable_sharded_fault.Tester.Clients.Laws.{Follows, IsClnt}
use pluggable_sharded_fault.Tester.Clients.Calls.{AreKnown, IsWired, clnt_make_end-IsWired}
use pluggable_sharded_fault.Tester.Parts.{make_partition}
use pluggable_sharded_fault.Tester.Parts.Cover.{others, make_partition-covers}
use pluggable_sharded_fault.KvTest.{EntryN, Counts, count_entry, count_entries}
use pluggable_sharded_fault.KvModel.{KvInput, KvOutput, KvState, step}
use pluggable_sharded_fault.KvModel.Versions.{Legal, done, then_step, ok_puts, puts, Legal-version}

abbrev net : Network
net = record {
  reliable = true;
  long_delays = false;
  long_reordering = false;
  ends = ("e", record { endname = "e" }) ∷ ("f", record { endname = "f" }) ∷ [];
  enabled = ("e", true) ∷ ("f", true) ∷ [];
  servers = [];
  connections = ("e", some "s") ∷ ("f", some "t") ∷ [];
  done = false;
  count = 0;
  bytes = 0;
}

abbrev clerk : Clnt
clerk = record { ends = ("s", "e") ∷ ("t", "f") ∷ []; srvs = none }

abbrev s_server : String
s_server = "s"

abbrev t_server : String
t_server = "t"

abbrev e_end : String
e_end = "e"

abbrev f_end : String
f_end = "f"

clerk-IsClnt : IsClnt clerk
unfolding lookup
clerk-IsClnt = record {
  distinct = (refl, (refl, tt));
  apart = λ s t name hs ht. ground (
    arith,
    string_eq.same_iff s_server s,
    string_eq.same_iff t_server s,
    string_eq.same_iff s_server t,
    string_eq.same_iff t_server t,
    string_eq.same_iff e_end f_end,
  );
}

end_of_t : lookup "t" clerk.ends ≡ some "f"
unfolding lookup
end_of_t = refl

abbrev new_clerk : Clnt
new_clerk = record { ends = []; srvs = some ("u" ∷ []) }

new_clerk-IsWired : IsWired new_clerk net
unfolding AreKnown Follows lookup
new_clerk-IsWired = record {
  known = λ srv name h. cc;
  linked = λ srv name h. cc;
  follows = λ srv name h. cc;
}

abbrev called : Clnt
called = record { ends = ("u", "g") ∷ []; srvs = some ("u" ∷ []) }

abbrev net_after : Network
net_after = record net {
  ends =
      ("e", record { endname = "e" })
      ∷ ("f", record { endname = "f" })
      ∷ ("g", record { endname = "g" })
      ∷ [];
  enabled = ("e", true) ∷ ("f", true) ∷ ("g", true) ∷ [];
  connections = ("e", some "s") ∷ ("f", some "t") ∷ ("g", some "u") ∷ [];
}

calls : clnt_make_end "u" "g" new_clerk net ≡ ok ("g", called, net_after)
unfolding clnt_make_end set_up_end allowed make_end connect enable insert lookup
calls = refl

clnt_make_end-IsWired_example :
    IsWired called net_after
    × (called.srvs ≡ new_clerk.srvs)
    × ((srv : String)
        → lookup srv called.ends ≡ (if "u" == srv then some "g" else lookup srv new_clerk.ends))
    × (has "g" net_after.ends ≡ true)
    × (lookup "g" net_after.connections ≡ some (some "u"))
    × (lookup "g" net_after.enabled ≡ some (allowed called "u"))
clnt_make_end-IsWired_example =
    clnt_make_end-IsWired "u" "g" "g" new_clerk called net net_after new_clerk-IsWired calls

make_partition-covers_example :
    (p1 : List ℕ) × (p2 : List ℕ) × (make_partition 3 1 ≡ ok (p1, p2))
    × (p1 ++ p2 ≡ others 1 3 0 ++ (replicate (1 - 3 % 2) 0 ++ (1 ∷ [])))
    × (length p1 ≡ 3 / 2 + 1)
make_partition-covers_example = make_partition-covers 3 1 (omega arith) (omega arith)

abbrev first : KvState
first = record { value = ""; version = 0 }

abbrev second : KvState
second = record { value = "v"; version = 1 }

abbrev put : KvInput
put = record { op = 1; key = "k"; value = "v"; version = 0 }

abbrev accepted : KvOutput
accepted = record { value = ""; version = 0; err = "OK" }

steps : step first put accepted ≡ (true, some second)
unfolding step
steps = refl

Legal-put : Legal first ((put, accepted) ∷ []) second
Legal-put = then_step put accepted steps done

Legal-version_example :
    (first.version + ok_puts ((put, accepted) ∷ []) ≤ second.version)
    × (second.version ≤ first.version + puts ((put, accepted) ∷ []))
Legal-version_example = Legal-version Legal-put (omega arith)

abbrev key_of : KvInput → String
key_of inp = inp.key

abbrev cleared : Counts
cleared = record { expect = (0, 0) ∷ []; skipped = (0, 0) ∷ [] }

abbrev counted : Counts
counted = record { expect = (0, 3) ∷ []; skipped = (0, 1) ∷ [] }

abbrev appended : List EntryN
appended = record { id = 0; n = 0 } ∷ record { id = 0; n = 2 } ∷ []

counts : count_entries appended cleared ≡ some counted
unfolding count_entries count_entry insert lookup
counts = refl
