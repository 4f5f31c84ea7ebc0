-- ===== src/Examples/Group.antt =====
-- Two servers with an end to each, and a disconnect of the first.
use pluggable_sharded_fault.Base.{
  ◌≡◌, refl, true, false, none, some, [], ◌∷◌, arith, pos, lookup, nat_eq, string_eq,
}
use pluggable_sharded_fault.Labrpc.Network.{Network}
use pluggable_sharded_fault.Tester.Group.{ServerGrp, end_name, grp_disconnect}
use pluggable_sharded_fault.Tester.Group.Isolation.{grp_disconnect_lem}

abbrev net : Network
net = record {
  reliable = true;
  long_delays = false;
  long_reordering = false;
  ends =
      ("a", record { endname = "a" })
      ∷ ("b", record { endname = "b" })
      ∷ ("c", record { endname = "c" })
      ∷ ("d", record { endname = "d" })
      ∷ [];
  enabled = ("a", true) ∷ ("b", true) ∷ ("c", true) ∷ ("d", true) ∷ [];
  servers = [];
  connections = ("a", some "s0") ∷ ("b", some "s1") ∷ ("c", some "s0") ∷ ("d", some "s1") ∷ [];
  done = false;
  count = 0;
  bytes = 0;
}

abbrev pair : ServerGrp
pair = record {
  net = net;
  srvs =
      record { saved = none; svcs = []; end_names = "a" ∷ "b" ∷ [] }
      ∷ record { saved = none; svcs = []; end_names = "c" ∷ "d" ∷ [] }
      ∷ [];
  gid = pos 1;
  connected = true ∷ true ∷ [];
  killed = [];
}

out_of_first : end_name pair 0 1 ≡ some "b"
unfolding end_name
out_of_first = refl

into_first : end_name pair 1 0 ≡ some "c"
unfolding end_name
into_first = refl

grp_disconnect_lem_example :
    (r : ServerGrp) × (grp_disconnect 0 (1 ∷ []) pair ≡ some r)
    × (lookup "b" r.net.enabled ≡ some false)
    × (lookup "c" r.net.enabled ≡ some false)
grp_disconnect_lem_example =
    grp_disconnect_lem pair 0 1 (1 ∷ []) "b" "c" (omega arith) (("b", out_of_first), tt)
      (("c", into_first), tt) refl out_of_first into_first
