-- ===== src/Examples/Net.antt =====
-- One end and one server on the network.
use pluggable_sharded_fault.Base.{
  ℕ, ◌+◌, ◌≡◌, refl, true, false, none, some, [], ◌∷◌, String, ok, string_eq, nat_eq, lookup,
  insert, length,
}
use pluggable_sharded_fault.Labrpc.Network.{Network, make_end, is_server_dead, read_endname_info}
use pluggable_sharded_fault.Labrpc.Service.{
  ReplyMsg, Handler, Service, Server, add_service, dispatch, dot, name_eq, dispatch-reaches,
}
use pluggable_sharded_fault.Labrpc.Request.{
  Chances, prompt, process_req, process_with, answer_waited, answer_reply, wait_reply, answer_msg,
}
use pluggable_sharded_fault.Labrpc.Delivery.{LeadsTo, StillServes, reply_means_alive}
use pluggable_sharded_fault.Labrpc.Fates.{reliable_delivers}
use pluggable_sharded_fault.Labrpc.Ends.{IsNetwork}

abbrev lucky : Chances
lucky = record { drop_request = false; drop_reply = false; delay_reply = false }

abbrev reply : ReplyMsg
reply = record { ok = true; reply = 1 ∷ 2 ∷ [] }

abbrev net : Network
net = record {
  reliable = true;
  long_delays = false;
  long_reordering = false;
  ends = ("e", record { endname = "e" }) ∷ [];
  enabled = ("e", true) ∷ [];
  servers = ("s", some 7) ∷ [];
  connections = ("e", some "s") ∷ [];
  done = false;
  count = 0;
  bytes = 0;
}

net-LeadsTo : LeadsTo "e" "s" 7 net
unfolding lookup
net-LeadsTo = record { on = refl; connected = refl; serves = refl }

net-StillServes : StillServes "e" "s" 7 net
unfolding lookup
net-StillServes = record { on = refl; serves = refl }

answered : answer_msg (process_req lucky net "e" [] (some reply) net) ≡ some reply
unfolding process_req process_with answer_waited answer_reply wait_reply is_server_dead
    read_endname_info lookup
answered = refl

reply_means_alive_example :
    (name : String) × (p : ℕ) × LeadsTo "e" name p net
    × StillServes "e" name p net
    × (some reply ≡ some reply)
reply_means_alive_example = reply_means_alive lucky net "e" [] (some reply) net reply answered refl

reliable_delivers_example : process_req lucky net "e" (net ∷ []) (some reply) net ≡ prompt reply
reliable_delivers_example =
    reliable_delivers lucky net "e" "s" 7 (net ∷ []) reply net refl refl net-LeadsTo
      (net-StillServes, tt) net-StillServes

connected : lookup "e" net.connections ≡ some (some "s")
unfolding lookup
connected = refl

abbrev made : Network
made = record net {
  ends = ("e", record { endname = "e" }) ∷ ("f", record { endname = "f" }) ∷ [];
  enabled = ("e", true) ∷ ("f", false) ∷ [];
  connections = ("e", some "s") ∷ ("f", none) ∷ [];
}

makes : make_end "f" net ≡ ok (record { endname = "f" }, made)
unfolding make_end insert
makes = refl

net-IsNetwork : IsNetwork net
net-IsNetwork = record { enabled_ends = λ k. refl; connections_ends = λ k. refl }

-- A service "K" with one method "P" that keeps the length of its last argument.
abbrev put : Handler ℕ
put args w = (length args, w ∷ [])

abbrev service : Service ℕ
service = record { name = 75 ∷ []; methods = (80 ∷ [], put) ∷ [] }

abbrev server : Server ℕ
server = record { services = []; count = 4 }

found : lookup (80 ∷ []) service.methods ≡ some put
unfolding lookup
found = refl

dispatch-reaches_example : dispatch (75 ∷ dot ∷ 80 ∷ []) (9 ∷ []) (add_service service server) 5 ≡ (
  record server { services = insert service.name service server.services; count = 4 + 1 },
  ok (1, record { ok = true; reply = 5 ∷ [] }),
)
dispatch-reaches_example = dispatch-reaches service (80 ∷ []) put server (9 ∷ []) 5 refl found
