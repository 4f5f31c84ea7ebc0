-- ===== src/Labrpc/Fates.antt =====
-- Calls that succeed, and calls to a server that is deleted meanwhile.
use pluggable_sharded_fault.Base.{
  ◌⊎◌, ℕ, ◌≡◌, refl, true, false, Option, none, some, List, [], ◌∷◌, String, arith, eqb_iff,
  string_eq, All, lookup, lookup-insert, Option-cases, inl, inr,
}
use pluggable_sharded_fault.Labrpc.Network.{
  Network, EndnameInfo, read_endname_info, is_server_dead, delete_server,
}
use pluggable_sharded_fault.Labrpc.Service.{ReplyMsg}
use pluggable_sharded_fault.Labrpc.Request.{
  Chances, failure, prompt, wait_reply, answer_reply, answer_waited, process_with, process_req,
}
use pluggable_sharded_fault.Labrpc.Delivery.{LeadsTo, StillServes}

alive_of_StillServes :
    (endname name : String) (p : ℕ) (rn : Network)
    → StillServes endname name p rn
    → is_server_dead endname name (some p) rn ≡ false
unfolding is_server_dead
alive_of_StillServes endname name p rn s = ground (arith, s.on, s.serves, eqb_iff p p)

wait_reply-alive :
    (endname name : String) (p : ℕ) (polls : List Network) (handled : Option ReplyMsg)
    → All (StillServes endname name p) polls
    → wait_reply endname name (some p) polls handled
      ≡ record { reply = handled; server_dead = false }
unfolding wait_reply
wait_reply-alive endname name p [] handled a = refl
wait_reply-alive endname name p (rn ∷ polls) handled a =
    rw (
      alive_of_StillServes endname name p rn a.0,
      wait_reply-alive endname name p polls handled a.1,
    )

read-LeadsTo :
    (endname name : String) (p : ℕ) (rn : Network)
    → LeadsTo endname name p rn
    → read_endname_info endname rn ≡ record {
      enabled = true;
      servername = some name;
      server = some p;
      reliable = rn.reliable;
      longreordering = rn.long_reordering;
    }
unfolding read_endname_info
read-LeadsTo endname name p rn l = ground (arith, l.on, l.connected, l.serves)

-- Over a reliable network without long reordering, a request on an enabled end to a server that
-- lives through the call gets exactly the handler's reply at once, whatever `rand` says.
pub reliable_delivers :
    (rand : Chances) (before : Network) (endname name : String) (p : ℕ) (polls : List Network)
    (r : ReplyMsg) (after : Network)
    → before.reliable ≡ true
    → before.long_reordering ≡ false
    → LeadsTo endname name p before
    → All (StillServes endname name p) polls
    → StillServes endname name p after
    → process_req rand before endname polls (some r) after ≡ prompt r
unfolding process_req process_with answer_waited answer_reply
reliable_delivers rand before endname name p polls r after sure ordered l during s = rw (
  read-LeadsTo endname name p before l,
  wait_reply-alive endname name p polls (some r) during,
  alive_of_StillServes endname name p after s,
  sure,
  ordered,
)

dead_after_delete :
    (endname name : String) (p : ℕ) (rn : Network)
    → is_server_dead endname name (some p) (delete_server name rn) ≡ true
unfolding is_server_dead delete_server
dead_after_delete endname name p rn =
    let gone : Option ℕ = none in
    ground (arith, lookup-insert name name gone rn.servers, string_eq.same_iff name name)

wait_reply_ends :
    (endname name : String) (server : Option ℕ) (polls : List Network) (r : ReplyMsg)
    → (wait_reply endname name server polls (some r)
        ≡ record { reply = some r; server_dead = false })
      ⊎ (wait_reply endname name server polls (some r)
          ≡ record { reply = none; server_dead = true })
unfolding wait_reply
wait_reply_ends endname name server [] r = inl refl
wait_reply_ends endname name server (rn ∷ polls) r =
    ground (arith, wait_reply_ends endname name server polls r)

process_with-dead :
    (rand : Chances) (info : EndnameInfo) (endname name : String) (polls : List Network)
    (r : ReplyMsg) (after : Network)
    → info.servername ≡ some name
    → ((p : ℕ) → is_server_dead endname name (some p) after ≡ true)
    → process_with rand info endname polls (some r) after ≡ failure
unfolding process_with answer_waited answer_reply
process_with-dead rand info endname name polls r after named dead =
    elim (Option-cases info.server) [
      | inl missing ↦ ground arith
      | inr (p, es) ↦ ground (arith, dead p, wait_reply_ends endname name info.server polls r)
    ]

-- A server that is deleted before its handler's reply is looked at: the caller gets a failure, and
-- no reply of the handler, whatever else happened during the wait.
pub deleted_server_fails :
    (rand : Chances) (before : Network) (endname name : String) (polls : List Network)
    (r : ReplyMsg) (after : Network)
    → lookup endname before.connections ≡ some (some name)
    → process_req rand before endname polls (some r) (delete_server name after) ≡ failure
unfolding process_req read_endname_info
deleted_server_fails rand before endname name polls r after connected =
    process_with-dead rand (read_endname_info endname before) endname name polls r
      (delete_server name after) (ground arith) (λ p. dead_after_delete endname name p after)
