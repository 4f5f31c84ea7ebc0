-- ===== src/Labrpc/Request.antt =====
-- `processReq`, from the reading of the network's maps to the reply, and the caller's side. The
-- maps may change while the handler runs: the code reads them at the start, at each 100 ms for which
-- the handler has not returned, and after it.
use pluggable_sharded_fault.Base.{
  ℕ, Bool, true, false, not, ◌&&◌, Option, none, some, List, [], ◌∷◌, String, if◌then◌else◌,
  Outcome, ok, fatal, length,
}
use pluggable_sharded_fault.Labrpc.Network.{
  Network, EndnameInfo, read_endname_info, is_server_dead, add_bytes,
}
use pluggable_sharded_fault.Labrpc.Service.{ReplyMsg, no_reply}

-- What `rand` decides: to drop the request, to drop the reply, to delay the reply.
pub record Chances : Type 0 where
  pub drop_request : Bool
  pub drop_reply : Bool
  pub delay_reply : Bool

-- What the caller's channel gets: a failure, or a reply, at once or late, or nothing so far.
pub data Answer : Type 0 where
  failure : Answer
  prompt : ReplyMsg → Answer
  late : ReplyMsg → Answer
  waiting : Answer

-- The loop on `ech` and the timer. `polls` is the network at each timeout; the handler's reply
-- comes after them, or never. The results are `reply`, unless it is missing, and `serverDead`.
pub record Waited : Type 0 where
  pub reply : Option ReplyMsg
  pub server_dead : Bool

unfoldable pub wait_reply : String → String → Option ℕ → List Network → Option ReplyMsg → Waited
wait_reply endname servername server [] reply = record { reply = reply; server_dead = false }
wait_reply endname servername server (rn ∷ polls) reply =
    let rest = wait_reply endname servername server polls reply in
    if is_server_dead endname servername server rn
    then record { reply = none; server_dead = true }
    else rest

-- From the second `isServerDead` on.
unfoldable pub answer_reply : Chances → EndnameInfo → String → String → Network → ReplyMsg → Answer
answer_reply rand info endname servername after reply =
    if is_server_dead endname servername info.server after
    then failure
    else if not info.reliable && rand.drop_reply
    then failure
    else if info.longreordering && rand.delay_reply
    then late reply
    else prompt reply

-- A wait that neither saw the server dead nor the handler's reply is not over.
unfoldable pub answer_waited : Chances → EndnameInfo → String → String → Network → Waited → Answer
answer_waited rand info endname servername after waited = elim waited.reply [
  | none ↦ if waited.server_dead then failure else waiting
  | some r ↦ answer_reply rand info endname servername after r
]

unfoldable pub process_with :
    Chances → EndnameInfo → String → List Network → Option ReplyMsg → Network → Answer
unfolding answer_waited
process_with rand info endname polls handled after = elim info.servername [
  | none ↦ failure
  | some servername ↦ elim info.server [
    | none ↦ failure
    | some p ↦
        if not info.enabled
        then failure
        else if not info.reliable && rand.drop_request
        then failure
        else answer_waited rand info endname servername after
            (wait_reply endname servername info.server polls handled)
  ]
]

-- `before` is the network when the request comes, `after` when the wait is over.
unfoldable pub process_req :
    Chances → Network → String → List Network → Option ReplyMsg → Network → Answer
unfolding process_with
process_req rand before endname polls handled after =
    process_with rand (read_endname_info endname before) endname polls handled after

-- The bytes of a reply count when it goes out, in the network of that time.
unfoldable pub send_answer : Answer → Network → Network
send_answer failure rn = rn
send_answer waiting rn = rn
send_answer (prompt r) rn = add_bytes (length r.reply) rn
send_answer (late r) rn = add_bytes (length r.reply) rn

-- What `Call` receives.
abbrev pub answer_msg : Answer → Option ReplyMsg
answer_msg failure = some no_reply
answer_msg (prompt r) = some r
answer_msg (late r) = some r
answer_msg waiting = none

-- `Call` once it has the reply message, `none` inside for false; gob's `decode` fails on bytes that
-- are no such value. `sent` is false when the network was cleaned up first.
unfoldable pub call_returns :
    {R : Type 0} → (List ℕ → Option R) → Bool → ReplyMsg → Outcome (Option R)
call_returns decode sent rep =
    if not sent
    then ok none
    else if rep.ok
    then elim (decode rep.reply) [ none ↦ fatal | some r ↦ ok (some r) ]
    else ok none
