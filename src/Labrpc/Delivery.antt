-- ===== src/Labrpc/Delivery.antt =====
-- When `Call` gets a reply, and when it does not.
use mathlib.Core.Path.{subst}
use pluggable_sharded_fault.Base.{
  ℕ, ◌≡◌, ap, ◌∙◌, Bool, true, false, Option, none, some, List, [], ◌∷◌, String, arith, eqb_iff,
  string_eq, Map, lookup, get_or, Option-cases, inl, inr,
}
use pluggable_sharded_fault.Labrpc.Network.{
  Network, EndnameInfo, read_endname_info, is_server_dead, same_server,
}
use pluggable_sharded_fault.Labrpc.Service.{ReplyMsg}
use pluggable_sharded_fault.Labrpc.Request.{
  Chances, Waited, wait_reply, answer_reply, answer_waited, process_with, process_req, answer_msg,
}

-- The end is enabled, and it leads to the server `p` under the name `name`.
pub record LeadsTo (endname name : String) (p : ℕ) (rn : Network) : Type 0 where
  pub on : lookup endname rn.enabled ≡ some true
  pub connected : lookup endname rn.connections ≡ some (some name)
  pub serves : lookup name rn.servers ≡ some (some p)

get_or-true : (k : String) (m : Map String Bool) → get_or k false m ≡ true → lookup k m ≡ some true
get_or-true k m h = ground arith

get_or-some {ℓ} :
    {A : Type ℓ} (k : String) (m : Map String (Option A)) (a : A)
    → get_or k none m ≡ some a
    → lookup k m ≡ some (some a)
get_or-some k m a h = ground arith

info-LeadsTo :
    (endname name : String) (p : ℕ) (rn : Network)
    → (read_endname_info endname rn).enabled ≡ true
    → (read_endname_info endname rn).servername ≡ some name
    → (read_endname_info endname rn).server ≡ some p
    → LeadsTo endname name p rn
unfolding read_endname_info
info-LeadsTo endname name p rn on named served = record {
  on = get_or-true endname rn.enabled on;
  connected = get_or-some endname rn.connections name named;
  serves = get_or-some name rn.servers p (ground (arith, named, served));
}

-- The end is still enabled, and the name still stands for the server.
pub record StillServes (endname name : String) (p : ℕ) (rn : Network) : Type 0 where
  pub on : lookup endname rn.enabled ≡ some true
  pub serves : lookup name rn.servers ≡ some (some p)

same_server-eq : (x : Option ℕ) (p : ℕ) → same_server x (some p) ≡ true → x ≡ some p
same_server-eq none p h = cc
same_server-eq (some q) p h = ap some ((eqb_iff q p).0 h)

alive-StillServes :
    (endname name : String) (p : ℕ) (rn : Network)
    → is_server_dead endname name (some p) rn ≡ false
    → StillServes endname name p rn
unfolding is_server_dead
alive-StillServes endname name p rn alive = record {
  on = get_or-true endname rn.enabled (ground arith);
  serves =
      get_or-some name rn.servers p (same_server-eq (get_or name none rn.servers) p (ground arith));
}

wait_reply-handled :
    (endname name : String) (server : Option ℕ) (polls : List Network) (handled : Option ReplyMsg)
    (r : ReplyMsg)
    → (wait_reply endname name server polls handled).reply ≡ some r
    → handled ≡ some r
unfolding wait_reply
wait_reply-handled endname name server [] handled r h = h
wait_reply-handled endname name server (rn ∷ polls) handled r h =
    ground (arith, wait_reply-handled endname name server polls handled r)

answer_reply-alive :
    (rand : Chances) (info : EndnameInfo) (endname name : String) (after : Network) (m r : ReplyMsg)
    → answer_msg (answer_reply rand info endname name after m) ≡ some r
    → r.ok ≡ true
    → (m ≡ r) × (is_server_dead endname name info.server after ≡ false)
unfolding answer_reply
answer_reply-alive rand info endname name after m r h good = ground arith

answer_waited-alive :
    (rand : Chances) (info : EndnameInfo) (endname name : String) (after : Network) (w : Waited)
    (r : ReplyMsg)
    → answer_msg (answer_waited rand info endname name after w) ≡ some r
    → r.ok ≡ true
    → (w.reply ≡ some r) × (is_server_dead endname name info.server after ≡ false)
unfolding answer_waited
answer_waited-alive rand info endname name after w r h good = elim (Option-cases w.reply) [
  | inl missing ↦ ground arith
  | inr (m, e) ↦
      let found : (m ≡ r) × (is_server_dead endname name info.server after ≡ false) =
        answer_reply-alive rand info endname name after m r (ground arith) good in
      (e ∙ ap some found.0, found.1)
]

-- What a reply says of the reading at the start and of the end.
record WasServed (rand : Chances) (info : EndnameInfo) (endname : String)
    (handled : Option ReplyMsg) (after : Network) (r : ReplyMsg) : Type 0 where
  name : String
  p : ℕ
  named : info.servername ≡ some name
  server : info.server ≡ some p
  on : info.enabled ≡ true
  replied : handled ≡ some r
  alive : is_server_dead endname name (some p) after ≡ false

process_with-WasServed :
    (rand : Chances) (info : EndnameInfo) (endname : String) (polls : List Network)
    (handled : Option ReplyMsg) (after : Network) (r : ReplyMsg)
    → answer_msg (process_with rand info endname polls handled after) ≡ some r
    → r.ok ≡ true
    → WasServed rand info endname handled after r
unfolding process_with
process_with-WasServed rand info endname polls handled after r h good =
    elim (Option-cases info.servername) [
      | inl unnamed ↦ absurd (ground arith)
      | inr (name, en) ↦ elim (Option-cases info.server) [
        | inl missing ↦ absurd (ground arith)
        | inr (p, es) ↦
            let w = wait_reply endname name info.server polls handled in
            let on : info.enabled ≡ true = ground arith in
            let served : answer_msg (answer_waited rand info endname name after w) ≡ some r =
              ground arith in
            let x = answer_waited-alive rand info endname name after w r served good in
            record {
              name = name;
              p = p;
              named = en;
              server = es;
              on = on;
              replied = wait_reply-handled endname name info.server polls handled r x.0;
              alive = subst (λ z. is_server_dead endname name z after ≡ false) es x.1;
            }
      ]
    ]

-- A reply that says ok is the handler's, and then the caller's end led to one server when the
-- request came, and was enabled with that server under the same name after the handler had
-- returned: no reply comes from a server that was deleted or replaced meanwhile.
pub reply_means_alive :
    (rand : Chances) (before : Network) (endname : String) (polls : List Network)
    (handled : Option ReplyMsg) (after : Network) (r : ReplyMsg)
    → answer_msg (process_req rand before endname polls handled after) ≡ some r
    → r.ok ≡ true
    → (name : String) × (p : ℕ) × LeadsTo endname name p before
      × StillServes endname name p after
      × (handled ≡ some r)
unfolding process_req
reply_means_alive rand before endname polls handled after r h good =
    let s : WasServed rand (read_endname_info endname before) endname handled after r =
      process_with-WasServed rand (read_endname_info endname before) endname polls handled after r h
        good in
    (
      s.name,
      s.p,
      info-LeadsTo endname s.name s.p before s.on s.named s.server,
      alive-StillServes endname s.name s.p after s.alive,
      s.replied,
    )
