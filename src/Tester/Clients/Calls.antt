-- ===== src/Tester/Clients/Calls.antt =====
-- A clerk's call to a server, which makes an end when there is none.
use mathlib.Core.Path.{subst}
use pluggable_sharded_fault.Base.{
  ◌≡◌, ◌⊎◌, inl, inr, true, false, none, some, String, arith, ok, fatal, string_eq, lookup,
  lookup-insert, has, has-insert, insert, Option, if◌then◌else◌, ◌==◌, refl, Option-cases,
  Bool-cases,
}
use pluggable_sharded_fault.Labrpc.Network.{ClientEnd, Network, make_end, connect, enable}
use pluggable_sharded_fault.Labrpc.Ends.{make_end-fresh}
use pluggable_sharded_fault.Tester.Clients.{Clnt, allowed, set_up_end, clnt_make_end}
use pluggable_sharded_fault.Tester.Clients.Laws.{Follows}

-- The clerk's ends are ends of the network.
unfoldable pub AreKnown : Clnt → Network → Type 0
AreKnown clnt rn = (srv name : String) → lookup srv clnt.ends ≡ some name → has name rn.ends ≡ true

-- Each end of the clerk is an end of the network, leads to its server, and is enabled or not as the
-- clerk's list of servers says.
pub record IsWired (clnt : Clnt) (rn : Network) : Type 0 where
  pub known : AreKnown clnt rn
  pub linked :
      (srv name : String)
      → lookup srv clnt.ends ≡ some name
      → lookup name rn.connections ≡ some (some srv)
  pub follows : Follows clnt rn

set_up_end-AreKnown :
    (server name : String) (clnt : Clnt) (rn made : Network) (e : ClientEnd)
    → AreKnown clnt rn
    → make_end name rn ≡ ok (e, made)
    → AreKnown (set_up_end server name clnt made).0 (set_up_end server name clnt made).1
unfolding set_up_end AreKnown connect enable
set_up_end-AreKnown server name clnt rn made e known h srv n found =
    let fresh = make_end-fresh name rn made e h in
    ground (
      arith,
      fresh,
      known srv n,
      lookup-insert server srv name clnt.ends,
      has-insert name n e rn.ends,
      string_eq.same_iff name n,
    )

set_up_end-linked :
    (server name : String) (clnt : Clnt) (rn made : Network) (e : ClientEnd)
    → IsWired clnt rn
    → make_end name rn ≡ ok (e, made)
    → (srv n : String) → lookup srv (set_up_end server name clnt made).0.ends ≡ some n
    → lookup n (set_up_end server name clnt made).1.connections ≡ some (some srv)
unfolding set_up_end AreKnown connect enable
set_up_end-linked server name clnt rn made e w h srv n found =
    let fresh = make_end-fresh name rn made e h in
    let unconnected : Option String = none in
    ground (
      arith,
      fresh,
      w.linked srv n,
      w.known srv n,
      lookup-insert server srv name clnt.ends,
      lookup-insert name n (some server) made.connections,
      lookup-insert name n unconnected rn.connections,
      string_eq.same_iff server srv,
      string_eq.same_iff name n,
    )

set_up_end-Follows :
    (server name : String) (clnt : Clnt) (rn made : Network) (e : ClientEnd)
    → Follows clnt rn
    → AreKnown clnt rn
    → make_end name rn ≡ ok (e, made)
    → Follows (set_up_end server name clnt made).0 (set_up_end server name clnt made).1
unfolding set_up_end Follows AreKnown connect enable allowed
set_up_end-Follows server name clnt rn made e f known h srv n found =
    let fresh = make_end-fresh name rn made e h in
    ground (
      arith,
      fresh,
      f srv n,
      known srv n,
      lookup-insert server srv name clnt.ends,
      lookup-insert name n (allowed clnt server) made.enabled,
      lookup-insert name n false rn.enabled,
      string_eq.same_iff server srv,
      string_eq.same_iff name n,
    )

set_up_end-IsWired :
    (server name : String) (clnt : Clnt) (rn made : Network) (e : ClientEnd)
    → IsWired clnt rn
    → make_end name rn ≡ ok (e, made)
    → IsWired (set_up_end server name clnt made).0 (set_up_end server name clnt made).1
set_up_end-IsWired server name clnt rn made e w h = record {
  known = set_up_end-AreKnown server name clnt rn made e w.known h;
  linked = set_up_end-linked server name clnt rn made e w h;
  follows = set_up_end-Follows server name clnt rn made e w.follows w.known h;
}

make_end_ends :
    (name : String) (rn : Network)
    → (make_end name rn ≡ fatal)
      ⊎ ((e : ClientEnd) × (made : Network) × (make_end name rn ≡ ok (e, made)))
unfolding make_end
make_end_ends name rn = elim (Bool-cases (has name rn.ends)) [
  | inl taken ↦ inl (rw taken)
  | inr free ↦
      let e : ClientEnd = record { endname = name } in
      inr (
        e,
        record rn {
          ends = insert name e rn.ends;
          enabled = insert name false rn.enabled;
          connections = insert name none rn.connections;
        },
        rw free,
      )
]

-- What a call that gave `end` leaves
Wired : String → String → Clnt → Clnt → Network → Type 0
Wired server end clnt c r =
    IsWired c r
    × (c.srvs ≡ clnt.srvs)
    × ((srv : String)
        → lookup srv c.ends ≡ (if server == srv then some end else lookup srv clnt.ends))

old-Wired :
    (server end : String) (clnt : Clnt) (rn : Network)
    → IsWired clnt rn
    → lookup server clnt.ends ≡ some end
    → Wired server end clnt clnt rn
unfolding Wired
old-Wired server end clnt rn w e =
    (w, refl, λ srv. ground (arith, e, string_eq.same_iff server srv))

new-Wired :
    (server name : String) (clnt : Clnt) (rn made : Network) (e : ClientEnd)
    → IsWired clnt rn
    → make_end name rn ≡ ok (e, made)
    → Wired server name clnt
        (set_up_end server name clnt made).0
        (set_up_end server name clnt made).1
unfolding Wired set_up_end
new-Wired server name clnt rn made e w h = (
  set_up_end-IsWired server name clnt rn made e w h,
  refl,
  λ srv. lookup-insert server srv name clnt.ends,
)

Wired-path :
    (server a b : String) (clnt c d : Clnt) (rn r : Network)
    → a ≡ b
    → c ≡ d
    → rn ≡ r
    → Wired server a clnt c rn
    → Wired server b clnt d r
Wired-path server a b clnt c d rn r names clerks nets w =
    subst (λ x. Wired server x clnt d r) names
      (subst (λ x. Wired server a clnt x r) clerks (subst (Wired server a clnt c) nets w))

clnt_make_end-Wired :
    (server name end : String) (clnt c : Clnt) (rn r : Network)
    → IsWired clnt rn
    → clnt_make_end server name clnt rn ≡ ok (end, c, r)
    → Wired server end clnt c r
unfolding clnt_make_end
clnt_make_end-Wired server name end clnt c rn r w h =
    elim (Option-cases (lookup server clnt.ends)) [
      | inr (old, e) ↦
          let same : (old ≡ end) × (clnt ≡ c) × (rn ≡ r) = ground arith in
          Wired-path server old end clnt clnt c rn r same.0 same.1 same.2
            (old-Wired server old clnt rn w e)
      | inl new ↦ elim (make_end_ends name rn) [
        | inl taken ↦ absurd (ground arith)
        | inr (e, made, ends) ↦
            let set_up = set_up_end server name clnt made in
            let same : (name ≡ end) × (set_up.0 ≡ c) × (set_up.1 ≡ r) = ground (arith, new, ends) in
            Wired-path server name end clnt set_up.0 c set_up.1 r same.0 same.1 same.2
              (new-Wired server name clnt rn made e w ends)
      ]
    ]

-- The invariant of a clerk is that each of its ends is an end of the network, leads to its server,
-- and is enabled or not as the clerk's list of servers says. Under this invariant, a call to a
-- server, first or not, that does not end the process over a name that is taken keeps it, and keeps
-- the clerk's list and its ends to the other servers. It gives the clerk's end to the server, which
-- then is an end of the network that leads to that server, enabled exactly if the list allows it.
pub clnt_make_end-IsWired :
    (server name end : String) (clnt c : Clnt) (rn r : Network)
    → IsWired clnt rn
    → clnt_make_end server name clnt rn ≡ ok (end, c, r)
    → IsWired c r
      × (c.srvs ≡ clnt.srvs)
      × ((srv : String)
          → lookup srv c.ends ≡ (if server == srv then some end else lookup srv clnt.ends))
      × (has end r.ends ≡ true)
      × (lookup end r.connections ≡ some (some server))
      × (lookup end r.enabled ≡ some (allowed c server))
unfolding Wired Follows AreKnown
clnt_make_end-IsWired server name end clnt c rn r w h =
    let (after, list, ends) = clnt_make_end-Wired server name end clnt c rn r w h in
    let mine : lookup server c.ends ≡ some end =
      ground (arith, ends server, string_eq.same_iff server server) in
    (
      after,
      list,
      ends,
      after.known server end mine,
      after.linked server end mine,
      after.follows server end mine,
    )
