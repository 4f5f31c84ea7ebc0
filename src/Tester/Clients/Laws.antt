-- ===== src/Tester/Clients/Laws.antt =====
-- Which ends of a clerk are enabled after each of its operations.
use pluggable_sharded_fault.Base.{
  ◌≡◌, inl, inr, refl, ap, Bool, true, false, ◌&&◌, ◌||◌, some, List, [], ◌∷◌, String, arith,
  if◌then◌else◌, ◌==◌, string_eq, mem, Map, lookup, lookup-insert, insert, Distinct, Bool-cases,
  keys, lookup-has,
}
use pluggable_sharded_fault.Labrpc.Network.{Network, enable}
use pluggable_sharded_fault.Tester.Clients.{
  Clnt, allowed, enable_where, connect_all, connect_to, disconnect, disconnect_all,
}

-- The test holds of a server whose end is `name`.
chosen : (String → Bool) → String → Map String String → Bool
chosen test name [] = false
chosen test name ((srv, n) ∷ ends) = (n == name && test srv) || chosen test name ends

lookup-enable_where :
    (test : String → Bool) (on : Bool) (name : String) (ends : Map String String) (rn : Network)
    → lookup name (enable_where test on ends rn).enabled
      ≡ (if chosen test name ends then some on else lookup name rn.enabled)
unfolding enable_where chosen enable
lookup-enable_where test on name [] rn = refl
lookup-enable_where test on name ((srv, n) ∷ ends) rn = ground (
  arith,
  lookup-enable_where test on name ends rn,
  lookup-enable_where test on name ends (record rn { enabled = insert n on rn.enabled }),
  lookup-insert n name on rn.enabled,
)

chosen_of_lookup :
    (test : String → Bool) (srv name : String) (ends : Map String String)
    → lookup srv ends ≡ some name
    → test srv ≡ true
    → chosen test name ends ≡ true
unfolding chosen lookup
chosen_of_lookup test srv name [] h t = cc
chosen_of_lookup test srv name ((s, n) ∷ ends) h t = ground (
  arith,
  chosen_of_lookup test srv name ends,
  string_eq.same_iff s srv,
  string_eq.same_iff n name,
  ap test,
)

-- Each end of the clerk is enabled or not as the clerk's list of servers says.
unfoldable pub Follows : Clnt → Network → Type 0
Follows clnt rn =
    (srv name : String)
    → lookup srv clnt.ends ≡ some name
    → lookup name rn.enabled ≡ some (allowed clnt srv)

-- After ConnectAll the clerk may reach any server, and its end to a server, if it has one, is
-- enabled.
pub connect_all_lem :
    (clnt : Clnt) (rn : Network) (srv name : String)
    → lookup srv clnt.ends ≡ some name
    → (allowed (connect_all clnt rn).0 srv ≡ true)
      × (lookup name (connect_all clnt rn).1.enabled ≡ some true)
unfolding connect_all allowed
connect_all_lem clnt rn srv name h =
    rw
      (
        lookup-enable_where (λ _. true) true name clnt.ends rn,
        chosen_of_lookup (λ _. true) srv name clnt.ends h refl,
      )
      (refl, refl)

-- After DisconnectAll the clerk may reach no server, and its end to a server, if it has one, is
-- disabled.
pub disconnect_all_lem :
    (clnt : Clnt) (rn : Network) (srv name : String)
    → lookup srv clnt.ends ≡ some name
    → (allowed (disconnect_all clnt rn).0 srv ≡ false)
      × (lookup name (disconnect_all clnt rn).1.enabled ≡ some false)
unfolding disconnect_all allowed
disconnect_all_lem clnt rn srv name h =
    rw
      (
        lookup-enable_where (λ _. true) false name clnt.ends rn,
        chosen_of_lookup (λ _. true) srv name clnt.ends h refl,
      )
      (refl, refl)

chosen-lookup :
    (test : String → Bool) (name : String) (ends : Map String String)
    → Distinct (keys ends)
    → chosen test name ends ≡ true
    → (srv : String) × (lookup srv ends ≡ some name) × (test srv ≡ true)
unfolding chosen lookup
chosen-lookup test name [] d h = absurd (ground arith)
chosen-lookup test name ((s, n) ∷ ends) d h = elim (Bool-cases (n == name && test s)) [
  | inl here ↦ (s, ground (arith, string_eq.same_iff s s, string_eq.same_iff n name), ground arith)
  | inr other ↦
      let (t, found, holds) = chosen-lookup test name ends d.1 (ground arith) in
      (t, ground (arith, found, d.0, string_eq.same_iff s t, lookup-has t ends name), holds)
]

-- The clerk has one end per server, and no two servers share one.
pub record IsClnt (clnt : Clnt) : Type 0 where
  pub distinct : Distinct (keys clnt.ends)
  pub apart :
      (s t name : String) → lookup s clnt.ends ≡ some name → lookup t clnt.ends ≡ some name → s ≡ t

chosen_none :
    (test : String → Bool) (clnt : Clnt) (srv name : String)
    → IsClnt clnt
    → lookup srv clnt.ends ≡ some name
    → test srv ≡ false
    → chosen test name clnt.ends ≡ false
chosen_none test clnt srv name v h fails = elim (Bool-cases (chosen test name clnt.ends)) [
  | inl chose ↦
      let (t, found, holds) = chosen-lookup test name clnt.ends v.distinct chose in
      absurd (ground (arith, ap test (v.apart srv t name h found)))
  | inr none_chosen ↦ none_chosen
]

-- Disconnect disables the clerk's end to the given server, and leaves those to other servers.
pub disconnect_lem :
    (clnt : Clnt) (rn : Network) (down srv name : String)
    → IsClnt clnt
    → lookup srv clnt.ends ≡ some name
    → lookup name (disconnect down clnt rn).enabled
      ≡ (if srv == down then some false else lookup name rn.enabled)
unfolding disconnect
disconnect_lem clnt rn down srv name v h = elim (Bool-cases (srv == down)) [
  | inl this ↦ rw (
    lookup-enable_where (λ s. s == down) false name clnt.ends rn,
    chosen_of_lookup (λ s. s == down) srv name clnt.ends h this,
    this,
  )
  | inr other ↦ rw (
    lookup-enable_where (λ s. s == down) false name clnt.ends rn,
    chosen_none (λ s. s == down) clnt srv name v h other,
    other,
  )
]

-- ConnectTo enables the clerk's ends to the given servers, and leaves the others: one that was
-- enabled stays so, though its server is no longer allowed.
pub connect_to_lem :
    (clnt : Clnt) (rn : Network) (srvs : List String) (srv name : String)
    → IsClnt clnt
    → lookup srv clnt.ends ≡ some name
    → lookup name (connect_to srvs clnt rn).1.enabled
      ≡ (if mem srv srvs then some true else lookup name rn.enabled)
unfolding connect_to allowed
connect_to_lem clnt rn srvs srv name v h = elim (Bool-cases (mem srv srvs)) [
  | inl given ↦ rw (
    lookup-enable_where (λ s. mem s srvs) true name clnt.ends rn,
    chosen_of_lookup (λ s. mem s srvs) srv name clnt.ends h given,
    given,
  )
  | inr other ↦ rw (
    lookup-enable_where (λ s. mem s srvs) true name clnt.ends rn,
    chosen_none (λ s. mem s srvs) clnt srv name v h other,
    other,
  )
]
