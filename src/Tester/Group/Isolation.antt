-- ===== src/Tester/Group/Isolation.antt =====
-- What a disconnect leaves of the ends between servers.
use pluggable_sharded_fault.Base.{
  ℕ, ◌≡◌, inl, inr, refl, ap, Bool, true, false, Option, some, List, [], ◌∷◌, String, arith, eqb,
  eqb_iff, lookup, lookup-insert, string_eq, nat_eq, mem, Option-cases, Bool-cases, ◌∙◌, set,
  length, All, ◌<◌,
}
use pluggable_sharded_fault.Labrpc.Network.{Network, enable}
use pluggable_sharded_fault.Tester.Group.{
  ServerGrp, end_name, switch, switch_both, mark, grp_disconnect, always,
}

off_stays :
    (e : String) (pick : ℕ → Option String) (js : List ℕ) (net r : Network)
    → lookup e net.enabled ≡ some false
    → switch always pick false js net ≡ some r
    → lookup e r.enabled ≡ some false
unfolding switch enable
off_stays e pick [] net r off h = ground arith
off_stays e pick (j ∷ js) net r off h = elim (Option-cases (pick j)) [
  | inl missing ↦ absurd (ground arith)
  | inr (d, found) ↦
      off_stays e pick js (enable d false net) r
        (ground (arith, off, lookup-insert d e false net.enabled, string_eq.same_iff d e))
        (ground (arith, found, h))
]

goes_off :
    (e : String) (j : ℕ) (pick : ℕ → Option String) (js : List ℕ) (net r : Network)
    → mem j js ≡ true
    → pick j ≡ some e
    → switch always pick false js net ≡ some r
    → lookup e r.enabled ≡ some false
unfolding switch enable
goes_off e j pick [] net r m p h = absurd (ground arith)
goes_off e j pick (k ∷ js) net r m p h = elim (Bool-cases (eqb k j)) [
  | inl here ↦
      let found : pick k ≡ some e = ap pick ((eqb_iff k j).0 here) ∙ p in
      off_stays e pick js (enable e false net) r
        (ground (arith, lookup-insert e e false net.enabled, string_eq.same_iff e e))
        (ground (arith, found, h))
  | inr further ↦ elim (Option-cases (pick k)) [
    | inl missing ↦ absurd (ground arith)
    | inr (d, found) ↦
        goes_off e j pick js (enable d false net) r (ground arith) p (ground (arith, found, h))
  ]
]

-- The ends of a group are its servers' own, whatever is marked.
end_name-mark :
    (i a b : ℕ) (v : Bool) (sg marked : ServerGrp)
    → mark i v sg ≡ some marked
    → end_name marked a b ≡ end_name sg a b
unfolding mark end_name
end_name-mark i a b v sg marked h = ground arith

-- Both rounds of a disconnect, with the network between them
switch_both-parts :
    (sg r : ServerGrp) (i : ℕ) (js : List ℕ)
    → switch_both sg always false i js ≡ some r
    → (one : Network) × (two : Network) × (switch always (λ k. end_name sg i k) false js sg.net
        ≡ some one)
      × (switch always (λ k. end_name sg k i) false js one ≡ some two)
      × (r.net ≡ two)
unfolding switch_both
switch_both-parts sg r i js h =
    elim (Option-cases (switch always (λ k. end_name sg i k) false js sg.net)) [
      | inl stopped ↦ absurd (ground arith)
      | inr (one, first) ↦ elim (Option-cases (switch always (λ k. end_name sg k i) false js one)) [
        | inl stopped ↦ absurd (ground arith)
        | inr (two, second) ↦ (one, two, first, second, ground arith)
      ]
    ]

switch_both-off :
    (sg r : ServerGrp) (i j : ℕ) (js : List ℕ) (e d : String)
    → switch_both sg always false i js ≡ some r
    → mem j js ≡ true
    → end_name sg i j ≡ some e
    → end_name sg j i ≡ some d
    → (lookup e r.net.enabled ≡ some false) × (lookup d r.net.enabled ≡ some false)
switch_both-off sg r i j js e d h m outward inward =
    let (one, two, first, second, same) = switch_both-parts sg r i js h in
    let off : lookup e two.enabled ≡ some false =
      off_stays e (λ k. end_name sg k i) js one two
        (goes_off e j (λ k. end_name sg i k) js sg.net one m outward first) second in
    let also_off : lookup d two.enabled ≡ some false =
      goes_off d j (λ k. end_name sg k i) js one two m inward second in
    let enabled_same = ap (λ n. n.enabled) same in
    (ap (lookup e) enabled_same ∙ off, ap (lookup d) enabled_same ∙ also_off)

disconnected :
    (sg r : ServerGrp) (i j : ℕ) (from : List ℕ) (e d : String)
    → grp_disconnect i from sg ≡ some r
    → mem j from ≡ true
    → end_name sg i j ≡ some e
    → end_name sg j i ≡ some d
    → (lookup e r.net.enabled ≡ some false) × (lookup d r.net.enabled ≡ some false)
unfolding grp_disconnect
disconnected sg r i j from e d h m outward inward = elim (Option-cases (mark i false sg)) [
  | inl outside ↦ absurd (ground arith)
  | inr (marked, e1) ↦
      switch_both-off marked r i j from e d (ground (arith, e1, h)) m
        (end_name-mark i i j false sg marked e1 ∙ outward)
        (end_name-mark i j i false sg marked e1 ∙ inward)
]

switch-returns :
    (pick : ℕ → Option String) (js : List ℕ) (net : Network)
    → All (λ k. (e : String) × (pick k ≡ some e)) js
    → (r : Network) × (switch always pick false js net ≡ some r)
unfolding switch
switch-returns pick [] net a = (net, refl)
switch-returns pick (k ∷ js) net a =
    let (r, more) = switch-returns pick js (enable a.0.0 false net) a.1 in
    (r, ground (arith, a.0.1, more))

switch_both-returns :
    (sg : ServerGrp) (i : ℕ) (js : List ℕ)
    → All (λ k. (e : String) × (end_name sg i k ≡ some e)) js
    → All (λ k. (e : String) × (end_name sg k i ≡ some e)) js
    → (r : ServerGrp) × (switch_both sg always false i js ≡ some r)
unfolding switch_both
switch_both-returns sg i js outward inward =
    let (one, first) = switch-returns (λ k. end_name sg i k) js sg.net outward in
    let (two, second) = switch-returns (λ k. end_name sg k i) js one inward in
    (record sg { net = two }, ground (arith, first, second))

marked_group : ℕ → ServerGrp → ServerGrp
marked_group i sg = record sg { connected = set sg.connected i false }

grp_disconnect-returns :
    (sg : ServerGrp) (i : ℕ) (from : List ℕ)
    → i < length sg.connected
    → All (λ k. (e : String) × (end_name sg i k ≡ some e)) from
    → All (λ k. (e : String) × (end_name sg k i ≡ some e)) from
    → (r : ServerGrp) × (grp_disconnect i from sg ≡ some r)
unfolding grp_disconnect mark marked_group end_name
grp_disconnect-returns sg i from inside outward inward =
    let (r, h) = switch_both-returns (marked_group i sg) i from outward inward in
    (r, ground (arith, h))

-- A disconnect of a server from others returns, if it has an end to each of them and each of them
-- to it, and both ends between it and any one of them are then disabled.
pub grp_disconnect_lem :
    (sg : ServerGrp) (i j : ℕ) (from : List ℕ) (e d : String)
    → i < length sg.connected
    → All (λ k. (x : String) × (end_name sg i k ≡ some x)) from
    → All (λ k. (x : String) × (end_name sg k i ≡ some x)) from
    → mem j from ≡ true
    → end_name sg i j ≡ some e
    → end_name sg j i ≡ some d
    → (r : ServerGrp) × (grp_disconnect i from sg ≡ some r)
      × (lookup e r.net.enabled ≡ some false)
      × (lookup d r.net.enabled ≡ some false)
grp_disconnect_lem sg i j from e d inside outs ins m outward inward =
    let (r, h) = grp_disconnect-returns sg i from inside outs ins in
    let off = disconnected sg r i j from e d h m outward inward in (r, h, off.0, off.1)
