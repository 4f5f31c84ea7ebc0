-- ===== src/RaftTest/Logs/Agree.antt =====
-- The servers' copies agree, and have no gaps, as long as the appliers do not end the process.
use pluggable_sharded_fault.Base.{
  ℕ, zero, suc, ◌≡◌, refl, sym, true, false, some, List, [], ◌∷◌, ℤ, pos, lookup, has, insert,
  arith, eqb, eqb_ℤ, eqb_ℤ_iff, if◌then◌else◌, ok, get_elem?, set, int_eq, lookup-insert,
  has-insert, Bool-cases, Option-cases, inl, inr, ◌⊎◌, ap, ◌∙◌, ◌<ℤ◌,
}
use mathlib.Core.Path.{subst}
use pluggable_sharded_fault.RaftTest.Logs.{
  Command, command_eq, same_command_iff, ApplyMsg, Rfsrv, Test, rfsrv_logs, decr, disagrees,
  check_logs, applier,
}

-- No two servers have different commands at one index.
abbrev pub Agree : List Rfsrv → Type 0
Agree srvs =
    (i j : ℕ) (a b : Rfsrv) (k : ℤ) (v w : Command)
    → get_elem? srvs i ≡ some a
    → get_elem? srvs j ≡ some b
    → lookup k a.logs ≡ some v
    → lookup k b.logs ≡ some w
    → v ≡ w

-- A server that has an entry after the first one has the entry before it.
abbrev pub InOrder : List Rfsrv → Type 0
InOrder srvs =
    (i : ℕ) (a : Rfsrv) (k : ℤ)
    → get_elem? srvs i ≡ some a
    → pos 1 <ℤ k
    → has k a.logs ≡ true
    → has (decr k) a.logs ≡ true

-- No server has stopped on an error.
abbrev pub Calm : List Rfsrv → Type 0
Calm srvs = (i : ℕ) (a : Rfsrv) → get_elem? srvs i ≡ some a → a.apply_err ≡ false

abbrev pub Sound : List Rfsrv → Type 0
Sound srvs = Agree srvs × InOrder srvs × Calm srvs

module _ {ℓ} {A : Type ℓ} where
  pub get_elem?-set :
      (xs : List A) (i j : ℕ) (v w : A)
      → get_elem? (set xs i v) j ≡ some w
      → (if eqb i j then some v else get_elem? xs j) ≡ some w
  get_elem?-set [] i j v w h = cc
  get_elem?-set (x ∷ xs) zero zero v w h = h
  get_elem?-set (x ∷ xs) zero (suc j) v w h = ground (arith, h)
  get_elem?-set (x ∷ xs) (suc i) zero v w h = ground (arith, h)
  get_elem?-set (x ∷ xs) (suc i) (suc j) v w h = ground (arith, get_elem?-set xs i j v w)

none_disagrees :
    (index : ℤ) (v : Command) (srvs : List Rfsrv)
    → disagrees index v srvs ≡ false
    → (j : ℕ) (b : Rfsrv) (w : Command) → get_elem? srvs j ≡ some b
    → lookup index b.logs ≡ some w
    → w ≡ v
unfolding disagrees rfsrv_logs
none_disagrees index v [] h j b w at found = cc
none_disagrees index v (rs ∷ srvs) h zero b w at found =
    ground (arith, h, at, found, same_command_iff w v)
none_disagrees index v (rs ∷ srvs) h (suc j) b w at found =
    none_disagrees index v srvs (ground (arith, h)) j b w at found

-- An entry of the servers, after one has got a new entry, is the new one or an old one.
entry-set :
    (srvs : List Rfsrv) (i : ℕ) (old new : Rfsrv) (k : ℤ) (v : Command)
    → get_elem? srvs i ≡ some old
    → new.logs ≡ insert k v old.logs
    → (p : ℕ) (a : Rfsrv) (m : ℤ) (x : Command) → get_elem? (set srvs i new) p ≡ some a
    → lookup m a.logs ≡ some x
    → ((m ≡ k) × (x ≡ v))
      ⊎ ((q : ℕ) × (c : Rfsrv) × (get_elem? srvs q ≡ some c) × (lookup m c.logs ≡ some x))
entry-set srvs i old new k v here logs p a m x at found = elim (Bool-cases (eqb i p)) [
  | inr other ↦ inr (p, a, ground (arith, get_elem?-set srvs i p new a at, other), found)
  | inl same ↦
      let it : new ≡ a = ground (arith, get_elem?-set srvs i p new a at, same) in
      let wrote : lookup m (insert k v old.logs) ≡ some x =
        subst (λ l. lookup m l ≡ some x) logs
          (subst (λ r. lookup m r.logs ≡ some x) (sym it) found) in
      elim (Bool-cases (eqb_ℤ k m)) [
        | inl e ↦ inl (
          ground (arith, e, eqb_ℤ_iff k m),
          ground (arith, wrote, e, lookup-insert k m v old.logs),
        )
        | inr e ↦ inr (i, old, here, ground (arith, wrote, e, lookup-insert k m v old.logs))
      ]
]

-- Writing a command into a server's copy, where no server has another one
Agree-set :
    (srvs : List Rfsrv) (i : ℕ) (old new : Rfsrv) (k : ℤ) (v : Command)
    → Agree srvs
    → disagrees k v srvs ≡ false
    → get_elem? srvs i ≡ some old
    → new.logs ≡ insert k v old.logs
    → Agree (set srvs i new)
Agree-set srvs i old new k v agree quiet here logs p q a b m x y ap bq ax by =
    elim (entry-set srvs i old new k v here logs p a m x ap ax) [
      | inl (mk, xv) ↦ elim (entry-set srvs i old new k v here logs q b m y bq by) [
        | inl (_, yv) ↦ xv ∙ sym yv
        | inr (r, c, at, found) ↦
            let yv =
              none_disagrees k v srvs quiet r c y at
                (subst (λ u. lookup u c.logs ≡ some y) mk found) in
            xv ∙ sym yv
      ]
      | inr (r, c, at, found) ↦ elim (entry-set srvs i old new k v here logs q b m y bq by) [
        | inl (mk, yv) ↦
            let xv =
              none_disagrees k v srvs quiet r c x at
                (subst (λ u. lookup u c.logs ≡ some x) mk found) in
            xv ∙ sym yv
        | inr (l, d, there, also) ↦ agree r l c d m x y at there found also
      ]
    ]

InOrder-set :
    (srvs : List Rfsrv) (i : ℕ) (old new : Rfsrv) (k : ℤ) (v : Command)
    → InOrder srvs
    → (pos 1 <ℤ k → has (decr k) old.logs ≡ true)
    → get_elem? srvs i ≡ some old
    → new.logs ≡ insert k v old.logs
    → InOrder (set srvs i new)
InOrder-set srvs i old new k v order before here logs p a m at high found =
    elim (Bool-cases (eqb i p)) [
      | inr other ↦ order p a m (ground (arith, get_elem?-set srvs i p new a at, other)) high found
      | inl same ↦
          let it : new ≡ a = ground (arith, get_elem?-set srvs i p new a at, same) in
          let all : a.logs ≡ insert k v old.logs = ap (λ r. r.logs) (sym it) ∙ logs in
          let had : has m (insert k v old.logs) ≡ true = subst (λ l. has m l ≡ true) all found in
          let got : has (decr m) (insert k v old.logs) ≡ true = ground (
            arith,
            had,
            has-insert k m v old.logs,
            has-insert k (decr m) v old.logs,
            eqb_ℤ_iff k m,
            order i old m here high,
            before,
            high,
          ) in
          subst (λ l. has (decr m) l ≡ true) (sym all) got
    ]

-- What a message of `applier` or `applierSnap` does when the process goes on: nothing, or it adds
-- one command to the server's copy.
abbrev pub Adds : ℕ → ApplyMsg → Test → Test → Type 0
Adds i m ts us =
    (us.srvs ≡ ts.srvs)
    ⊎ ((old : Rfsrv) × (new : Rfsrv) × (get_elem? ts.srvs i ≡ some old)
        × (us.srvs ≡ set ts.srvs i new)
        × (new.logs ≡ insert m.command_index m.command old.logs)
        × (new.apply_err ≡ old.apply_err)
        × (disagrees m.command_index m.command ts.srvs ≡ false)
        × (pos 1 <ℤ m.command_index → has (decr m.command_index) old.logs ≡ true))

pub applier-Adds : (i : ℕ) (m : ApplyMsg) (ts us : Test) → applier i m ts ≡ ok us → Adds i m ts us
unfolding applier check_logs
applier-Adds i m ts us h = elim (Bool-cases m.command_valid) [
  | inr e ↦ inl (ground (arith, e, h))
  | inl e ↦ elim (Option-cases (get_elem? ts.srvs i)) [
    | inl none_there ↦ absurd (ground (arith, e, h, none_there))
    | inr (old, at) ↦ inr (
      old,
      record old { logs = insert m.command_index m.command old.logs },
      at,
      ground (arith, e, h, at),
      refl,
      refl,
      ground (arith, e, h, at),
      λ high. ground (arith, e, h, at, high),
    )
  ]
]

Calm-set :
    (srvs : List Rfsrv) (i : ℕ) (new : Rfsrv)
    → Calm srvs
    → new.apply_err ≡ false
    → Calm (set srvs i new)
Calm-set srvs i new calm fine p a at = ground (arith, get_elem?-set srvs i p new a at, calm p a)

pub Adds-Sound :
    (i : ℕ) (m : ApplyMsg) (ts us : Test) → Adds i m ts us → Sound ts.srvs → Sound us.srvs
Adds-Sound i m ts us (inl same) sound = subst Sound (sym same) sound
Adds-Sound i m ts us (inr (old, new, at, srvs, logs, fine, quiet, before)) (agree, order, calm) =
    subst Sound (sym srvs) (
      Agree-set ts.srvs i old new m.command_index m.command agree quiet at logs,
      InOrder-set ts.srvs i old new m.command_index m.command order before at logs,
      Calm-set ts.srvs i new calm (fine ∙ calm i old at),
    )
