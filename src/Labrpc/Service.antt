-- ===== src/Labrpc/Service.antt =====
-- `Server` and `Service`: from the name of a method to the handler. Names are lists of bytes. The
-- receiver of a service is a state `W` that its methods may change; reading the arguments and
-- writing the reply, which is gob's work, is part of a method here.
use pluggable_sharded_fault.Base.{
  ℕ, ◌+◌, ◌≡◌, refl, Bool, true, false, ◌&&◌, Option, none, some, List, [], ◌∷◌, ◌++◌, arith,
  if◌then◌else◌, Outcome, ok, panic, fatal, Comparable, nat_eq, eqb, mem, Map, lookup,
  lookup-insert, insert,
}

pub record ReplyMsg : Type 0 where
  pub ok : Bool
  pub reply : List ℕ

abbrev pub no_reply : ReplyMsg
no_reply = record { ok = false; reply = [] }

abbrev pub Handler : Type 0 → Type 0
Handler W = List ℕ → W → W × List ℕ

abbrev pub same_name : List ℕ → List ℕ → Bool
same_name [] [] = true
same_name (x ∷ xs) (y ∷ ys) = eqb x y && same_name xs ys
same_name _ _ = false

pub same_name_iff :
    (a b : List ℕ) → ((same_name a b ≡ true) → (a ≡ b)) × ((a ≡ b) → (same_name a b ≡ true))
same_name_iff [] [] = (λ _. refl, λ _. refl)
same_name_iff [] (y ∷ ys) = (λ h. cc, λ h. cc)
same_name_iff (x ∷ xs) [] = (λ h. cc, λ h. cc)
same_name_iff (x ∷ xs) (y ∷ ys) =
    (λ h. ground (arith, same_name_iff xs ys), λ h. ground (arith, same_name_iff xs ys))

instance abbrev pub name_eq : Comparable (List ℕ)
name_eq = record { same = same_name; same_iff = same_name_iff }

-- What reflection says of one method of a receiver. A parameter counts the receiver in.
pub record Method (W : Type 0) : Type 0 where
  pub name : List ℕ
  pub pkg_path : List ℕ
  pub num_in : ℕ
  pub reply_is_ptr : Bool
  pub num_out : ℕ
  pub func : Handler W

pub record Service (W : Type 0) : Type 0 where
  pub name : List ℕ
  pub methods : Map (List ℕ) (Handler W)

pub record Server (W : Type 0) : Type 0 where
  pub services : Map (List ℕ) (Service W)
  pub count : ℕ

module _ {W : Type 0} where
  -- The test that a method looks like a handler. `In(2)` panics with fewer parameters, and the
  -- code asks for them only after `NumIn`.
  abbrev pub is_handler : Method W → Bool
  is_handler m = same_name m.pkg_path [] && eqb m.num_in 3 && m.reply_is_ptr && eqb m.num_out 0

  unfoldable pub add_methods : List (Method W) → Map (List ℕ) (Handler W) → Map (List ℕ) (Handler W)
  add_methods [] acc = acc
  add_methods (m ∷ ms) acc = add_methods ms (if is_handler m then insert m.name m.func acc else acc)

  unfoldable pub make_service : List ℕ → List (Method W) → Service W
  make_service name ms = record { name = name; methods = add_methods ms [] }

  unfoldable pub make_server : Server W
  make_server = record { services = []; count = 0 }

  unfoldable pub add_service : Service W → Server W → Server W
  add_service svc rs = record rs { services = insert svc.name svc rs.services }

  unfoldable pub get_count : Server W → ℕ
  get_count rs = rs.count

  -- An unknown method is `log.Fatalf`.
  unfoldable pub service_dispatch : List ℕ → List ℕ → Service W → W → Outcome (W × ReplyMsg)
  service_dispatch methname args svc w = elim (lookup methname svc.methods) [
    | none ↦ fatal
    | some method ↦ let (w', bytes) = method args w in ok (w', record { ok = true; reply = bytes })
  ]

-- `b'.'`
abbrev pub dot : ℕ
dot = 46

-- Around the last dot; `none` when there is none, where `svcMeth[:-1]` panics.
unfoldable pub split_last : List ℕ → Option (List ℕ × List ℕ)
split_last [] = none
split_last (c ∷ s) = elim (split_last s) [
  | some (before, after) ↦ some (c ∷ before, after)
  | none ↦ if eqb c dot then some ([], s) else none
]

module _ {W : Type 0} where
  dispatch_to : List ℕ → Option (List ℕ × List ℕ) → Server W → W → Outcome (W × ReplyMsg)
  dispatch_to args none rs w = panic
  dispatch_to args (some (service_name, method_name)) rs w =
      elim (lookup service_name rs.services) [
        | none ↦ fatal
        | some service ↦ service_dispatch method_name args service w
      ]

  -- The server counts the request before it looks for the service. The count does not reach 2 ^ 63.
  unfoldable pub dispatch : List ℕ → List ℕ → Server W → W → Server W × Outcome (W × ReplyMsg)
  unfolding dispatch_to split_last service_dispatch
  dispatch svc_meth args rs w =
      (record rs { count = rs.count + 1 }, dispatch_to args (split_last svc_meth) rs w)

split_last_plain : (m : List ℕ) → mem dot m ≡ false → split_last m ≡ none
unfolding split_last
split_last_plain [] h = refl
split_last_plain (c ∷ m) h = ground (arith, split_last_plain m)

pub split_last-append :
    (s m : List ℕ) → mem dot m ≡ false → split_last (s ++ (dot ∷ m)) ≡ some (s, m)
unfolding split_last
split_last-append [] m h = ground (arith, split_last_plain m h)
split_last-append (c ∷ s) m h = ground (arith, split_last-append s m h)

module _ {W : Type 0} where
  dispatch_to_found :
      (n m args : List ℕ) (svc : Service W) (h : Handler W) (rs : Server W) (w : W)
      → lookup n rs.services ≡ some svc
      → lookup m svc.methods ≡ some h
      → dispatch_to args (some (n, m)) rs w
        ≡ ok ((h args w).0, record { ok = true; reply = (h args w).1 })
  unfolding dispatch_to service_dispatch
  dispatch_to_found n m args svc h rs w e found = ground (arith, e, found)

  added :
      (svc : Service W) (rs : Server W) → lookup svc.name (add_service svc rs).services ≡ some svc
  unfolding add_service
  added svc rs =
      rw (lookup-insert svc.name svc.name svc rs.services, (same_name_iff svc.name svc.name).1 refl)

  -- A call of a service's method, whatever dots are in the name of the service, reaches the method
  -- that was found suitable under that name, runs it once, and counts one request.
  pub dispatch-reaches :
      (svc : Service W) (m : List ℕ) (h : Handler W) (rs : Server W) (args : List ℕ) (w : W)
      → mem dot m ≡ false
      → lookup m svc.methods ≡ some h
      → dispatch (svc.name ++ (dot ∷ m)) args (add_service svc rs) w ≡ (
        record rs { services = insert svc.name svc rs.services; count = rs.count + 1 },
        ok ((h args w).0, record { ok = true; reply = (h args w).1 }),
      )
  unfolding dispatch add_service
  dispatch-reaches svc m h rs args w plain found = rw (
    split_last-append svc.name m plain,
    dispatch_to_found svc.name m args svc h (add_service svc rs) w (added svc rs) found,
  )
