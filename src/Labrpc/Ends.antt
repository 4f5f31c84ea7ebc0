-- ===== src/Labrpc/Ends.antt =====
-- The life of a client's end: made, connected, enabled, deleted.
use mathlib.Core.Path.{subst}
use pluggable_sharded_fault.Base.{
  ℕ, ◌≡◌, refl, sym, ◌∙◌, true, false, Option, none, some, String, arith, ok, string_eq, Map,
  lookup, lookup-insert, lookup-delete, lookup-none_iff, has, has-insert, insert, delete,
}
use pluggable_sharded_fault.Labrpc.Network.{
  ClientEnd, Network, make_end, delete_end, add_server, connect, enable,
}
use pluggable_sharded_fault.Labrpc.Delivery.{LeadsTo}

-- The three maps of ends have the same keys.
pub record IsNetwork (rn : Network) : Type 0 where
  pub enabled_ends : (k : String) → has k rn.enabled ≡ has k rn.ends
  pub connections_ends : (k : String) → has k rn.connections ≡ has k rn.ends

pub make_end-fresh :
    (endname : String) (rn r : Network) (e : ClientEnd)
    → make_end endname rn ≡ ok (e, r)
    → (has endname rn.ends ≡ false)
      × (e.endname ≡ endname)
      × (r ≡ record rn {
        ends = insert endname e rn.ends;
        enabled = insert endname false rn.enabled;
        connections = insert endname none rn.connections;
      })
unfolding make_end
make_end-fresh endname rn r e h = ground arith

-- MakeEnd keeps the three maps of ends at the same keys.
pub make_end-IsNetwork :
    (endname : String) (rn r : Network) (e : ClientEnd)
    → make_end endname rn ≡ ok (e, r)
    → IsNetwork rn
    → IsNetwork r
make_end-IsNetwork endname rn r e h v =
    let f = (make_end-fresh endname rn r e h).2 in
    let unnamed : Option String = none in
    record {
      enabled_ends = λ k. ground (
        arith,
        f,
        v.enabled_ends k,
        has-insert endname k false rn.enabled,
        has-insert endname k e rn.ends,
      );
      connections_ends = λ k. ground (
        arith,
        f,
        v.connections_ends k,
        has-insert endname k unnamed rn.connections,
        has-insert endname k e rn.ends,
      );
    }

-- A new end that is connected and enabled leads to the server that is then added under the name,
-- whether or not that name stood for another server before.
pub make_end-LeadsTo :
    (endname name : String) (p : ℕ) (rn r : Network) (e : ClientEnd)
    → make_end endname rn ≡ ok (e, r)
    → LeadsTo endname name p
        (add_server name (some p) (enable endname true (connect endname name r)))
unfolding add_server enable connect
make_end-LeadsTo endname name p rn r e h = record {
  on =
      ground
        (arith, lookup-insert endname endname true r.enabled, string_eq.same_iff endname endname);
  connected = ground (
    arith,
    lookup-insert endname endname (some name) r.connections,
    string_eq.same_iff endname endname,
  );
  serves = ground (arith, lookup-insert name name (some p) r.servers, string_eq.same_iff name name);
}

-- The networks look the same through their maps.
pub record SameMaps (a b : Network) : Type 0 where
  pub ends : (k : String) → lookup k a.ends ≡ lookup k b.ends
  pub enabled : (k : String) → lookup k a.enabled ≡ lookup k b.enabled
  pub connections : (k : String) → lookup k a.connections ≡ lookup k b.connections
  pub servers : (k : String) → lookup k a.servers ≡ lookup k b.servers

undone :
    {A : Type 0} (k j : String) (v : A) (m : Map String A)
    → has k m ≡ false
    → lookup j (delete k (insert k v m)) ≡ lookup j m
undone k j v m h = ground (
  arith,
  lookup-delete k j (insert k v m),
  lookup-insert k j v m,
  (lookup-none_iff k m).1,
  string_eq.same_iff k j,
)

abbrev made : String → ClientEnd → Network → Network
made endname e rn = record rn {
  ends = insert endname e rn.ends;
  enabled = insert endname false rn.enabled;
  connections = insert endname none rn.connections;
}

delete_end-made :
    (endname : String) (e : ClientEnd) (rn : Network)
    → IsNetwork rn
    → has endname rn.ends ≡ false
    → (q : Network) × (delete_end endname (made endname e rn) ≡ ok q) × SameMaps q rn
unfolding delete_end
delete_end-made endname e rn v fresh = (
  record rn {
    ends = delete endname (insert endname e rn.ends);
    enabled = delete endname (insert endname false rn.enabled);
    connections = delete endname (insert endname none rn.connections);
  },
  ground (arith, has-insert endname endname e rn.ends, string_eq.same_iff endname endname),
  record {
    ends = λ k. undone endname k e rn.ends fresh;
    enabled = λ k. undone endname k false rn.enabled (v.enabled_ends endname ∙ fresh);
    connections = λ k. undone endname k none rn.connections (v.connections_ends endname ∙ fresh);
    servers = λ k. refl;
  },
)

-- DeleteEnd takes back a MakeEnd: it succeeds, and every name is then found in the maps as before.
pub delete_end-make_end :
    (endname : String) (rn r : Network) (e : ClientEnd)
    → IsNetwork rn
    → make_end endname rn ≡ ok (e, r)
    → (q : Network) × (delete_end endname r ≡ ok q) × SameMaps q rn
delete_end-make_end endname rn r e v h =
    let (fresh, _, same) = make_end-fresh endname rn r e h in
    subst (λ x. (q : Network) × (delete_end endname x ≡ ok q) × SameMaps q rn) (sym same)
      (delete_end-made endname e rn v fresh)
