-- ===== src/Store/Routing/Agreement.antt =====
-- contrib/libstore and contrib/storageimpl: the client and the servers agree on the owner of a key.
use airline_booking.Prelude.{
  ℕ, ◌≤◌, ◌<◌, ◌≡◌, refl, sym, ap, subst, ◌∙◌, ◌↔◌, inl, inr, Bool, true, false, List, [], ◌∷◌,
  arith, nat_beq_iff, nat_eq, get_elem?, All, Any, Text, text_eq,
}
use airline_booking.Store.Routing.{
  Node, id_at, scan_large, owner_from, owner, key_id, is_key_in_range,
}
use airline_booking.Store.Routing.Owner.{
  IsOwner, Found, scan-Found, scan_kept, IsOwner-large, IsOwner-wrapped, whole,
}

IsOwner-of :
    (keyid : ℕ) (n : Node) (ns : List Node) (found : ℕ × Bool)
    → Found keyid (n ∷ ns) found
    → (found.1 ≡ false → (found.0 ≡ 0) × All (λ m. m.node_id < keyid) (n ∷ ns))
    → IsOwner keyid (n ∷ ns) (id_at (n ∷ ns) (owner_from keyid (n ∷ ns) found))
IsOwner-of keyid n ns (current, true) f g =
    let (m, here, ok) = f refl in IsOwner-large keyid (n ∷ ns) current m here ok
IsOwner-of keyid n ns (current, false) f g =
    let (start, below) = g refl in
    IsOwner-wrapped keyid (n ∷ ns) current n (ap (get_elem? (n ∷ ns)) start) below

-- With at least one server, the loops of getServer and isKeyInRange end at the key's successor on the
-- ring: the lowest ID that is not below the key's, or the lowest of all where every ID is below it.
pub owner-IsOwner :
    (keyid : ℕ) (n : Node) (ns : List Node)
    → IsOwner keyid (n ∷ ns) (id_at (n ∷ ns) (owner keyid (n ∷ ns)))
unfolding owner
owner-IsOwner keyid n ns =
    IsOwner-of keyid n ns (scan_large keyid 0 (n ∷ ns) (0, false))
      (scan-Found keyid (n ∷ ns) 0 (n ∷ ns) (0, false) (whole (n ∷ ns)) (λ e. cc e))
      (λ e. let (_, start, below) = scan_kept keyid 0 (n ∷ ns) (0, false) e in (start, below))

-- The IDs of both lists are the same, whatever their order.
abbrev pub SameIds : List Node → List Node → Type 0
SameIds ms ns =
    ((id : ℕ) → Any (λ m. m.node_id ≡ id) ms → Any (λ n. n.node_id ≡ id) ns)
    × ((id : ℕ) → Any (λ n. n.node_id ≡ id) ns → Any (λ m. m.node_id ≡ id) ms)

all_any :
    (P : ℕ → Type 0) (id : ℕ) (ns : List Node)
    → All (λ n. P n.node_id) ns
    → Any (λ n. n.node_id ≡ id) ns
    → P id
all_any P id [] a h = elim h [ ]
all_any P id (n ∷ ns) a (inl e) = subst P e a.0
all_any P id (n ∷ ns) a (inr h) = all_any P id ns a.1 h

owner_unique :
    (keyid : ℕ) (ms ns : List Node) (a b : ℕ)
    → SameIds ms ns
    → IsOwner keyid ms a
    → IsOwner keyid ns b
    → a ≡ b
owner_unique keyid ms ns a b (to, from) (ha, inl (ka, la)) (hb, inl (kb, lb)) =
    let ab = all_any (λ i. keyid ≤ i → a ≤ i) b ms la (from b hb) kb in
    let ba = all_any (λ i. keyid ≤ i → b ≤ i) a ns lb (to a ha) ka in omega (arith, ab, ba)
owner_unique keyid ms ns a b (to, from) (ha, inr (_, la)) (hb, inr (_, lb)) =
    let ab = all_any (λ i. a ≤ i) b ms la (from b hb) in
    let ba = all_any (λ i. b ≤ i) a ns lb (to a ha) in omega (arith, ab, ba)
owner_unique keyid ms ns a b (to, from) (ha, inl (ka, _)) (hb, inr (below, _)) =
    let k = all_any (λ i. i < keyid) a ns below (to a ha) in absurd (omega (arith, ka, k))
owner_unique keyid ms ns a b (to, from) (ha, inr (below, _)) (hb, inl (kb, _)) =
    let k = all_any (λ i. i < keyid) b ms below (from b hb) in absurd (omega (arith, kb, k))

-- A client and a server with the same server IDs, in any order, agree on every key: the server takes
-- the key exactly if its own ID is that of the server which the client calls.
pub routes_agree :
    (key : Text) (n m : Node) (ns ms : List Node) (nodeid : ℕ)
    → SameIds (n ∷ ns) (m ∷ ms)
    → (is_key_in_range key (m ∷ ms) nodeid ≡ true)
      ↔ (id_at (n ∷ ns) (owner (key_id key) (n ∷ ns)) ≡ nodeid)
unfolding is_key_in_range
routes_agree key n m ns ms nodeid same =
    let keyid = key_id key in
    let one =
      owner_unique keyid (n ∷ ns) (m ∷ ms) _ _ same (owner-IsOwner keyid n ns)
        (owner-IsOwner keyid m ms) in
    let (to, from) = nat_beq_iff (id_at (m ∷ ms) (owner keyid (m ∷ ms))) nodeid in
    (λ hit. one ∙ to hit, λ e. from (sym one ∙ e))
