-- ===== src/Store/Examples.antt =====
-- contrib/libstore and contrib/storageimpl at concrete inputs: two servers.
use airline_booking.Prelude.{ℕ, ◌≡◌, ◌↔◌, inl, inr, true, [], ◌∷◌, nat_eq, Any, codes, text_eq}
use airline_booking.Store.Routing.{Node, id_at, owner, key_id, is_key_in_range}
use airline_booking.Store.Routing.Owner.{IsOwner}
use airline_booking.Store.Routing.Agreement.{SameIds, owner-IsOwner, routes_agree}

abbrev low : Node
low = record { host_port = codes "a:1"; node_id = 10 }

abbrev high : Node
high = record { host_port = codes "b:1"; node_id = 3000000000 }

owner-IsOwner_example :
    IsOwner 11 (low ∷ high ∷ []) (id_at (low ∷ high ∷ []) (owner 11 (low ∷ high ∷ [])))
owner-IsOwner_example = owner-IsOwner 11 low (high ∷ [])

swapped : SameIds (low ∷ high ∷ []) (high ∷ low ∷ [])
swapped = (there, back)
  where
    there :
        (id : ℕ)
        → Any (λ (m : Node). m.node_id ≡ id) (low ∷ high ∷ [])
        → Any (λ (n : Node). n.node_id ≡ id) (high ∷ low ∷ [])
    there id (inl e) = inr (inl e)
    there id (inr (inl e)) = inl e
    there id (inr (inr none_left)) = elim none_left [ ]

    back :
        (id : ℕ)
        → Any (λ (m : Node). m.node_id ≡ id) (high ∷ low ∷ [])
        → Any (λ (n : Node). n.node_id ≡ id) (low ∷ high ∷ [])
    back id (inl e) = inr (inl e)
    back id (inr (inl e)) = inl e
    back id (inr (inr none_left)) = elim none_left [ ]

routes_agree_example :
    (is_key_in_range (codes "user:x") (high ∷ low ∷ []) 10 ≡ true)
    ↔ (id_at (low ∷ high ∷ []) (owner (key_id (codes "user:x")) (low ∷ high ∷ [])) ≡ 10)
routes_agree_example = routes_agree (codes "user:x") low high (high ∷ []) (low ∷ []) 10 swapped
