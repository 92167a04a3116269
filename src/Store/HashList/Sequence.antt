-- ===== src/Store/HashList/Sequence.antt =====
-- The values of a list as a sequence, and where each of them is.
use airline_booking.Prelude.{
  ◌≡◌, refl, ap, inl, inr, true, false, ◌||◌, Option, none, some, List, [], ◌∷◌, ◌++◌, arith,
  if◌then◌else◌, ◌==◌, nat_eq, Bool-cases, beq_self, elem, Distinct, Text, text_eq,
}
use airline_booking.Store.HashList.{Ptr}
use airline_booking.Store.HashList.Chain.{Items, values}

-- Where the element with a value is.
abbrev pub address : Text → Items → Option Ptr
address v [] = none
address v ((p, w) ∷ cs) = if w == v then some p else address v cs

-- A sequence without one value.
unfoldable pub without : Text → List Text → List Text
without v [] = []
without v (w ∷ vs) = let rest = without v vs in if w == v then rest else w ∷ rest

pub without-absent : (v : Text) (vs : List Text) → elem v vs ≡ false → without v vs ≡ vs
unfolding without
without-absent v [] h = refl
without-absent v (w ∷ vs) h = ground (arith, without-absent v vs)

pub without-middle :
    (v : Text) (vs ws : List Text)
    → elem v vs ≡ false
    → elem v ws ≡ false
    → without v (vs ++ v ∷ ws) ≡ vs ++ ws
unfolding without
without-middle v [] ws a b = ground (arith, without-absent v ws b, beq_self v)
without-middle v (w ∷ vs) ws a b = ground (arith, without-middle v vs ws)

pub elem-address :
    (v : Text) (cs : Items)
    → elem v (values cs) ≡ elim (address v cs) [ none ↦ false | some p ↦ true ]
elem-address v [] = refl
elem-address v ((p, w) ∷ cs) = ground (arith, elem-address v cs)

pub address-absent : (v : Text) (cs : Items) → elem v (values cs) ≡ false → address v cs ≡ none
address-absent v [] h = refl
address-absent v ((p, w) ∷ cs) h = ground (arith, address-absent v cs)

pub address-snoc :
    (v w : Text) (p : Ptr) (cs : Items)
    → elem v (values cs) ≡ false
    → address w (cs ++ (p, v) ∷ []) ≡ (if v == w then some p else address w cs)
address-snoc v w p [] h = refl
address-snoc v w p ((q, u) ∷ cs) h =
    ground
      (arith, address-snoc v w p cs, text_eq.beq_iff u w, text_eq.beq_iff v w, text_eq.beq_iff u v)

pub address-removed :
    (v w : Text) (p : Ptr) (xs ys : Items)
    → elem v (values xs) ≡ false
    → elem v (values ys) ≡ false
    → address w (xs ++ ys) ≡ (if v == w then none else address w (xs ++ (p, v) ∷ ys))
address-removed v w p [] ys a b = ground (arith, address-absent v ys b, text_eq.beq_iff v w)
address-removed v w p ((q, u) ∷ xs) ys a b = ground (
  arith,
  address-removed v w p xs ys,
  text_eq.beq_iff u w,
  text_eq.beq_iff v w,
  text_eq.beq_iff u v,
)

-- The element with a value, and what stands before and after it.
pub address-split :
    (v : Text) (p : Ptr) (cs : Items)
    → address v cs ≡ some p
    → (xs ys : Items) × (cs ≡ xs ++ (p, v) ∷ ys) × (elem v (values xs) ≡ false)
address-split v p [] h = cc
address-split v p ((q, w) ∷ cs) h = elim (Bool-cases (w == v)) [
  | inl e ↦ ([], cs, ground (arith, text_eq.beq_iff w v), refl)
  | inr e ↦
      let (xs, ys, eq, out) = address-split v p cs (ground arith) in
      ((q, w) ∷ xs, ys, ap (λ l. (q, w) ∷ l) eq, ground arith)
]

pub elem-append : (v : Text) (vs ws : List Text) → elem v (vs ++ ws) ≡ (elem v vs || elem v ws)
elem-append v [] ws = refl
elem-append v (w ∷ vs) ws = ground (arith, elem-append v vs ws)

pub Distinct-snoc :
    (v : Text) (vs : List Text) → Distinct vs → elem v vs ≡ false → Distinct (vs ++ v ∷ [])
Distinct-snoc v [] d h = (refl, tt)
Distinct-snoc v (w ∷ vs) (o, d) h = (
  ground (arith, elem-append w vs (v ∷ []), text_eq.beq_iff v w, text_eq.beq_iff w v),
  Distinct-snoc v vs d (ground arith),
)

pub Distinct-middle :
    (v : Text) (vs ws : List Text)
    → Distinct (vs ++ v ∷ ws)
    → (elem v vs ≡ false) × (elem v ws ≡ false) × Distinct (vs ++ ws)
Distinct-middle v [] ws (o, d) = (refl, o, d)
Distinct-middle v (w ∷ vs) ws (o, d) =
    let (a, b, rest) = Distinct-middle v vs ws d in
    (
      ground (arith, elem-append w vs (v ∷ ws), text_eq.beq_iff v w, text_eq.beq_iff w v),
      b,
      (ground (arith, elem-append w vs (v ∷ ws), elem-append w vs ws), rest),
    )

pub address_middle :
    (v : Text) (p : Ptr) (xs ys : Items)
    → elem v (values xs) ≡ false
    → address v (xs ++ (p, v) ∷ ys) ≡ some p
address_middle v p [] ys h = ground (arith, beq_self v)
address_middle v p ((q, w) ∷ xs) ys h = ground (arith, address_middle v p xs ys)
