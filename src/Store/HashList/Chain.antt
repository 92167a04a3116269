-- ===== src/Store/HashList/Chain.antt =====
-- Stretches of a doubly linked list: the elements at the addresses of `cs`, in order, with the links
-- into and out of them.
use airline_booking.Prelude.{
  ℕ, zero, suc, ◌≡◌, refl, ap, ◌∙◌, Bool, true, false, ◌||◌, some, List, [], ◌∷◌, ◌++◌, arith, ◌==◌,
  nat_eq, beq_self, length, Text, text_eq,
}
use airline_booking.Store.HashList.{
  Ptr, nil, Element, element, Cells, write, load, set_next, set_before, collect,
}

-- Address and value of each element.
abbrev pub Items : Type 0
Items = List (Ptr × Text)

abbrev pub first : Items → Ptr → Ptr
first [] stop = stop
first ((p, v) ∷ cs) stop = p

abbrev pub last : Ptr → Items → Ptr
last prev [] = prev
last prev ((p, v) ∷ cs) = last p cs

abbrev pub has : Ptr → Items → Bool
has a [] = false
has a ((p, v) ∷ cs) = p == a || has a cs

abbrev pub values : Items → List Text
values [] = []
values ((p, v) ∷ cs) = v ∷ values cs

-- The addresses are different and none is nil.
abbrev pub Apart : Items → Type 0
Apart [] = Unit {0}
Apart ((p, v) ∷ cs) = ((p == nil) ≡ false) × (has p cs ≡ false) × Apart cs

-- From the element at `prev` to the one at `stop` the links run through `cs`, in both directions.
pub data Chain (h : Cells) (stop : Ptr) : Ptr → Items → Type 0 where
  done : {prev : Ptr} → Chain h stop prev []
  link :
      {prev p : Ptr} {v : Text} {cs : Items}
      → h p ≡ some (element v (first cs stop) prev)
      → Chain h stop p cs
      → Chain h stop prev ((p, v) ∷ cs)

pub has-append : (a : Ptr) (xs ys : Items) → has a (xs ++ ys) ≡ (has a xs || has a ys)
has-append a [] ys = refl
has-append a ((p, v) ∷ xs) ys = ground (arith, has-append a xs ys)

pub values-append : (xs ys : Items) → values (xs ++ ys) ≡ values xs ++ values ys
values-append [] ys = refl
values-append ((p, v) ∷ xs) ys = rw (values-append xs ys)

pub length-values : (cs : Items) → length (values cs) ≡ length cs
length-values [] = refl
length-values (c ∷ cs) = ground (arith, length-values cs)

pub first-append : (xs ys : Items) (stop : Ptr) → first (xs ++ ys) stop ≡ first xs (first ys stop)
first-append [] ys stop = refl
first-append (x ∷ xs) ys stop = refl

pub last-append : (prev : Ptr) (xs ys : Items) → last prev (xs ++ ys) ≡ last (last prev xs) ys
last-append prev [] ys = refl
last-append prev ((p, v) ∷ xs) ys = last-append p xs ys

pub Apart-append :
    (xs ys : Items)
    → Apart xs
    → Apart ys
    → ((a : Ptr) → has a xs ≡ true → has a ys ≡ false)
    → Apart (xs ++ ys)
Apart-append [] ys a b d = b
Apart-append ((p, v) ∷ xs) ys (n, o, a) b d = (
  n,
  rw (has-append p xs ys, o) (d p (ground (arith, beq_self p))),
  Apart-append xs ys a b (λ q i. d q (ground arith)),
)

pub Apart-split :
    (xs ys : Items)
    → Apart (xs ++ ys)
    → Apart xs × Apart ys × ((a : Ptr) → has a xs ≡ true → has a ys ≡ false)
Apart-split [] ys a = (tt, a, λ q i. cc)
Apart-split ((p, v) ∷ xs) ys (n, o, a) =
    let (l, r, d) = Apart-split xs ys a in
    ((n, ground (arith, has-append p xs ys), l), r, λ q i. ground (arith, d q, has-append p xs ys))

-- A stretch survives a change outside of it.
pub Chain-frame :
    {h g : Cells} {stop prev : Ptr} {cs : Items}
    → Chain h stop prev cs
    → ((a : Ptr) → has a cs ≡ true → g a ≡ h a)
    → Chain g stop prev cs
Chain-frame done same = done
Chain-frame (link {p} e c) same =
    link (same p (ground (arith, beq_self p)) ∙ e) (Chain-frame c (λ a i. same a (ground arith)))

pub Chain-write :
    {h : Cells} {prev stop : Ptr} {cs : Items} (p : Ptr) (e : Element)
    → Chain h stop prev cs
    → has p cs ≡ false
    → Chain (write h p e) stop prev cs
unfolding write
Chain-write p e c out = Chain-frame c (λ a i. ground arith)

pub Chain-append :
    {h : Cells} {prev stop : Ptr} (xs ys : Items)
    → Chain h (first ys stop) prev xs
    → Chain h stop (last prev xs) ys
    → Chain h stop prev (xs ++ ys)
Chain-append [] ys c d = d
Chain-append {stop} ((p, v) ∷ xs) ys (link e c) d =
    link (rw (first-append xs ys stop) e) (Chain-append xs ys c d)

pub Chain-split :
    {h : Cells} {prev stop : Ptr} (xs ys : Items)
    → Chain h stop prev (xs ++ ys)
    → Chain h (first ys stop) prev xs × Chain h stop (last prev xs) ys
Chain-split [] ys c = (done, c)
Chain-split {prev} {stop} ((p, v) ∷ xs) ys (link e c) =
    let (l, r) = Chain-split xs ys c in
    (link (e ∙ ap (λ q. some (element v q prev)) (first-append xs ys stop)) l, r)

-- Redirecting the last element's next.
pub set_next-last :
    {h : Cells} {prev stop : Ptr} (q : Ptr) (c : Ptr × Text) (cs : Items)
    → Apart (c ∷ cs)
    → Chain h stop prev (c ∷ cs)
    → (g : Cells) × (set_next (last prev (c ∷ cs)) q h ≡ some g)
      × Chain g q prev (c ∷ cs)
      × ((a : Ptr) → has a (c ∷ cs) ≡ false → g a ≡ h a)
unfolding set_next load write
set_next-last {h} {prev} q (p, v) [] (n, _, _) (link e _) = (
  write h p (element v q prev),
  rw (set_next, load, n, e),
  link (ground (arith, beq_self p)) done,
  λ a o. ground arith,
)
set_next-last q (p, v) (d ∷ cs) (n, o, a) (link e c) =
    let (g, wrote, chain, same) = set_next-last q d cs a c in
    (g, wrote, link (same p o ∙ e) chain, λ b i. same b (ground arith))

-- Redirecting the first element's before.
pub set_before-first :
    {h : Cells} {prev stop : Ptr} (q : Ptr) (c : Ptr × Text) (cs : Items)
    → Apart (c ∷ cs)
    → Chain h stop prev (c ∷ cs)
    → (g : Cells) × (set_before c.0 q h ≡ some g)
      × Chain g stop q (c ∷ cs)
      × ((a : Ptr) → has a (c ∷ cs) ≡ false → g a ≡ h a)
unfolding set_before load write
set_before-first {h} {stop} q (p, v) cs (n, o, a) (link e c) = (
  write h p (element v (first cs stop) q),
  rw (set_before, load, n, e),
  link (ground (arith, beq_self p)) (Chain-write p (element v (first cs stop) q) c o),
  λ b i. ground arith,
)

pub collect-Chain :
    {h : Cells} {prev : Ptr} (cs : Items) (n : ℕ)
    → Apart cs
    → Chain h nil prev cs
    → n ≡ length cs
    → collect n (first cs nil) h ≡ some (values cs)
unfolding collect load
collect-Chain [] zero a c e = refl
collect-Chain [] (suc n) a c e = absurd (omega arith)
collect-Chain (x ∷ cs) zero a c e = absurd (omega arith)
collect-Chain {h} ((p, v) ∷ cs) (suc n) (m, o, a) (link e c) count =
    ground (arith, collect-Chain cs n a c (omega arith))
