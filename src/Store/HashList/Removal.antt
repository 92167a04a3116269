-- ===== src/Store/HashList/Removal.antt =====
-- Remove of contrib/storageimpl/hashlist.go against the abstract view.
use airline_booking.Prelude.{
  ◌≡◌, refl, sym, ap, subst, ◌∙◌, inl, inr, false, none, some, List, [], ◌∷◌, ◌++◌, arith,
  if◌then◌else◌, ◌==◌, nat_eq, Option-cases, beq_self, length-append, elem, Distinct, Text, text_eq,
}
use airline_booking.Prelude.Assoc.{lookup, lookup-delete}
use airline_booking.Store.HashList.{
  Ptr, nil, Element, element, Cells, HashList, load, bypass_next, bypass_before, unlink,
  remove_value,
}
use airline_booking.Store.HashList.Chain.{
  Items, first, last, has, values, Apart, Chain, done, link, has-append, values-append, last-append,
  Apart-append, Apart-split, Chain-frame, Chain-append, Chain-split, set_next-last,
  set_before-first,
}
use airline_booking.Store.HashList.Sequence.{
  address, without, without-absent, without-middle, address-removed, address-split, elem-address,
  Distinct-middle, address_middle,
}
use airline_booking.Store.HashList.Refinement.{IsHashList, Represents}

last_not_nil : (p : Ptr) (cs : Items) → (p == nil) ≡ false → Apart cs → (last p cs == nil) ≡ false
last_not_nil p [] n a = n
last_not_nil p ((q, v) ∷ cs) n (m, o, a) = last_not_nil q cs m a

-- The first half of Remove: what stands before the element gets the stretch's new end.
bypass_next-Chain :
    {h : Cells} {stop : Ptr} (v : Text) (q : Ptr) (xs : Items)
    → Apart xs
    → Chain h stop nil xs
    → (g : Cells) × (bypass_next (element v q (last nil xs)) h ≡ some g)
      × Chain g q nil xs
      × ((a : Ptr) → has a xs ≡ false → g a ≡ h a)
unfolding bypass_next
bypass_next-Chain {h} v q [] a c = (h, refl, done, λ b o. refl)
bypass_next-Chain v q (x ∷ xs) a c =
    let (g, wrote, chain, same) = set_next-last q x xs a c in
    (g, rw (bypass_next, last_not_nil x.0 xs a.0 a.2) wrote, chain, same)

-- The second half: what stands behind the element gets the stretch's new start.
bypass_before-Chain :
    {h : Cells} {prev : Ptr} (v : Text) (b : Ptr) (ys : Items)
    → Apart ys
    → Chain h nil prev ys
    → (g : Cells) × (bypass_before (element v (first ys nil) b) h ≡ some g)
      × Chain g nil b ys
      × ((a : Ptr) → has a ys ≡ false → g a ≡ h a)
unfolding bypass_before
bypass_before-Chain {h} v b [] a c = (h, refl, done, λ d o. refl)
bypass_before-Chain v b (y ∷ ys) a c =
    let (g, wrote, chain, same) = set_before-first b y ys a c in
    (g, rw (bypass_before, a.0) wrote, chain, same)

last_ne : (a p : Ptr) (cs : Items) → (p == a) ≡ false → has a cs ≡ false → (last p cs == a) ≡ false
last_ne a p [] n o = n
last_ne a p ((q, v) ∷ cs) n o = last_ne a q cs (ground arith) (ground arith)

-- The ends after the removal of the element at `p`.
head_after :
    (p : Ptr) (v : Text) (xs ys : Items)
    → has p xs ≡ false
    → (if first (xs ++ (p, v) ∷ ys) nil == p then first ys nil else first (xs ++ (p, v) ∷ ys) nil)
      ≡ first (xs ++ ys) nil
head_after p v [] ys o = ground (arith, beq_self p)
head_after p v ((q, w) ∷ xs) ys o = ground arith

tail_after :
    (p b : Ptr) (ys : Items)
    → has p ys ≡ false
    → (if last p ys == p then b else last p ys) ≡ last b ys
tail_after p b [] o = ground (arith, beq_self p)
tail_after p b ((q, w) ∷ ys) o = ground (arith, last_ne p q ys)

module _ (v : Text) (hl : HashList) where
  remove_value_present :
      (p : Ptr) (e : Element) (g g' : Cells)
      → lookup v hl.list_map ≡ some p
      → (p == nil) ≡ false
      → hl.cells p ≡ some e
      → bypass_next e hl.cells ≡ some g
      → bypass_before e g ≡ some g'
      → remove_value v hl ≡ some (unlink v p e g' hl)
  unfolding remove_value load
  remove_value_present p e g g' found n at first_half second_half = ground arith

  module _ (p : Ptr) (xs ys : Items) (i : IsHashList hl (xs ++ (p, v) ∷ ys)) where
    -- The links after Remove.
    removed_links :
        (h : Cells) × (remove_value v hl
          ≡ some (unlink v p (element v (first ys nil) (last nil xs)) h hl))
        × Chain h nil nil (xs ++ ys)
    removed_links =
        let (before, after) = Chain-split xs ((p, v) ∷ ys) i.chain in
        elim after [
          | link at behind ↦
              let (ax, (n, o, ay), apart) = Apart-split xs ((p, v) ∷ ys) i.apart in
              let (g, wrote, chain, same) = bypass_next-Chain v (first ys nil) xs ax before in
              let behind' = Chain-frame behind (λ a m. same a (ground (arith, apart a))) in
              let (g', wrote', chain', same') = bypass_before-Chain v (last nil xs) ys ay behind' in
              let found : lookup v hl.list_map ≡ some p =
                i.index v
                ∙ address_middle v p xs ys
                    (Distinct-middle v (values xs) (values ys)
                      (subst Distinct (values-append xs ((p, v) ∷ ys)) i.distinct)).0 in
              (
                g',
                remove_value_present p _ g g' found n at wrote wrote',
                Chain-append xs ys (Chain-frame chain (λ a m. same' a (ground (arith, apart a))))
                    chain',
              )
        ]

    -- The list without the element.
    removed-IsHashList :
        (h : Cells)
        → Chain h nil nil (xs ++ ys)
        → IsHashList (unlink v p (element v (first ys nil) (last nil xs)) h hl) (xs ++ ys)
    unfolding unlink
    removed-IsHashList h c =
        let (ax, (n, o, ay), apart) = Apart-split xs ((p, v) ∷ ys) i.apart in
        let (ex, ey, d) =
          Distinct-middle v (values xs) (values ys)
            (subst Distinct (values-append xs ((p, v) ∷ ys)) i.distinct) in
        record {
          head =
              ap (λ q. if q == p then first ys nil else q) i.head
              ∙ head_after p v xs ys (ground (arith, apart p, beq_self p));
          tail =
              ap (λ q. if q == p then last nil xs else q)
                (i.tail ∙ last-append nil xs ((p, v) ∷ ys))
              ∙ tail_after p (last nil xs) ys o
              ∙ sym (last-append nil xs ys);
          cnt = ground (arith, i.cnt, length-append xs ((p, v) ∷ ys), length-append xs ys);
          chain = c;
          apart = Apart-append xs ys ax ay (λ a m. ground (arith, apart a));
          below =
              λ a m. ground (arith, i.below a, has-append a xs ys, has-append a xs ((p, v) ∷ ys));
          index = λ w.
              ground (
                arith,
                lookup-delete v w hl.list_map,
                i.index w,
                address-removed v w p xs ys ex ey,
              );
          distinct = subst Distinct (sym (values-append xs ys)) d;
        }

    removed_values : values (xs ++ ys) ≡ without v (values (xs ++ (p, v) ∷ ys))
    removed_values =
        let (ex, ey, d) =
          Distinct-middle v (values xs) (values ys)
            (subst Distinct (values-append xs ((p, v) ∷ ys)) i.distinct) in
        values-append xs ys
        ∙ sym (without-middle v (values xs) (values ys) ex ey)
        ∙ ap (without v) (sym (values-append xs ((p, v) ∷ ys)))

  remove_value_absent : lookup v hl.list_map ≡ none → remove_value v hl ≡ some hl
  unfolding remove_value
  remove_value_absent e = rw (remove_value, e) refl

  -- On a list that stands for a sequence, Remove of any value returns, and takes the value out where
  -- the sequence has it; otherwise the sequence stays.
  pub remove_value-Represents :
      (vs : List Text)
      → Represents hl vs
      → (hl' : HashList) × (remove_value v hl ≡ some hl') × Represents hl' (without v vs)
  unfolding Represents
  remove_value-Represents vs (cs, i, eq) = elim (Option-cases (address v cs)) [
    | inl absent ↦ (
      hl,
      remove_value_absent (i.index v ∙ absent),
      (
        cs,
        i,
        eq
            ∙ sym (
                without-absent v vs
                  (subst (λ u. elem v u ≡ false) eq (ground (arith, elem-address v cs)))),
      ),
    )
    | inr (p, found) ↦
        let (xs, ys, split, out) = address-split v p cs found in
        let i' = subst (IsHashList hl) split i in
        let (h, ran, c) = removed_links p xs ys i' in
        (
          _,
          ran,
          (
            xs ++ ys,
            removed-IsHashList p xs ys i' h c,
            removed_values p xs ys i' ∙ ap (without v) (ap values (sym split) ∙ eq),
          ),
        )
  ]
