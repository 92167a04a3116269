-- ===== src/Store/HashList/Refinement.antt =====
-- contrib/storageimpl/hashlist.go against its abstract view, a sequence of different strings in the
-- order of insertion.
use airline_booking.Prelude.{
  ◌+◌, ◌≤◌, ◌≡◌, refl, sym, ap, subst, ◌∙◌, inl, inr, true, false, some, List, [], ◌∷◌, ◌++◌, arith,
  ◌==◌, nat_eq, Bool-cases, beq_self, length, length-append, elem, Distinct, Text, text_eq,
}
use airline_booking.Prelude.Assoc.{lookup, lookup-insert}
use airline_booking.Store.HashList.{
  Ptr, nil, Cells, HashList, new_hash_list, link_new, exist, list_values, collect, insert_value,
  write, element, Element, load, set_next, set_before,
}
use airline_booking.Store.HashList.Chain.{
  Items, first, last, has, values, Apart, Chain, done, has-append, values-append, last-append,
  Apart-append, collect-Chain, link, Chain-write, Chain-append, set_next-last,
}
use airline_booking.Store.HashList.Sequence.{address, elem-address, address-snoc, Distinct-snoc}

-- The elements, the links, the index and the count describe the same sequence.
pub record IsHashList (hl : HashList) (cs : Items) : Type 0 where
  pub head : hl.head ≡ first cs nil
  pub tail : hl.tail ≡ last nil cs
  pub cnt : hl.cnt ≡ length cs
  pub chain : Chain hl.cells nil nil cs
  pub apart : Apart cs
  pub below : (a : Ptr) → has a cs ≡ true → a ≤ hl.allocated
  pub index : (v : Text) → lookup v hl.list_map ≡ address v cs
  pub distinct : Distinct (values cs)

-- The list stands for the values `vs`.
unfoldable pub Represents : HashList → List Text → Type 0
Represents hl vs = (cs : Items) × IsHashList hl cs × (values cs ≡ vs)

-- A list of different values has no value twice.
pub Represents-Distinct : (hl : HashList) (vs : List Text) → Represents hl vs → Distinct vs
unfolding Represents
Represents-Distinct hl vs (cs, i, eq) = subst Distinct eq i.distinct

-- A new list stands for no values.
pub new-Represents : Represents new_hash_list []
unfolding Represents new_hash_list lookup
new-Represents = (
  [],
  record {
    head = refl;
    tail = refl;
    cnt = refl;
    chain = done;
    apart = tt;
    below = λ a i. cc;
    index = λ v. refl;
    distinct = tt;
  },
  refl,
)

pub exist-elem :
    (v : Text) (hl : HashList) (vs : List Text) → Represents hl vs → exist v hl ≡ elem v vs
unfolding Represents exist
exist-elem v hl vs (cs, i, eq) =
    subst (λ u. exist v hl ≡ elem v u) eq (ground (arith, i.index v, elem-address v cs))

pub list-values : (hl : HashList) (vs : List Text) → Represents hl vs → list_values hl ≡ some vs
unfolding Represents list_values
list-values hl vs (cs, i, eq) =
    ap (λ p. collect hl.cnt p hl.cells) i.head
    ∙ collect-Chain cs hl.cnt i.apart i.chain i.cnt
    ∙ ap some eq

module _ (v : Text) (hl : HashList) where
  -- What the new element makes of a list whose links are already in place.
  link_new-IsHashList :
      (cs : Items) (h : Cells)
      → IsHashList hl cs
      → elem v (values cs) ≡ false
      → Chain h nil nil (cs ++ (hl.allocated + 1, v) ∷ [])
      → IsHashList
          (link_new v (hl.allocated + 1) (first (cs ++ (hl.allocated + 1, v) ∷ []) nil) h hl)
          (cs ++ (hl.allocated + 1, v) ∷ [])
  unfolding link_new
  link_new-IsHashList cs h i new c = record {
    head = refl;
    tail = sym (last-append nil cs ((hl.allocated + 1, v) ∷ []));
    cnt = ground (arith, i.cnt, length-append cs ((hl.allocated + 1, v) ∷ []));
    chain = c;
    apart = Apart-append cs _ i.apart (ground arith, refl, tt) (λ a m. ground (arith, i.below a m));
    below = λ a m. ground (arith, i.below a, has-append a cs ((hl.allocated + 1, v) ∷ []));
    index = λ w. ground (
      arith,
      lookup-insert v w (hl.allocated + 1) hl.list_map,
      i.index w,
      address-snoc v w (hl.allocated + 1) cs new,
    );
    distinct =
        rw (values-append cs ((hl.allocated + 1, v) ∷ []))
          (Distinct-snoc v (values cs) i.distinct new);
  }

  -- The address of the next element is neither nil nor in use.
  fresh_lem : (cs : Items) → IsHashList hl cs → (has (hl.allocated + 1) cs ≡ false)
  fresh_lem cs i = elim (Bool-cases (has (hl.allocated + 1) cs)) [
    | inl m ↦ absurd (omega (arith, i.below _ m))
    | inr o ↦ o
  ]

  -- Insert into a list that has elements.
  insert_value_nonempty :
      (g g' : Cells)
      → (hl.head == nil) ≡ false
      → set_next hl.tail (hl.allocated + 1) (write hl.cells (hl.allocated + 1) (element v nil nil))
        ≡ some g
      → set_before (hl.allocated + 1) hl.tail g ≡ some g'
      → insert_value v hl ≡ some (link_new v (hl.allocated + 1) hl.head g' hl)
  unfolding insert_value
  insert_value_nonempty g g' n wrote back = rw (n, wrote, back) refl

  set_before_at :
      (p q : Ptr) (g : Cells) (e : Element)
      → (p == nil) ≡ false
      → g p ≡ some e
      → set_before p q g ≡ some (write g p (record e { before = q }))
  unfolding set_before load
  set_before_at p q g e n at = ground arith

  -- The links after Insert.
  insert_links :
      (cs : Items)
      → IsHashList hl cs
      → (h : Cells) × (insert_value v hl
          ≡ some
              (link_new v (hl.allocated + 1) (first (cs ++ (hl.allocated + 1, v) ∷ []) nil) h hl))
        × Chain h nil nil (cs ++ (hl.allocated + 1, v) ∷ [])
  unfolding insert_value write
  insert_links [] i = (
    write hl.cells (hl.allocated + 1) (element v nil nil),
    ground (arith, i.head),
    link (ground arith) done,
  )
  insert_links (c ∷ cs) i =
      let fresh = hl.allocated + 1 in
      let out = fresh_lem (c ∷ cs) i in
      let start = Chain-write fresh (element v nil nil) i.chain out in
      let (g, wrote, chain, same) = set_next-last fresh c cs i.apart start in
      let here : g fresh ≡ some (element v nil nil) =
        same fresh out ∙ ground (arith, beq_self fresh) in
      let wrote' : set_next hl.tail fresh (write hl.cells fresh (element v nil nil)) ≡ some g =
        subst (λ t. set_next t fresh (write hl.cells fresh (element v nil nil)) ≡ some g)
          (sym i.tail) wrote in
      let g' = write g fresh (element v nil hl.tail) in
      let back : set_before fresh hl.tail g ≡ some g' =
        set_before_at fresh hl.tail g (element v nil nil) (ground arith) here in
      let n : (hl.head == nil) ≡ false = ground (arith, i.head, i.apart.0) in
      (
        g',
        insert_value_nonempty g g' n wrote' back ∙ ap (λ q. some (link_new v fresh q g' hl)) i.head,
        Chain-append (c ∷ cs) _ (Chain-write fresh _ chain out)
            (link (ground (arith, beq_self fresh, i.tail)) done),
      )

  -- On a list that stands for a sequence, Insert of a value that the sequence lacks returns, and puts
  -- it at the end.
  pub insert_value-Represents :
      (vs : List Text)
      → Represents hl vs
      → elem v vs ≡ false
      → (hl' : HashList) × (insert_value v hl ≡ some hl') × Represents hl' (vs ++ v ∷ [])
  unfolding Represents
  insert_value-Represents vs (cs, i, eq) new =
      let out : elem v (values cs) ≡ false = subst (λ u. elem v u ≡ false) (sym eq) new in
      let (h, ran, links) = insert_links cs i in
      (
        _,
        ran,
        (
          cs ++ (hl.allocated + 1, v) ∷ [],
          link_new-IsHashList cs h i out links,
          values-append cs ((hl.allocated + 1, v) ∷ []) ∙ ap (λ u. u ++ v ∷ []) eq,
        ),
      )
