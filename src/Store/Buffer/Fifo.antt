-- ===== src/Store/Buffer/Fifo.antt =====
-- contrib/storageimpl/bufi.go against its abstract view, a queue: what is inserted last is removed
-- last.
use airline_booking.Prelude.{
  ℕ, ◌+◌, ◌≤◌, ◌<◌, ◌≡◌, refl, sym, ap, subst, ◌∙◌, false, some, List, [], ◌∷◌, ◌++◌, arith, leb,
  if◌then◌else◌, ◌==◌, nat_eq, beq_self, length, text_eq,
}
use airline_booking.Store.Buffer.{
  Ptr, nil, BufEle, Cells, write, load, Buf, new_buf, insert_last, remove_first, empty, flush,
}

module _ {A : Type 0} where
  abbrev pub first : List (Ptr × A) → Ptr → Ptr
  first [] stop = stop
  first ((p, v) ∷ cs) stop = p

  abbrev pub last : Ptr → List (Ptr × A) → Ptr
  last prev [] = prev
  last prev ((p, v) ∷ cs) = last p cs

  abbrev pub values : List (Ptr × A) → List A
  values [] = []
  values ((p, v) ∷ cs) = v ∷ values cs

  -- The addresses lie above `low`, each above the one before it.
  abbrev pub Rising : ℕ → List (Ptr × A) → Type 0
  Rising low [] = Unit {0}
  Rising low ((p, v) ∷ cs) = (low < p) × Rising p cs

  -- The links run through the elements `cs` to the one at `stop`.
  abbrev pub Linked : Cells A → List (Ptr × A) → Ptr → Type 0
  Linked h [] stop = Unit {0}
  Linked h ((p, v) ∷ cs) stop =
      (h p ≡ some (record { val = v; next = first cs stop })) × Linked h cs stop

-- The elements, in the order of their insertion.
pub record IsBuf {A : Type 0} (b : Buf A) (cs : List (Ptr × A)) : Type 0 where
  pub head : b.head ≡ first cs nil
  pub tail : b.tail ≡ last nil cs
  pub linked : Linked b.cells cs nil
  pub rising : Rising 0 cs
  pub newest : last 0 cs ≤ b.allocated

-- The buffer holds the values `xs`, the oldest first.
unfoldable pub Holds : {A : Type 0} → Buf A → List A → Type 0
Holds {A} b xs = (cs : List (Ptr × A)) × IsBuf b cs × (values cs ≡ xs)

module _ {A : Type 0} where
  last-Rising : (low : ℕ) (cs : List (Ptr × A)) → Rising low cs → low + length cs ≤ last low cs
  last-Rising low [] r = omega arith
  last-Rising low ((p, v) ∷ cs) (l, r) = omega (arith, last-Rising p cs r)

  Linked-write :
      (h : Cells A) (low p : Ptr) (e : BufEle A) (cs : List (Ptr × A)) (stop : Ptr)
      → p ≤ low
      → Rising low cs
      → Linked h cs stop
      → Linked (write h p e) cs stop
  unfolding write
  Linked-write h low p e [] stop b r l = tt
  Linked-write h low p e ((q, v) ∷ cs) stop b (lt, r) (at, l) =
      (ground (arith, at), Linked-write h q p e cs stop (omega arith) r l)

  -- A new element above all others.
  Linked-fresh :
      (h : Cells A) (low p : Ptr) (e : BufEle A) (cs : List (Ptr × A)) (stop : Ptr)
      → Rising low cs
      → last low cs < p
      → Linked h cs stop
      → Linked (write h p e) cs stop
  unfolding write
  Linked-fresh h low p e [] stop r b l = tt
  Linked-fresh h low p e ((q, v) ∷ cs) stop (lt, r) b (at, l) =
      (ground (arith, at, last-Rising q cs r), Linked-fresh h q p e cs stop r b l)

  Rising-snoc :
      (low p : ℕ) (v : A) (cs : List (Ptr × A))
      → Rising low cs
      → last low cs < p
      → Rising low (cs ++ (p, v) ∷ [])
  Rising-snoc low p v [] r b = (b, tt)
  Rising-snoc low p v ((q, w) ∷ cs) (l, r) b = (l, Rising-snoc q p v cs r b)

  last-snoc : (low p : ℕ) (v : A) (cs : List (Ptr × A)) → last low (cs ++ (p, v) ∷ []) ≡ p
  last-snoc low p v [] = refl
  last-snoc low p v ((q, w) ∷ cs) = last-snoc q p v cs

  values-snoc :
      (p : ℕ) (v : A) (cs : List (Ptr × A)) → values (cs ++ (p, v) ∷ []) ≡ values cs ++ v ∷ []
  values-snoc p v [] = refl
  values-snoc p v ((q, w) ∷ cs) = rw (values-snoc p v cs) refl

  length-values : (cs : List (Ptr × A)) → length (values cs) ≡ length cs
  length-values [] = refl
  length-values (c ∷ cs) = ground (arith, length-values cs)

  write-here : (h : Cells A) (p : Ptr) (e : BufEle A) → write h p e p ≡ some e
  unfolding write
  write-here h p e = rw (beq_self p) refl

  -- The last element, with its link sent to a new one.
  Linked-snoc :
      (h : Cells A) (low p : ℕ) (v : A) (c : Ptr × A) (cs : List (Ptr × A))
      → Rising low (c ∷ cs)
      → last low (c ∷ cs) < p
      → Linked h (c ∷ cs) nil
      → h p ≡ some (record { val = v; next = nil })
      → (e : BufEle A) × (load (last low (c ∷ cs)) h ≡ some e)
        × Linked (write h (last low (c ∷ cs)) (record e { next = p })) ((c ∷ cs) ++ (p, v) ∷ []) nil
  unfolding write load
  Linked-snoc h low p v (q, w) [] (l, r) b (at, k) new = (
    record { val = w; next = nil },
    ground (arith, at),
    (ground arith, (ground (arith, new), tt)),
  )
  Linked-snoc h low p v (q, w) (d ∷ cs) (l, r) b (at, k) new =
      let (e, got, linked) = Linked-snoc h q p v d cs r b k new in
      (e, got, (ground (arith, at, last-Rising q (d ∷ cs) r), linked))

  pub flush-Holds : (b : Buf A) → Holds (flush b) []
  unfolding Holds flush
  flush-Holds b = (
    [],
    record { head = refl; tail = refl; linked = tt; rising = tt; newest = omega arith },
    refl,
  )

  -- Insert puts a value behind the others.
  pub insert_last-Holds :
      (v : A) (b : Buf A) (xs : List A)
      → Holds b xs
      → (b' : Buf A) × (insert_last v b ≡ some b') × Holds b' (xs ++ v ∷ [])
  unfolding Holds insert_last
  insert_last-Holds v b xs ([], i, eq) =
      let p = b.allocated + 1 in
      let h = write b.cells p (record { val = v; next = nil }) in
      (
        record { head = p; tail = p; cells = h; allocated = p },
        ground (arith, i.head),
        (
          (p, v) ∷ [],
          record {
            head = refl;
            tail = refl;
            linked = (write-here b.cells p _, tt);
            rising = (omega arith, tt);
            newest = omega arith;
          },
          ap (λ u. u ++ v ∷ []) eq,
        ),
      )
  insert_last-Holds v b xs (c ∷ cs, i, eq) =
      let p = b.allocated + 1 in
      let h = write b.cells p (record { val = v; next = nil }) in
      let below : last 0 (c ∷ cs) < p = omega (arith, i.newest) in
      let (e, got, linked) =
        Linked-snoc h 0 p v c cs i.rising below
          (Linked-fresh b.cells 0 p _ (c ∷ cs) nil i.rising below i.linked)
          (write-here b.cells p _) in
      let got' : load b.tail h ≡ some e = subst (λ q. load q h ≡ some e) (sym i.tail) got in
      let nonempty : (b.head == nil) ≡ false = ground (arith, i.head, i.rising.0) in
      let b' : Buf A = record {
        head = b.head;
        tail = p;
        cells = write h b.tail (record e { next = p });
        allocated = p;
      } in
      let ran : insert_last v b ≡ some b' = rw (nonempty, got') refl in
      (
        b',
        ran,
        (
          (c ∷ cs) ++ (p, v) ∷ [],
          record {
            head = i.head;
            tail = sym (last-snoc 0 p v (c ∷ cs));
            linked =
                subst
                  (λ q. Linked (write h q (record e { next = p })) ((c ∷ cs) ++ (p, v) ∷ []) nil)
                  (sym i.tail) linked;
            rising = Rising-snoc 0 p v (c ∷ cs) i.rising below;
            newest = omega (arith, last-snoc 0 p v (c ∷ cs));
          },
          values-snoc p v (c ∷ cs) ∙ ap (λ u. u ++ v ∷ []) eq,
        ),
      )

  Rising-mono : (low high : ℕ) (cs : List (Ptr × A)) → low ≤ high → Rising high cs → Rising low cs
  Rising-mono low high [] b r = tt
  Rising-mono low high (c ∷ cs) b (l, r) = (omega arith, r)

  last_mono : (low high : ℕ) (cs : List (Ptr × A)) → low ≤ high → last low cs ≤ last high cs
  last_mono low high [] b = b
  last_mono low high (c ∷ cs) b = omega arith

  -- The pointer to the end after the first of the elements has left.
  tail_after :
      (b : Buf A) (p : Ptr) (cs : List (Ptr × A))
      → b.head ≡ p
      → b.tail ≡ last p cs
      → Rising p cs
      → (if b.head == b.tail then nil else b.tail) ≡ last nil cs
  tail_after b p [] h t r = ground arith
  tail_after b p (c ∷ cs) h t (l, r) = ground (arith, last-Rising c.0 cs r)

  -- On a buffer that holds a sequence of at least one value, Remove returns the oldest one and leaves
  -- the buffer with the others in their order.
  pub remove_first-Holds :
      (v : A) (b : Buf A) (xs : List A)
      → Holds b (v ∷ xs)
      → (b' : Buf A) × (remove_first b ≡ some (some v, b')) × Holds b' xs
  unfolding Holds remove_first load
  remove_first-Holds v b xs ([], i, eq) = cc
  remove_first-Holds v b xs ((p, w) ∷ cs, i, eq) =
      let same : w ≡ v = cc in
      let rest : values cs ≡ xs = cc in
      let nonempty : (b.head == nil) ≡ false = ground (arith, i.head, i.rising.0) in
      let got : b.cells b.head ≡ some (record { val = w; next = first cs nil }) =
        subst (λ q. b.cells q ≡ some (record { val = w; next = first cs nil })) (sym i.head)
          i.linked.0 in
      let b' : Buf A = record b {
        head = first cs nil;
        tail = if b.head == b.tail then nil else b.tail;
      } in
      let ran : remove_first b ≡ some (some v, b') =
        rw (nonempty, got) (ap (λ u. some (some u, b')) same) in
      (
        b',
        ran,
        (
          cs,
          record {
            head = refl;
            tail = tail_after b p cs i.head i.tail i.rising.1;
            linked = i.linked.1;
            rising = Rising-mono 0 p cs (omega (arith, i.rising.0)) i.rising.1;
            newest = ground (arith, i.newest, last_mono 0 p cs (omega (arith, i.rising.0)));
          },
          rest,
        ),
      )

  pub empty-Holds : (b : Buf A) (xs : List A) → Holds b xs → empty b ≡ leb (length xs) 0
  unfolding Holds empty
  empty-Holds b xs ([], i, eq) = subst (λ u. empty b ≡ leb (length u) 0) eq (ground (arith, i.head))
  empty-Holds b xs (c ∷ cs, i, eq) =
      subst (λ u. empty b ≡ leb (length u) 0) eq (ground (arith, i.head, i.rising.0))

  -- A buffer has no more elements than were ever allocated.
  pub length_bound : (b : Buf A) (xs : List A) → Holds b xs → length xs ≤ b.allocated
  unfolding Holds
  length_bound b xs (cs, i, eq) =
      subst (λ u. length u ≤ b.allocated) eq
        (omega (arith, last-Rising 0 cs i.rising, i.newest, length-values cs))

-- A new buffer holds nothing.
pub new-Holds : (A : Type 0) → Holds {A = A} new_buf []
unfolding Holds new_buf
new-Holds A =
    ([], record { head = refl; tail = refl; linked = tt; rising = tt; newest = omega arith }, refl)
