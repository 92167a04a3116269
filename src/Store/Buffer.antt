-- ===== src/Store/Buffer.antt =====
-- contrib/storageimpl/bufi.go, of which official/bufi/bufi.go is a copy: the unbounded buffer of
-- deferred requests, a singly linked list with a pointer to each end. As with the hash list, the
-- buffer carries the part of the heap that its elements live in: 0 is nil, `allocated` is the
-- address of the newest element, and a dereference of nil is a panic, `none`.
pub mod Fifo
use airline_booking.Prelude.{
  ℕ, zero, suc, ◌+◌, ◌-◌, ◌*◌, ◌/◌, ◌%◌, ◌≤◌, ◌<◌, ◌≡◌, refl, sym, ap, subst, ◌∙◌, ◌≢◌, ◌↔◌, ◌⊎◌,
  inl, inr, Bool, true, false, not, ◌&&◌, ◌||◌, Option, none, some, List, [], ◌∷◌, ◌++◌, map, arith,
  ltb, leb, nat_beq, if◌then◌else◌, ltb→lt, leb→le, nat_beq_iff, Eq, ◌==◌, nat_eq, Bool-cases,
  Option-cases, beq_self, beq_ne, length, get_elem?, length-append, All, All-append, All-mono, Any,
  Any-append_left, Any-append_right, elem, Distinct, Text, codes, text_beq, text_beq_iff, text_eq,
}
use airline_booking.Prelude.Assoc.{
  Assoc, lookup, insert, delete, lookup-insert, lookup-delete, length-insert_new, elem-missing,
  keys, keys-insert-Distinct, lookup-not_key, All-insert,
}

abbrev pub Ptr : Type 0
Ptr = ℕ

abbrev pub nil : Ptr
nil = 0

-- BufEle
pub record BufEle (A : Type 0) : Type 0 where
  pub val : A
  pub next : Ptr

abbrev pub Cells : Type 0 → Type 0
Cells A = Ptr → Option (BufEle A)

module _ {A : Type 0} where
  unfoldable pub write : Cells A → Ptr → BufEle A → Cells A
  write h p e a = if a == p then some e else h a

  -- *p
  unfoldable pub load : Ptr → Cells A → Option (BufEle A)
  load p h = if p == nil then none else h p

pub record Buf (A : Type 0) : Type 0 where
  pub head : Ptr
  pub tail : Ptr
  pub cells : Cells A
  pub allocated : ℕ

unfoldable pub new_buf : {A : Type 0} → Buf A
new_buf = record { head = nil; tail = nil; cells = λ p. none; allocated = 0 }

module _ {A : Type 0} where
  -- Insert
  unfoldable pub insert_last : A → Buf A → Option (Buf A)
  insert_last v b =
      let fresh = b.allocated + 1 in
      let h = write b.cells fresh (record { val = v; next = nil }) in
      if b.head == nil
      then some (record { head = fresh; tail = fresh; cells = h; allocated = fresh })
      else elim (load b.tail h) [
        | none ↦ none
        | some e ↦ some (record {
          head = b.head;
          tail = fresh;
          cells = write h b.tail (record e { next = fresh });
          allocated = fresh;
        })
      ]

  -- Front; the inner Option is the interface value, none is Go's nil
  unfoldable pub front : Buf A → Option (Option A)
  front b =
      if b.head == nil
      then some none
      else elim (load b.head b.cells) [ none ↦ none | some e ↦ some (some e.val) ]

  -- Remove
  unfoldable pub remove_first : Buf A → Option (Option A × Buf A)
  remove_first b = if b.head == nil then some (none, b) else elim (load b.head b.cells) [
    | none ↦ none
    | some e ↦
        some
          (some e.val, record b { head = e.next; tail = if b.head == b.tail then nil else b.tail })
  ]

  -- Empty
  unfoldable pub empty : Buf A → Bool
  empty b = b.head == nil

  -- Flush
  unfoldable pub flush : Buf A → Buf A
  flush b = record b { head = nil; tail = nil }
