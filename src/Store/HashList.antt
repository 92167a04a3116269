-- ===== src/Store/HashList.antt =====
-- contrib/storageimpl/hashlist.go: the doubly linked list with an index that holds the strings of
-- one list value. The elements of a list are reachable from it alone, so each list carries its part
-- of the heap: `cells` gives the element at an address, 0 is nil, and `allocated` is the address of
-- the newest element. A dereference of nil is a panic, `none`.
pub mod Chain
pub mod Sequence
pub mod Removal
pub mod Refinement
use airline_booking.Prelude.{
  ℕ, zero, suc, ◌+◌, ◌-◌, ◌*◌, ◌/◌, ◌%◌, ◌≤◌, ◌<◌, ◌≡◌, refl, sym, ap, subst, ◌∙◌, ◌≢◌, ◌↔◌, ◌⊎◌,
  inl, inr, Bool, true, false, not, ◌&&◌, ◌||◌, Option, none, some, List, [], ◌∷◌, ◌++◌, map, arith,
  ltb, leb, nat_beq, if◌then◌else◌, ltb→lt, leb→le, nat_beq_iff, Eq, ◌==◌, nat_eq, Bool-cases,
  Option-cases, beq_self, beq_ne, length, get_elem?, length-append, All, All-append, All-mono, Any,
  Any-append_left, Any-append_right, elem, Distinct, Text, codes, text_beq, text_beq_iff, text_eq,
}
use airline_booking.Prelude.Assoc.{
  Assoc, lookup, insert, delete, lookup-insert, lookup-delete, length-insert_new, elem-missing,
  keys, keys-insert-Distinct, lookup-not_key, All-insert,
}

abbrev pub Ptr : Type 0
Ptr = ℕ

abbrev pub nil : Ptr
nil = 0

-- HlEle
pub record Element : Type 0 where
  pub val : Text
  pub next : Ptr
  pub before : Ptr

abbrev pub element : Text → Ptr → Ptr → Element
element v n b = record { val = v; next = n; before = b }

abbrev pub Cells : Type 0
Cells = Ptr → Option Element

unfoldable pub write : Cells → Ptr → Element → Cells
write h p e a = if a == p then some e else h a

pub record HashList : Type 0 where
  pub head : Ptr
  pub tail : Ptr
  pub list_map : Assoc Text Ptr
  pub cnt : ℕ
  pub cells : Cells
  pub allocated : ℕ

unfoldable pub new_hash_list : HashList
new_hash_list = record {
  head = nil;
  tail = nil;
  list_map = [];
  cnt = 0;
  cells = λ p. none;
  allocated = 0;
}

-- *p
unfoldable pub load : Ptr → Cells → Option Element
load p h = if p == nil then none else h p

-- p.next = q
unfoldable pub set_next : Ptr → Ptr → Cells → Option Cells
set_next p q h = elim (load p h) [ none ↦ none | some e ↦ some (write h p (record e { next = q })) ]

-- p.before = q
unfoldable pub set_before : Ptr → Ptr → Cells → Option Cells
set_before p q h = elim (load p h) [
  | none ↦ none
  | some e ↦ some (write h p (record e { before = q }))
]

-- The list with the new element in its cells, as the last element and in the index.
unfoldable pub link_new : Text → Ptr → Ptr → Cells → HashList → HashList
link_new v fresh first h hl = record {
  head = first;
  tail = fresh;
  list_map = insert v fresh hl.list_map;
  cnt = hl.cnt + 1;
  cells = h;
  allocated = fresh;
}

-- Insert; ele.before is nil in the empty list
unfoldable pub insert_value : Text → HashList → Option HashList
insert_value v hl =
    let fresh = hl.allocated + 1 in
    if hl.head == nil
    then some (link_new v fresh fresh (write hl.cells fresh (element v nil nil)) hl)
    else elim (set_next hl.tail fresh (write hl.cells fresh (element v nil nil))) [
      | none ↦ none
      | some h ↦ elim (set_before fresh hl.tail h) [
        | none ↦ none
        | some h' ↦ some (link_new v fresh hl.head h' hl)
      ]
    ]

-- if e.before != nil { e.before.next = e.next }
unfoldable pub bypass_next : Element → Cells → Option Cells
bypass_next e h = if e.before == nil then some h else set_next e.before e.next h

-- if e.next != nil { e.next.before = e.before }
unfoldable pub bypass_before : Element → Cells → Option Cells
bypass_before e h = if e.next == nil then some h else set_before e.next e.before h

unfoldable pub unlink : Text → Ptr → Element → Cells → HashList → HashList
unlink v p e h hl = record {
  head = if hl.head == p then e.next else hl.head;
  tail = if hl.tail == p then e.before else hl.tail;
  list_map = delete v hl.list_map;
  cnt = hl.cnt - 1;
  cells = h;
  allocated = hl.allocated;
}

-- Remove. The element itself is not written (e is none of its neighbours), so its fields are read
-- once.
unfoldable pub remove_value : Text → HashList → Option HashList
remove_value v hl = elim (lookup v hl.list_map) [
  | none ↦ some hl
  | some p ↦ elim (load p hl.cells) [
    | none ↦ none
    | some e ↦ elim (bypass_next e hl.cells) [
      | none ↦ none
      | some h ↦ elim (bypass_before e h) [ none ↦ none | some h' ↦ some (unlink v p e h' hl) ]
    ]
  ]
]

-- Exist
unfoldable pub exist : Text → HashList → Bool
exist v hl = elim (lookup v hl.list_map) [ none ↦ false | some p ↦ true ]

-- The loop of List, from the element at lp.
unfoldable pub collect : ℕ → Ptr → Cells → Option (List Text)
collect zero lp h = some []
collect (suc n) lp h = elim (load lp h) [
  | none ↦ none
  | some e ↦ elim (collect n e.next h) [ none ↦ none | some vs ↦ some (e.val ∷ vs) ]
]

-- List
unfoldable pub list_values : HashList → Option (List Text)
list_values hl = collect hl.cnt hl.head hl.cells
