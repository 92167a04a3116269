-- ===== src/Paxos/Node/Log.antt =====
-- contrib/libpaxos: the log of a replica, as its learner holds it.
use mathlib.Core.Path.{ap₂}
use mathlib.Core.List.{append_assoc, append-nil}
use native.Mathlib.Decide.{ℕ_discrete}
use airline_booking.Paxos.Node.{value_of}
use airline_booking.Paxos.Wire.{get_from_modified_value}
use airline_booking.Prelude.{
  ℕ, zero, suc, ◌+◌, ◌≤◌, ◌<◌, ◌≡◌, refl, sym, ap, subst, ◌∙◌, inl, inr, true, false, ◌||◌, Option,
  none, some, List, [], ◌∷◌, ◌++◌, arith, if◌then◌else◌, nat_eq, Bool-cases, elem, Distinct, Text,
  text_beq, text_beq_iff, text_eq,
}
use airline_booking.Prelude.Assoc.{Assoc, lookup, keys, keys-insert-Distinct, lookup-not_key}
use airline_booking.Paxos.Types.{Packet}
use airline_booking.Paxos.Learner.{
  Learner, LearnerProtocol, protocol, operate, committed_of, get_history,
}
use airline_booking.Paxos.Learner.Stable.{outcome}

abbrev pub IsUnique : Learner → Type 0
IsUnique l = Distinct (keys l.proto)

pub operate-IsUnique : (l : Learner) (p : Packet) → IsUnique l → IsUnique (operate l p).0
unfolding operate
operate-IsUnique l p d = keys-insert-Distinct p.packet_msg.slot (outcome l p).0 l.proto d

abbrev pub committed_value : LearnerProtocol → Option Text
committed_value e = if e.committed then some e.value else none

abbrev committed_entry : Option LearnerProtocol → Option Text
committed_entry none = none
committed_entry (some e) = committed_value e

lookup-committed_of :
    (i : ℕ) (m : Assoc ℕ LearnerProtocol)
    → Distinct (keys m)
    → lookup i (committed_of m) ≡ committed_entry (lookup i m)
unfolding lookup committed_of
lookup-committed_of i [] d = refl
lookup-committed_of i ((j, e) ∷ m) d =
    ground (arith, lookup-committed_of i m d.1, lookup-not_key i m)

-- The history holds the committed instances, each with its value, and nothing else.
pub lookup-get_history :
    (l : Learner) (i : ℕ) → IsUnique l → lookup i (get_history l) ≡ committed_value (protocol l i)
unfolding get_history protocol
lookup-get_history l i d = ground (arith, lookup-committed_of i l.proto d)

-- The value of an instance, "" where none is committed.
abbrev pub value_at : Learner → ℕ → Text
value_at l i = value_of (committed_value (protocol l i))

-- The values of the instances 1, …, n.
unfoldable pub entries : Learner → ℕ → List Text
entries l zero = []
entries l (suc n) = entries l n ++ value_at l (suc n) ∷ []

-- The instances 1, …, n are committed.
abbrev pub IsComplete : Learner → ℕ → Type 0
IsComplete l n = (i : ℕ) → 0 < i → i ≤ n → (protocol l i).committed ≡ true

pub entries-suc : (l : Learner) (n : ℕ) → entries l (suc n) ≡ entries l n ++ value_at l (suc n) ∷ []
unfolding entries
entries-suc l n = refl

pub entries-zero : (l : Learner) → entries l 0 ≡ []
unfolding entries
entries-zero l = refl

pub entries-append :
    (l : Learner) (m k : ℕ) → (ys : List Text) × (entries l (k + m) ≡ entries l m ++ ys)
entries-append l m zero = ([], ap (entries l) (omega arith) ∙ sym (append-nil (entries l m)))
entries-append l m (suc k) =
    let (ys, e) = entries-append l m k in
    let v = value_at l (suc (k + m)) in
    (
      ys ++ v ∷ [],
      ap (entries l) (omega arith)
          ∙ entries-suc l (k + m)
          ∙ ap (λ xs. xs ++ v ∷ []) e
          ∙ append_assoc (entries l m) ys (v ∷ []),
    )

-- Learners that agree on the instances 1, …, n have the same entries there.
pub entries_agree :
    (l m : Learner) (n : ℕ)
    → ((i : ℕ) → 0 < i → i ≤ n → value_at l i ≡ value_at m i)
    → entries l n ≡ entries m n
unfolding entries
entries_agree l m zero h = refl
entries_agree l m (suc n) h =
    ap₂ (λ xs v. xs ++ v ∷ []) (entries_agree l m n (λ i pos le. h i pos (omega arith)))
      (h (suc n) (omega arith) (omega arith))

-- The values in the order of their first occurrences, less those of `seen`.
unfoldable pub fresh : List Text → List Text → List Text
fresh seen [] = []
fresh seen (v ∷ vs) = elim (elem v seen) [ true ↦ fresh seen vs | false ↦ v ∷ fresh (v ∷ seen) vs ]

pub fresh-snoc :
    (seen vs : List Text) (v : Text)
    → fresh seen (vs ++ v ∷ [])
      ≡ (if elem v seen || elem v vs then fresh seen vs else fresh seen vs ++ v ∷ [])
unfolding fresh
fresh-snoc seen [] v = ground arith
fresh-snoc seen (w ∷ vs) v =
    ground (arith, text_beq_iff w v, fresh-snoc seen vs v, fresh-snoc (w ∷ seen) vs v)

fresh_old :
    (seen : List Text) (v : Text) (vs : List Text)
    → elem v seen ≡ true
    → fresh seen (v ∷ vs) ≡ fresh seen vs
unfolding fresh
fresh_old seen v vs h = rw (h, fresh)

fresh_new :
    (seen : List Text) (v : Text) (vs : List Text)
    → elem v seen ≡ false
    → fresh seen (v ∷ vs) ≡ v ∷ fresh (v ∷ seen) vs
unfolding fresh
fresh_new seen v vs h = rw (h, fresh)

pub fresh-append :
    (seen xs ys : List Text)
    → (later : List Text) × (fresh seen (xs ++ ys) ≡ fresh seen xs ++ later)
unfolding fresh
fresh-append seen [] ys = (fresh seen ys, refl)
fresh-append seen (x ∷ xs) ys = elim (Bool-cases (elem x seen)) [
  | inl old ↦
      let (later, e) = fresh-append seen xs ys in
      (
        later,
        fresh_old seen x (xs ++ ys) old ∙ e ∙ ap (λ l. l ++ later) (sym (fresh_old seen x xs old)),
      )
  | inr new ↦
      let (later, e) = fresh-append (x ∷ seen) xs ys in
      (
        later,
        fresh_new seen x (xs ++ ys) new
            ∙ ap (◌∷◌ x) e
            ∙ ap (λ l. l ++ later) (sym (fresh_new seen x xs new)),
      )
]

elem-fresh_seen :
    (v : Text) (seen vs : List Text) → elem v seen ≡ true → elem v (fresh seen vs) ≡ false
elem-fresh_seen v seen [] h = unfold fresh in refl
elem-fresh_seen v seen (w ∷ vs) h = elim (Bool-cases (elem w seen)) [
  | inl old ↦ ap (elem v) (fresh_old seen w vs old) ∙ elem-fresh_seen v seen vs h
  | inr new ↦
      ap (elem v) (fresh_new seen w vs new)
      ∙ ground (arith, text_beq_iff w v, elem-fresh_seen v (w ∷ seen) vs)
]

-- No value is among the first occurrences twice.
pub fresh-Distinct : (seen vs : List Text) → Distinct (fresh seen vs)
fresh-Distinct seen [] = unfold fresh in tt
fresh-Distinct seen (v ∷ vs) = elim (Bool-cases (elem v seen)) [
  | inl old ↦ subst Distinct (sym (fresh_old seen v vs old)) (fresh-Distinct seen vs)
  | inr new ↦ subst Distinct (sym (fresh_new seen v vs new)) (
    elem-fresh_seen v (v ∷ seen) vs (ground (arith, text_beq_iff v v)),
    fresh-Distinct (v ∷ seen) vs,
  )
]

-- The commands of tagged values.
unfoldable pub commands : List Text → List Text
commands [] = []
commands (v ∷ vs) = elim (get_from_modified_value v) [
  | none ↦ commands vs
  | some cmd ↦ cmd ∷ commands vs
]

pub commands-append : (xs ys : List Text) → commands (xs ++ ys) ≡ commands xs ++ commands ys
unfolding commands
commands-append [] ys = refl
commands-append (x ∷ xs) ys = ground (arith, commands-append xs ys)

pub commands-one :
    (v cmd : Text) → get_from_modified_value v ≡ some cmd → commands (v ∷ []) ≡ cmd ∷ []
unfolding commands
commands-one v cmd h = rw (h, commands)

pub elem-snoc : (w v : Text) (xs : List Text) → elem w (xs ++ v ∷ []) ≡ (elem w xs || text_beq v w)
elem-snoc w v [] = ground arith
elem-snoc w v (x ∷ xs) = ground (arith, elem-snoc w v xs)

-- "" has no tag, so an instance whose value has one is committed.
pub committed_of_tagged :
    (l : Learner) (i : ℕ) (cmd : Text)
    → get_from_modified_value (value_at l i) ≡ some cmd
    → (protocol l i).committed ≡ true
unfolding get_from_modified_value value_of
committed_of_tagged l i cmd h = ground arith

pub IsComplete-suc :
    (l : Learner) (n : ℕ)
    → IsComplete l n
    → (protocol l (suc n)).committed ≡ true
    → IsComplete l (suc n)
IsComplete-suc l n c h i pos le = elim (ℕ_discrete i (suc n)) [
  | yes e ↦ rw e h
  | no ne ↦ c i pos (omega arith)
]
