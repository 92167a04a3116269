-- ===== src/Store/Timers/Matched.antt =====
-- The leases of a storage server (contrib/storageimpl/storageimpl.go) beside the timers that run: each
-- lease has its own timer and each timer its lease.
use airline_booking.Prelude.{
  ℕ, ◌+◌, ◌<◌, ◌≡◌, refl, sym, ◌∙◌, true, ◌&&◌, Option, none, some, arith, if◌then◌else◌, ◌==◌,
  nat_eq, Text, text_eq,
}
use airline_booking.Prelude.Assoc.{Assoc, lookup, insert, delete, lookup-insert, lookup-delete}
use airline_booking.Store.Timers.{Timer}

-- Whose lease the timer with this channel ends.
unfoldable pub owner : ℕ → Assoc ℕ Timer → Option (Text × Text)
owner n ts = elim (lookup n ts) [ none ↦ none | some t ↦ some (t.key, t.client) ]

-- Who holds a lease of a key, with the channel of its timer.
abbrev pub Leases : Type 0
Leases = Text → Text → Option ℕ

pub record IsMatched (l : Leases) (ts : Assoc ℕ Timer) (channels : ℕ) : Type 0 where
  pub timed : (k c : Text) (n : ℕ) → l k c ≡ some n → owner n ts ≡ some (k, c)
  pub leased : (k c : Text) (n : ℕ) → owner n ts ≡ some (k, c) → l k c ≡ some n
  pub known : (k c : Text) (n : ℕ) → l k c ≡ some n → n < channels

-- The leases with those of `k` to `c` set to `o`.
abbrev pub set_lease : Text → Text → Option ℕ → Leases → Leases
set_lease k c o l j d = if k == j && c == d then o else l j d

abbrev pub Same : Leases → Leases → Type 0
Same l l' = (j d : Text) → l' j d ≡ l j d

owner-insert :
    (n m : ℕ) (t : Timer) (ts : Assoc ℕ Timer)
    → owner m (insert n t ts) ≡ (if n == m then some (t.key, t.client) else owner m ts)
unfolding owner
owner-insert n m t ts = ground (arith, lookup-insert n m t ts)

owner-delete :
    (n m : ℕ) (ts : Assoc ℕ Timer) → owner m (delete n ts) ≡ (if n == m then none else owner m ts)
unfolding owner
owner-delete n m ts = ground (arith, lookup-delete n m ts)

pub IsMatched-Same :
    (l l' : Leases) (ts : Assoc ℕ Timer) (channels : ℕ)
    → Same l l'
    → IsMatched l ts channels
    → IsMatched l' ts channels
IsMatched-Same l l' ts channels e m = record {
  timed = λ k c n h. m.timed k c n (sym (e k c) ∙ h);
  leased = λ k c n h. e k c ∙ m.leased k c n h;
  known = λ k c n h. m.known k c n (sym (e k c) ∙ h);
}

-- A new lease starts a timer.
pub IsMatched-insert :
    (l : Leases) (ts : Assoc ℕ Timer) (channels : ℕ) (t : Timer)
    → l t.key t.client ≡ none
    → IsMatched l ts channels
    → IsMatched (set_lease t.key t.client (some channels) l) (insert channels t ts) (channels + 1)
IsMatched-insert l ts channels t free m = record {
  timed = λ k c n h. ground (
    arith,
    owner-insert channels n t ts,
    m.timed k c n,
    m.known k c n,
    text_eq.beq_iff t.key k,
    text_eq.beq_iff t.client c,
  );
  leased = λ k c n h. ground (
    arith,
    owner-insert channels n t ts,
    m.leased k c n,
    m.known k c n,
    text_eq.beq_iff t.key k,
    text_eq.beq_iff t.client c,
  );
  known = λ k c n h. ground (arith, m.known k c n);
}

-- The end of a lease and of its timer.
pub IsMatched-delete :
    (l : Leases) (ts : Assoc ℕ Timer) (channels : ℕ) (k c : Text) (n : ℕ)
    → l k c ≡ some n
    → IsMatched l ts channels
    → IsMatched (set_lease k c none l) (delete n ts) channels
IsMatched-delete l ts channels k c n had m = record {
  timed = λ j d i h. ground (
    arith,
    owner-delete n i ts,
    m.timed j d i,
    m.leased k c i,
    m.timed k c n,
    text_eq.beq_iff k j,
    text_eq.beq_iff c d,
  );
  leased = λ j d i h.
      ground (arith, owner-delete n i ts, m.leased j d i, text_eq.beq_iff k j, text_eq.beq_iff c d);
  known = λ j d i h. ground (arith, m.known j d i);
}

-- A timer that runs down keeps its owner.
pub IsMatched-due :
    (l : Leases) (ts : Assoc ℕ Timer) (channels n : ℕ) (t : Timer)
    → lookup n ts ≡ some t
    → IsMatched l ts channels
    → IsMatched l (insert n (record t { due = true }) ts) channels
unfolding owner
IsMatched-due l ts channels n t found m = record {
  timed = λ k c i h. same i ∙ m.timed k c i h;
  leased = λ k c i h. m.leased k c i (sym (same i) ∙ h);
  known = m.known;
}
  where
    due : Timer
    due = record t { due = true }

    here : owner n ts ≡ some (t.key, t.client)
    here = rw (owner, found) refl

    same : (i : ℕ) → owner i (insert n due ts) ≡ owner i ts
    same i = ground (arith, owner-insert n i due ts, here)
