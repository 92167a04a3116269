-- ===== src/Store/Timers/Ends.antt =====
-- The steps of appHandler in contrib/storageimpl/storageimpl.go that grant and end leases: they keep
-- the timers and the leases together.
use airline_booking.Prelude.{
  ℕ, ◌≡◌, refl, sym, ap, subst, ◌∙◌, inl, inr, true, false, none, some, List, [], ◌∷◌, arith, ◌==◌,
  nat_eq, Bool-cases, length, Text, text_eq, ◌++◌, Option, Option-cases,
}
use airline_booking.Prelude.Assoc.{
  Assoc, lookup, insert, delete, lookup-delete, lookup-insert_here, lookup-insert_other,
  lookup-delete_here, lookup-delete_other,
}
use airline_booking.Store.Server.{
  ◌>>=◌, Request, Effect, answer, call_cache, start_timer, stop_timer, State, Outcome, end_lease,
  clients_of, bool_reply, revoke, expire, reply_to,
}
use airline_booking.Store.Timers.{Timer, react}
use airline_booking.Store.Timers.Matched.{
  IsMatched, Same, set_lease, IsMatched-Same, owner, Leases, IsMatched-delete,
}
use airline_booking.Store.Timers.Quiet.{
  lease, IsQuiet, Quiet, run_deferred-Quiet, reply_to-Quiet, react-IsQuiet,
}

-- The timers after a step still go with the leases, if the step returns.
unfoldable pub Timely : Assoc ℕ Timer → Outcome → Type 0
Timely ts none = Unit
Timely ts (some (s, es)) =
    (ts' : Assoc ℕ Timer) × (react es ts ≡ some ts') × IsMatched (lease s) ts' s.channels

react_all : (es : List Effect) (ts : Assoc ℕ Timer) → IsQuiet es → react es ts ≡ some ts
unfolding react
react_all [] ts q = refl
react_all (answer c x ∷ es) ts q = react_all es ts q
react_all (call_cache k c ∷ es) ts q = react_all es ts q
react_all (start_timer k c d n ∷ es) ts q = elim q [ ]
react_all (stop_timer n ∷ es) ts q = elim q [ ]

pub Quiet-Timely :
    (s : State) (o : Outcome) (ts : Assoc ℕ Timer)
    → Quiet s o
    → IsMatched (lease s) ts s.channels
    → Timely ts o
unfolding Quiet Timely lease
Quiet-Timely s none ts q m = tt
Quiet-Timely s (some (s', es)) ts (l, c, q) m = (
  ts,
  react_all es ts q,
  subst (λ n. IsMatched (lease s') ts n) (sym c)
      (IsMatched-Same (lease s) (lease s') ts s.channels
        (λ j d. ap (λ m. lookup d (clients_of (lookup j m))) l) m),
)

-- A step that ends the lease of the key to the client and touches no timer.
unfoldable Ends : Text → Text → State → Outcome → Type 0
Ends k c s none = Unit
Ends k c s (some (s', es)) =
    (Same (set_lease k c none (lease s)) (lease s')) × (s'.channels ≡ s.channels) × IsQuiet es

no_keys : (d : Text) (m : Assoc Text ℕ) → (length m == 0) ≡ true → lookup d m ≡ none
unfolding lookup
no_keys d [] e = refl
no_keys d (x ∷ m) e = ground arith

module _ (r : Request) (s : State) (clients : Assoc Text ℕ)
    (had : lookup r.key s.leases ≡ some clients) where
  abbrev rest : Assoc Text ℕ
  rest = delete r.value clients

  -- Whatever the map holds at the key, if it has what `rest` has.
  ended_Same :
      (s' : State)
      → ((d : Text) → lookup d (clients_of (lookup r.key s'.leases)) ≡ lookup d rest)
      → ((j : Text) → (r.key == j) ≡ false → lookup j s'.leases ≡ lookup j s.leases)
      → Same (set_lease r.key r.value none (lease s)) (lease s')
  unfolding lease
  ended_Same s' here others j d = elim (Bool-cases (r.key == j)) [
    | inl e ↦
        let same : r.key ≡ j = (text_eq.beq_iff r.key j).0 e in
        let old : lookup d (clients_of (lookup j s.leases)) ≡ lookup d clients =
          ap (λ o. lookup d (clients_of o)) (ap (λ i. lookup i s.leases) (sym same) ∙ had) in
        let new : lookup d (clients_of (lookup j s'.leases)) ≡ lookup d rest =
          ap (λ i. lookup d (clients_of (lookup i s'.leases))) (sym same) ∙ here d in
        ground (arith, e, old, new, lookup-delete r.value d clients)
    | inr n ↦ rw n (ap (λ o. lookup d (clients_of o)) (others j n))
  ]

  last_Ends :
      (length rest == 0) ≡ true
      → (o : Outcome) → Quiet (record s { leases = delete r.key s.leases }) o
      → Ends r.key r.value s o
  unfolding Ends Quiet lookup
  last_Ends e none q = tt
  last_Ends e (some (s', es)) (l, c, q) = (
    ended_Same s'
        (λ d.
          ap (λ m. lookup d (clients_of (lookup r.key m))) l
          ∙ ap (λ o. lookup d (clients_of o)) (lookup-delete_here r.key s.leases)
          ∙ sym (no_keys d rest e))
        (λ j n. ap (lookup j) l ∙ lookup-delete_other r.key j s.leases n),
    c,
    q,
  )

  more_Ends : Ends r.key r.value s (some (record s { leases = insert r.key rest s.leases }, []))
  unfolding Ends
  more_Ends = (
    ended_Same (record s { leases = insert r.key rest s.leases })
        (λ d. ap (λ o. lookup d (clients_of o)) (lookup-insert_here r.key rest s.leases))
        (λ j n. lookup-insert_other r.key j rest s.leases n),
    refl,
    tt,
  )

  end_lease-Ends : Ends r.key r.value s (end_lease r clients s)
  unfolding end_lease
  end_lease-Ends = elim (Bool-cases (length rest == 0)) [
    | inl e ↦
        rw e
          (last_Ends e _ (run_deferred-Quiet r.key (record s { leases = delete r.key s.leases })))
    | inr n ↦ rw n more_Ends
  ]

-- A lease that nobody has may be taken away.
pub absent_Same : (l : Leases) (k c : Text) → l k c ≡ none → Same (set_lease k c none l) l
absent_Same l k c e j d = ground (arith, e, text_eq.beq_iff k j, text_eq.beq_iff c d)

-- A timer that runs can be stopped.
pub stopped :
    (ts : Assoc ℕ Timer) (n : ℕ) (k c : Text)
    → owner n ts ≡ some (k, c)
    → (es : List Effect) → react (stop_timer n ∷ es) ts ≡ react es (delete n ts)
unfolding react owner
stopped ts n k c o es = elim (Option-cases (lookup n ts)) [
  | inl absent ↦ absurd (nothing (sym (unowned absent) ∙ o))
  | inr (t, found) ↦ rw (react, found) refl
]
  where
    nothing : {A : Type 0} {x : A} → ¬ (none ≡ some x)
    nothing e = cc

    unowned : lookup n ts ≡ none → owner n ts ≡ none
    unowned e = rw (owner, e) refl

module _ (r : Request) (s : State) (ts : Assoc ℕ Timer) where
  abbrev last : List Effect
  last = answer r.replyc (bool_reply true) ∷ []

  finish-Timely :
      (before : List Effect) (ts' : Assoc ℕ Timer) (o : Outcome)
      → ((es : List Effect) → react (before ++ es) ts ≡ react es ts')
      → IsMatched (set_lease r.key r.value none (lease s)) ts' s.channels
      → Ends r.key r.value s o
      → Timely ts (o >>= λ x. some (x.0, before ++ (x.1 ++ last)))
  unfolding Timely Ends react
  finish-Timely before ts' none e m q = tt
  finish-Timely before ts' (some (s', es)) e m (same, c, q) = (
    ts',
    e (es ++ last) ∙ react-IsQuiet es last ts' q,
    subst (λ n. IsMatched (lease s') ts' n) (sym c)
        (IsMatched-Same (set_lease r.key r.value none (lease s)) (lease s') ts' s.channels same m),
  )

  lease_lem :
      (o : Option (Assoc Text ℕ))
      → lookup r.key s.leases ≡ o
      → lease s r.key r.value ≡ lookup r.value (clients_of o)
  unfolding lease
  lease_lem o e = ap (λ x. lookup r.value (clients_of x)) e

  -- A timer whose time is up has left before the handler ends its lease.
  pub expire-Timely :
      IsMatched (set_lease r.key r.value none (lease s)) ts s.channels → Timely ts (expire r s)
  unfolding expire lookup
  expire-Timely m = elim (Option-cases (lookup r.key s.leases)) [
    | inl absent ↦
        rw (expire, absent)
          (Quiet-Timely s (reply_to r (bool_reply true) s) ts (reply_to-Quiet r s (bool_reply true))
            (IsMatched-Same (set_lease r.key r.value none (lease s)) (lease s) ts s.channels
              (absent_Same (lease s) r.key r.value (lease_lem none absent)) m))
    | inr (clients, had) ↦
        rw (expire, had)
          (finish-Timely [] ts (end_lease r clients s) (λ es. refl) m
            (end_lease-Ends r s clients had))
  ]

  pub revoke-Timely : IsMatched (lease s) ts s.channels → Timely ts (revoke r s)
  unfolding revoke
  revoke-Timely m = elim (Option-cases (lookup r.key s.leases)) [
    | inl absent ↦ rw (revoke, absent) still
    | inr (clients, had) ↦ elim (Option-cases (lookup r.value clients)) [
      | inl other ↦ rw (revoke, had, other) still
      | inr (n, held) ↦
          let mine : lease s r.key r.value ≡ some n = lease_lem (some clients) had ∙ held in
          rw (revoke, had, held)
            (finish-Timely (stop_timer n ∷ []) (delete n ts) (end_lease r clients s)
              (stopped ts n r.key r.value (m.timed r.key r.value n mine))
              (IsMatched-delete (lease s) ts s.channels r.key r.value n mine m)
              (end_lease-Ends r s clients had))
    ]
  ]
    where
      still : Timely ts (reply_to r (bool_reply true) s)
      still = Quiet-Timely s _ ts (reply_to-Quiet r s (bool_reply true)) m
