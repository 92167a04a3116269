-- ===== src/Store/Server/Endings.antt =====
-- Lease requests of appHandler in contrib/storageimpl/storageimpl.go that end a lease, REVOKE_LEASE and
-- REMOVE_LEASE, against the view.
use airline_booking.Prelude.{
  ℕ, ◌≡◌, refl, sym, ap, subst, ◌∙◌, ◌≢◌, inl, inr, true, false, Option, none, some, List, [], ◌∷◌,
  ◌++◌, arith, if◌then◌else◌, ◌==◌, nat_eq, Bool-cases, Option-cases, length, elem, Text, text_eq,
}
use airline_booking.Prelude.Assoc.{
  Assoc, lookup, insert, delete, lookup-insert_here, lookup-insert_other, keys, elem-lookup,
}
use airline_booking.Store.Server.{
  Request, bool_reply, Effect, answer, stop_timer, State, Outcome, ◌>>=◌, end_lease, revoke, expire,
  clients_of,
}
use airline_booking.Store.Server.View.{
  View, set, set-elim, write_all, IsServer, view_end, answers_only, is_empty,
}
use airline_booking.Store.Server.View.Parts.{
  answers, answers-append, answers-write_all, not_empty, holders-none, holders-some,
  holders_nonempty, keys-delete, empty_lem,
}
use airline_booking.Store.Server.Steps.{Steps, reply_to-Steps}
use airline_booking.Store.Server.Leases.{some_injective}
use airline_booking.Store.Server.Release.{release_view, Released-IsServer, run_deferred-Released}
use airline_booking.Store.HashList.Sequence.{without}

is_empty-keys : (m : Assoc Text ℕ) → is_empty (keys m) ≡ (length m == 0)
is_empty-keys [] = ground arith
is_empty-keys (c ∷ m) = ground arith

answers_stop : (timer : ℕ) → answers (stop_timer timer ∷ []) ≡ []
unfolding answers
answers_stop timer = refl

module _ (r : Request) (s : State) (a : View) (i : IsServer s a) where
  abbrev left : List Text
  left = without r.value (a.holders r.key)

  left-keys :
      (clients : Assoc Text ℕ)
      → lookup r.key s.leases ≡ some clients
      → keys (delete r.value clients) ≡ left
  left-keys clients had =
      keys-delete r.value clients ∙ ap (without r.value) (holders-some s a i r.key clients had)

  left-length :
      (clients : Assoc Text ℕ)
      → lookup r.key s.leases ≡ some clients
      → is_empty left ≡ (length (delete r.value clients) == 0)
  left-length clients had =
      ap is_empty (sym (left-keys clients had)) ∙ is_empty-keys (delete r.value clients)

  -- The maps after a lease that is not the key's last has ended.
  shortened_IsServer :
      (clients : Assoc Text ℕ)
      → clients ≢ []
      → keys clients ≡ left
      → is_empty left ≡ false
      → IsServer
          (record s { leases = insert r.key clients s.leases })
          (record a { holders = set r.key left a.holders })
  shortened_IsServer clients more same some_left = record {
    shows = i.shows;
    queues = i.queues;
    bans = i.bans;
    holders = λ k.
        set-elim (λ j hs. keys (clients_of (lookup j (insert r.key clients s.leases))) ≡ hs) r.key k
          left a.holders
          (ap (λ o. keys (clients_of o)) (lookup-insert_here r.key clients s.leases) ∙ same)
          (λ n.
            ap (λ o. keys (clients_of o)) (lookup-insert_other r.key k clients s.leases n)
            ∙ i.holders k);
    leased = λ k.
        set-elim (λ j hs. hs ≡ [] → a.pending j ≡ []) r.key k left a.holders
          (λ e. absurd (not_empty left some_left e)) (λ n. i.leased k);
    held = λ k n. elim (Bool-cases (r.key == k)) [
      | inl e ↦ more (
          some_injective _ _ (
            sym (lookup-insert_here r.key clients s.leases)
            ∙ ap (λ j. lookup j (insert r.key clients s.leases)) ((text_eq.beq_iff r.key k).0 e)
            ∙ n))
      | inr m ↦ i.held k (sym (lookup-insert_other r.key k clients s.leases m) ∙ n)
    ];
    writes = i.writes;
  }

  -- The end of a lease, between effects that answer nobody and the answer.
  answers_around :
      (before es fs : List Effect)
      → answers before ≡ []
      → answers es ≡ fs
      → answers (before ++ (es ++ answer r.replyc (bool_reply true) ∷ []))
        ≡ fs ++ answer r.replyc (bool_reply true) ∷ []
  unfolding answers
  answers_around before es fs b e =
      let last = answer r.replyc (bool_reply true) ∷ [] in
      answers-append before (es ++ last)
      ∙ ap (λ l. l ++ answers (es ++ last)) b
      ∙ answers-append es last
      ∙ ap (λ l. l ++ last) e

  abbrev finish : List Effect → Outcome → Outcome
  finish before o = o >>= λ p. some (p.0, before ++ (p.1 ++ answer r.replyc (bool_reply true) ∷ []))

  last-Steps :
      (clients : Assoc Text ℕ) (before : List Effect)
      → answers before ≡ []
      → lookup r.key s.leases ≡ some clients
      → (length (delete r.value clients) == 0) ≡ true
      → Steps r s a (view_end r a) (finish before (end_lease r clients s))
  unfolding end_lease view_end
  last-Steps clients before b had m =
      let (s', es, ran, eq, done) = run_deferred-Released r.key s a i in
      let ended : end_lease r clients s ≡ some (s', es) = rw (end_lease, m) ran in
      let out = before ++ (es ++ answer r.replyc (bool_reply true) ∷ []) in
      let ran' : finish before (end_lease r clients s) ≡ some (s', out) = rw ended refl in
      let e : is_empty left ≡ true = left-length clients had ∙ m in
      rw (view_end, e)
        (
          s',
          out,
          ran',
          record {
            server =
                subst
                  (λ hs.
                    IsServer s'
                      (record (release_view r.key (write_all (a.pending r.key) (a.contents r.key)).0
                        a) { holders = set r.key hs a.holders }))
                  (sym (empty_lem left e)) (Released-IsServer r.key s a _ s' i done);
            answered =
                answers_around before es _ b
                  (ap answers eq ∙ answers-write_all (a.pending r.key) (a.contents r.key));
          },
        )

  not_last-Steps :
      (clients : Assoc Text ℕ) (before : List Effect)
      → answers before ≡ []
      → lookup r.key s.leases ≡ some clients
      → (length (delete r.value clients) == 0) ≡ false
      → Steps r s a (view_end r a) (finish before (end_lease r clients s))
  unfolding end_lease view_end answers
  not_last-Steps clients before b had m =
      let rest = delete r.value clients in
      let s' : State = record s { leases = insert r.key rest s.leases } in
      let ended : end_lease r clients s ≡ some (s', []) = rw (end_lease, m) refl in
      let out = before ++ answer r.replyc (bool_reply true) ∷ [] in
      let ran' : finish before (end_lease r clients s) ≡ some (s', out) = rw ended refl in
      let e : is_empty left ≡ false = left-length clients had ∙ m in
      rw (view_end, e)
        (
          s',
          out,
          ran',
          record {
            server = shortened_IsServer rest (λ n. ground (arith, n, m)) (left-keys clients had) e;
            answered = answers_around before [] [] b refl;
          },
        )

  end_lease-Steps :
      (clients : Assoc Text ℕ) (before : List Effect)
      → answers before ≡ []
      → lookup r.key s.leases ≡ some clients
      → Steps r s a (view_end r a) (finish before (end_lease r clients s))
  end_lease-Steps clients before b had = elim (Bool-cases (length (delete r.value clients) == 0)) [
    | inl m ↦ last-Steps clients before b had m
    | inr m ↦ not_last-Steps clients before b had m
  ]

  held_by :
      (clients : Assoc Text ℕ) (o : Option ℕ)
      → lookup r.key s.leases ≡ some clients
      → lookup r.value clients ≡ o
      → elem r.value (a.holders r.key) ≡ elim o [ none ↦ false | some t ↦ true ]
  held_by clients o had e =
      ap (elem r.value) (sym (holders-some s a i r.key clients had))
      ∙ elem-lookup r.value clients
      ∙ ap (λ p. elim p [ none ↦ false | some t ↦ true ]) e

  -- REVOKE_LEASE.
  pub revoke-Steps :
      Steps r s a
        (if elem r.value (a.holders r.key)
          then view_end r a
          else answers_only r (bool_reply true) a)
        (revoke r s)
  unfolding revoke
  revoke-Steps = elim (Option-cases (lookup r.key s.leases)) [
    | inl free ↦
        rw (revoke, free, holders-none s a i r.key free) (reply_to-Steps r s a i (bool_reply true))
    | inr (clients, had) ↦ elim (Option-cases (lookup r.value clients)) [
      | inl other ↦
          rw (revoke, had, other, held_by clients none had other)
            (reply_to-Steps r s a i (bool_reply true))
      | inr (timer, own) ↦
          rw (revoke, had, own, held_by clients (some timer) had own)
            (end_lease-Steps clients (stop_timer timer ∷ []) (answers_stop timer) had)
    ]
  ]

  -- REMOVE_LEASE.
  pub expire-Steps :
      Steps r s a
        (if is_empty (a.holders r.key) then answers_only r (bool_reply true) a else view_end r a)
        (expire r s)
  unfolding expire answers
  expire-Steps = elim (Option-cases (lookup r.key s.leases)) [
    | inl free ↦
        rw (expire, free, holders-none s a i r.key free) (reply_to-Steps r s a i (bool_reply true))
    | inr (clients, had) ↦
        rw (expire, had, holders_nonempty s a i r.key clients had)
          (end_lease-Steps clients [] refl had)
  ]
