-- ===== src/Store/Server/Release.antt =====
-- The end of leases in appHandler of contrib/storageimpl/storageimpl.go against the view: REVOKE_LEASE
-- and REMOVE_LEASE.
use airline_booking.Prelude.{
  ℕ, ◌≡◌, refl, sym, ap, subst, ◌∙◌, inl, inr, false, none, some, List, [], ◌∷◌, ◌==◌, nat_eq,
  Bool-cases, Option-cases, All, Text, text_eq,
}
use airline_booking.Prelude.Assoc.{
  Assoc, lookup, insert, delete, lookup-insert_here, lookup-insert_other, lookup-delete_here,
  lookup-delete_other, keys,
}
use airline_booking.Store.Buffer.{Buf}
use airline_booking.Store.Buffer.Fifo.{Holds, length_bound}
use airline_booking.Store.Server.{Request, Effect, State, run_deferred, clients_of}
use airline_booking.Store.Server.Content.{Content, Shows}
use airline_booking.Store.Server.View.{
  View, set, set-elim, write_all, Queued, ban_of, IsWait, IsServer, set_other,
}
use airline_booking.Store.Server.Drain.{drain-Drained}

abbrev pub release_view : Text → Content → View → View
release_view k c a = record {
  contents = set k c a.contents;
  holders = set k [] a.holders;
  pending = set k [] a.pending;
}

-- What the maps look like once the last lease of `k` is gone and its writes are done.
pub record Released (k : Text) (s : State) (c : Content) (s' : State) : Type 0 where
  pub shown : Shows (lookup k s'.cache) c
  pub other_values : (j : Text) → (k == j) ≡ false → lookup j s'.cache ≡ lookup j s.cache
  pub queue : Queued (lookup k s'.deferred) []
  pub other_queues : (j : Text) → (k == j) ≡ false → lookup j s'.deferred ≡ lookup j s.deferred
  pub ban : lookup k s'.bans ≡ none
  pub other_bans : (j : Text) → (k == j) ≡ false → lookup j s'.bans ≡ lookup j s.bans
  pub leases : s'.leases ≡ delete k s.leases

pub Released-IsServer :
    (k : Text) (s : State) (a : View) (c : Content) (s' : State)
    → IsServer s a
    → Released k s c s'
    → IsServer s' (release_view k c a)
Released-IsServer k s a c s' i d = record {
  shows = λ j.
      set-elim (λ l x. Shows (lookup l s'.cache) x) k j c a.contents d.shown
        (λ n. subst (λ o. Shows o (a.contents j)) (sym (d.other_values j n)) (i.shows j));
  queues = λ j.
      set-elim (λ l x. Queued (lookup l s'.deferred) x) k j [] a.pending d.queue
        (λ n. subst (λ o. Queued o (a.pending j)) (sym (d.other_queues j n)) (i.queues j));
  bans = λ j.
      set-elim (λ l x. lookup l s'.bans ≡ ban_of x) k j [] a.pending d.ban
        (λ n. d.other_bans j n ∙ i.bans j);
  holders = λ j.
      set-elim (λ l hs. keys (clients_of (lookup l s'.leases)) ≡ hs) k j [] a.holders
        (ap (λ o. keys (clients_of o)) (ap (lookup k) d.leases ∙ lookup-delete_here k s.leases))
        (λ n.
          ap (λ o. keys (clients_of o))
            (ap (lookup j) d.leases ∙ lookup-delete_other k j s.leases n)
          ∙ i.holders j);
  leased = λ j.
      set-elim (λ l x. set k [] a.holders l ≡ [] → x ≡ []) k j [] a.pending (λ _. refl)
        (λ n e. i.leased j (sym (set_other k j [] a.holders n) ∙ e));
  held = λ j e. elim (Bool-cases (k == j)) [
    | inl same ↦ none_lem _ (
        sym (lookup-delete_here k s.leases)
        ∙ ap (λ l. lookup l (delete k s.leases)) ((text_eq.beq_iff k j).0 same)
        ∙ sym (ap (lookup j) d.leases)
        ∙ e)
    | inr n ↦ i.held j (sym (ap (lookup j) d.leases ∙ lookup-delete_other k j s.leases n) ∙ e)
  ];
  writes = λ j. set-elim (λ l x. All (IsWait l) x) k j [] a.pending tt (λ n. i.writes j);
}
  where
    none_lem : (x : Assoc Text ℕ) → ¬ (none ≡ some x)
    none_lem x e = cc

queued_none : (rs : List Request) → Queued none rs → rs ≡ []
queued_none [] q = refl
queued_none (r ∷ rs) q = elim q [ ]

module _ (k : Text) (s : State) (a : View) (i : IsServer s a) where
  abbrev after_writes : Content × List Effect
  after_writes = write_all (a.pending k) (a.contents k)

  abbrev without_leases : State
  without_leases = record s { leases = delete k s.leases }

  run_absent :
      lookup k s.deferred ≡ none
      → (s' : State) × (es : List Effect) × (run_deferred k without_leases ≡ some (s', es))
        × (es ≡ after_writes.1)
        × Released k s after_writes.0 s'
  unfolding run_deferred write_all
  run_absent absent =
      let nobody : [] ≡ a.pending k =
        sym (queued_none _ (subst (λ o. Queued o (a.pending k)) absent (i.queues k))) in
      let ran : run_deferred k without_leases ≡ some (without_leases, []) =
        rw (run_deferred, absent) refl in
      (
        without_leases,
        [],
        ran,
        ap (λ rs. (write_all rs (a.contents k)).1) nobody,
        record {
          shown =
              subst (λ rs. Shows (lookup k s.cache) (write_all rs (a.contents k)).0) nobody
                (i.shows k);
          other_values = λ j n. refl;
          queue = subst (λ rs. Queued (lookup k s.deferred) rs) (sym nobody) (i.queues k);
          other_queues = λ j n. refl;
          ban = i.bans k ∙ ap ban_of (sym nobody);
          other_bans = λ j n. refl;
          leases = refl;
        },
      )

  run_found :
      (b : Buf Request)
      → lookup k s.deferred ≡ some b
      → (s' : State) × (es : List Effect) × (run_deferred k without_leases ≡ some (s', es))
        × (es ≡ after_writes.1)
        × Released k s after_writes.0 s'
  unfolding run_deferred
  run_found b found =
      let holds : Holds b (a.pending k) = subst (λ o. Queued o (a.pending k)) found (i.queues k) in
      let unbanned : State = record without_leases { bans = delete k s.bans } in
      let (b', s', es, went, d) =
        drain-Drained b.allocated k b (a.pending k) unbanned (a.contents k) holds
          (length_bound b (a.pending k) holds) (i.writes k) (i.shows k) in
      let s'' : State = record s' { deferred = insert k b' s'.deferred } in
      let ran : run_deferred k without_leases ≡ some (s'', es) =
        rw (run_deferred, found, went) refl in
      (
        s'',
        es,
        ran,
        d.answered,
        record {
          shown = d.shown;
          other_values = d.others;
          queue = subst (λ o. Queued o []) (sym (lookup-insert_here k b' s'.deferred)) d.emptied;
          other_queues = λ j n. lookup-insert_other k j b' s'.deferred n ∙ ap (lookup j) d.kept.1;
          ban = ap (lookup k) d.kept.2 ∙ lookup-delete_here k s.bans;
          other_bans = λ j n. ap (lookup j) d.kept.2 ∙ lookup-delete_other k j s.bans n;
          leases = d.kept.0;
        },
      )

  -- The writes that wait for the key are performed.
  pub run_deferred-Released :
      (s' : State) × (es : List Effect) × (run_deferred k without_leases ≡ some (s', es))
      × (es ≡ after_writes.1)
      × Released k s after_writes.0 s'
  run_deferred-Released = elim (Option-cases (lookup k s.deferred)) [
    | inl absent ↦ run_absent absent
    | inr (b, found) ↦ run_found b found
  ]
