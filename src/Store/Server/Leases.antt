-- ===== src/Store/Server/Leases.antt =====
-- The lease requests of appHandler in contrib/storageimpl/storageimpl.go against the view: how a lease is
-- granted.
use airline_booking.Prelude.{
  ℕ, ◌+◌, ◌≡◌, refl, sym, ap, ◌∙◌, ◌≢◌, inl, inr, true, false, Option, none, some, List, [], ◌∷◌,
  ◌++◌, arith, ◌==◌, nat_eq, Bool-cases, Option-cases, Text, text_eq,
}
use airline_booking.Prelude.Assoc.{
  Assoc, lookup, insert, lookup-insert_here, lookup-insert_other, keys, keys-insert,
}
use airline_booking.Store.Server.{
  Request, bool_reply, answer, start_timer, State, reply_to, grant, clients_of, stop_old,
  lease_time,
}
use airline_booking.Store.Server.View.{
  View, is_empty, ban_of, IsServer, set, set-elim, view_grant, add_client,
}
use airline_booking.Store.Server.View.Parts.{answers}
use airline_booking.Store.Server.Steps.{Steps}

pub ban_of-none : (rs : List Request) → ban_of rs ≡ none → rs ≡ []
ban_of-none [] e = refl
ban_of-none (r ∷ rs) e = cc

insert_nonempty : (k : Text) (n : ℕ) (m : Assoc Text ℕ) → insert k n m ≢ []
unfolding insert
insert_nonempty k n [] e = cc
insert_nonempty k n ((j, w) ∷ m) e = ground arith

pub some_injective : (x y : Assoc Text ℕ) → some x ≡ some y → x ≡ y
some_injective x y e = cc

is_empty_lem : (rs : List Request) → rs ≡ [] → is_empty rs ≡ true
is_empty_lem rs e = rw e refl

ban_of-some : (rs : List Request) (n : ℕ) → ban_of rs ≡ some n → is_empty rs ≡ false
ban_of-some [] n e = cc
ban_of-some (r ∷ rs) n e = refl

answers-granted :
    (r : Request) (n : ℕ) (o : Option ℕ)
    → answers (
        stop_old o
        ++ start_timer r.key r.value lease_time n ∷ answer r.replyc (bool_reply true) ∷ [])
      ≡ answer r.replyc (bool_reply true) ∷ []
unfolding answers
answers-granted r n none = refl
answers-granted r n (some t) = refl

module _ (r : Request) (s : State) (a : View) (i : IsServer s a) where
  -- The maps after a lease has been granted.
  granted_IsServer :
      lookup r.key s.bans ≡ none
      → IsServer
          (record s {
            leases =
                insert r.key
                  (insert r.value s.channels (clients_of (lookup r.key s.leases)))
                  s.leases;
            channels = s.channels + 1;
          })
          (record a { holders = set r.key (add_client r.value (a.holders r.key)) a.holders })
  granted_IsServer free =
      let clients = insert r.value s.channels (clients_of (lookup r.key s.leases)) in
      record {
        shows = i.shows;
        queues = i.queues;
        bans = i.bans;
        holders = λ k.
            set-elim (λ j hs. keys (clients_of (lookup j (insert r.key clients s.leases))) ≡ hs)
              r.key k (add_client r.value (a.holders r.key)) a.holders
              (ap (λ o. keys (clients_of o)) (lookup-insert_here r.key clients s.leases)
                ∙ keys-insert r.value s.channels (clients_of (lookup r.key s.leases))
                ∙ ap (add_client r.value) (i.holders r.key))
              (λ n.
                ap (λ o. keys (clients_of o)) (lookup-insert_other r.key k clients s.leases n)
                ∙ i.holders k);
        leased = λ k.
            set-elim (λ j hs. hs ≡ [] → a.pending j ≡ []) r.key k
              (add_client r.value (a.holders r.key)) a.holders
              (λ _. ban_of-none _ (sym (i.bans r.key) ∙ free)) (λ n. i.leased k);
        held = λ k n. elim (Bool-cases (r.key == k)) [
          | inl e ↦ insert_nonempty r.value s.channels _ (
              some_injective _ _ (
                sym (lookup-insert_here r.key clients s.leases)
                ∙ ap (λ j. lookup j (insert r.key clients s.leases)) ((text_eq.beq_iff r.key k).0 e)
                ∙ n))
          | inr m ↦ i.held k (sym (lookup-insert_other r.key k clients s.leases m) ∙ n)
        ];
        writes = i.writes;
      }

  -- A request for a lease.
  pub grant-Steps : Steps r s a (view_grant r a) (grant r s)
  unfolding grant view_grant answers
  grant-Steps = elim (Option-cases (lookup r.key s.bans)) [
    | inl free ↦
        let clients = clients_of (lookup r.key s.leases) in
        let s' : State = record s {
          leases = insert r.key (insert r.value s.channels clients) s.leases;
          channels = s.channels + 1;
        } in
        let es =
          stop_old (lookup r.value clients)
          ++ start_timer r.key r.value lease_time s.channels
            ∷ answer r.replyc (bool_reply true)
            ∷ [] in
        let ran : grant r s ≡ some (s', es) = rw (grant, free) refl in
        rw (view_grant, is_empty_lem _ (ban_of-none _ (sym (i.bans r.key) ∙ free)))
          (
            s',
            es,
            ran,
            record {
              server = granted_IsServer free;
              answered = answers-granted r s.channels (lookup r.value clients);
            },
          )
    | inr (n, banned) ↦
        let ran : grant r s ≡ reply_to r (bool_reply false) s = rw (grant, banned) refl in
        rw (view_grant, ban_of-some _ n (sym (i.bans r.key) ∙ banned))
          (s, _, ran, record { server = i; answered = refl })
  ]
