-- ===== src/Store/Timers/Steps.antt =====
-- A step of appHandler in contrib/storageimpl/storageimpl.go and the timers of the leases, by the type
-- of the request.
use airline_booking.Prelude.{
  [], ◌∷◌, ℕ, ◌+◌, ◌≡◌, refl, sym, ap, ◌∙◌, ◌≢◌, inl, inr, false, ◌&&◌, none, some, arith, ◌==◌,
  nat_eq, Bool-cases, Option-cases, Text, text_eq, true,
}
use airline_booking.Prelude.Assoc.{
  Assoc, lookup, insert, delete, lookup-insert, lookup-insert_here, lookup-insert_other,
}
use airline_booking.Store.Server.{
  answer, start_timer, bool_reply, RequestType, put, get, append_list, get_list, remove_list,
  put_lease, remove_lease, revoke_lease, Request, State, Outcome, reply_to, is_write, fetch,
  fetch_list, expire, grant, pre_check, defer, deferring, process, handle, clients_of, lease_time,
}
use airline_booking.Store.Server.View.Parts.{all_types}
use airline_booking.Store.Timers.{Timer, react, expiry}
use airline_booking.Store.Timers.Matched.{
  Leases, IsMatched, Same, set_lease, IsMatched-Same, IsMatched-insert, IsMatched-delete,
}
use airline_booking.Store.Timers.Quiet.{
  lease, Quiet, reply_to-Quiet, defer-Quiet, get_list-Quiet, store_value-Quiet, append_to-Quiet,
  remove_from-Quiet,
}
use airline_booking.Store.Timers.Ends.{Timely, Quiet-Timely, revoke-Timely, stopped}

module _ (r : Request) (s : State) (ts : Assoc ℕ Timer) where
  abbrev clients : Assoc Text ℕ
  clients = clients_of (lookup r.key s.leases)

  abbrev new_timer : Timer
  new_timer = record { key = r.key; client = r.value; duration = lease_time; due = false }

  abbrev granted : State
  granted = record s {
    leases = insert r.key (insert r.value s.channels clients) s.leases;
    channels = s.channels + 1;
  }

  granted_Same :
      (l : Leases)
      → ((j d : Text) → (r.key == j && r.value == d) ≡ false → l j d ≡ lease s j d)
      → Same (set_lease r.key r.value (some s.channels) l) (lease granted)
  unfolding lease
  granted_Same l same j d = elim (Bool-cases (r.key == j)) [
    | inl e ↦
        let k : r.key ≡ j = (text_eq.beq_iff r.key j).0 e in
        let new : lookup d (clients_of (lookup j granted.leases))
            ≡ lookup d (insert r.value s.channels clients) =
          ap (λ i. lookup d (clients_of (lookup i granted.leases))) (sym k)
          ∙ ap (λ o. lookup d (clients_of o))
              (lookup-insert_here r.key (insert r.value s.channels clients) s.leases) in
        let old : lookup d clients ≡ lookup d (clients_of (lookup j s.leases)) =
          ap (λ i. lookup d (clients_of (lookup i s.leases))) k in
        ground (arith, e, old, new, lookup-insert r.value d s.channels clients, same j d)
    | inr n ↦
        let kept : lookup d (clients_of (lookup j granted.leases))
            ≡ lookup d (clients_of (lookup j s.leases)) =
          ap (λ o. lookup d (clients_of o))
            (lookup-insert_other r.key j (insert r.value s.channels clients) s.leases n) in
        ground (arith, n, kept, same j d)
  ]

  -- A lease is granted, with the old timer of the client stopped where it had one.
  grant-Timely : IsMatched (lease s) ts s.channels → Timely ts (grant r s)
  unfolding grant Timely react lease
  grant-Timely m = elim (Option-cases (lookup r.key s.bans)) [
    | inr (n, banned) ↦
        rw (grant, banned)
          (Quiet-Timely s (reply_to r (bool_reply false) s) ts
            (reply_to-Quiet r s (bool_reply false)) m)
    | inl open_to_it ↦ elim (Option-cases (lookup r.value clients)) [
      | inl new ↦
          rw (grant, open_to_it, new)
            (
              insert s.channels new_timer ts,
              refl,
              IsMatched-Same (set_lease r.key r.value (some s.channels) (lease s)) (lease granted) _
                  _ (granted_Same (lease s) (λ j d n. refl))
                  (IsMatched-insert (lease s) ts s.channels new_timer new m),
            )
      | inr (n, old) ↦
          rw (grant, open_to_it, old)
            (
              insert s.channels new_timer (delete n ts),
              stopped ts n r.key r.value (m.timed r.key r.value n old) (
                  start_timer r.key r.value lease_time s.channels
                  ∷ answer r.replyc (bool_reply true)
                  ∷ []),
              IsMatched-Same (set_lease r.key r.value (some s.channels) ended) (lease granted) _ _
                  (granted_Same ended (λ j d e. rw e refl))
                  (IsMatched-insert ended (delete n ts) s.channels new_timer free
                    (IsMatched-delete (lease s) ts s.channels r.key r.value n old m)),
            )
    ]
  ]
    where
      ended : Leases
      ended = set_lease r.key r.value none (lease s)

      free : ended r.key r.value ≡ none
      free = ground (arith, text_eq.beq_iff r.key r.key, text_eq.beq_iff r.value r.value)

module _ (r : Request) (s : State) (ts : Assoc ℕ Timer)
    (m : IsMatched (lease s) ts s.channels) where
  process-Timely : r.typ ≢ remove_lease → Timely ts (process r s)
  unfolding process
  process-Timely =
      let of_type : RequestType → Request = λ t. record r { typ = t } in
      let quiet : (o : Outcome) → Quiet s o → Timely ts o = λ o q. Quiet-Timely s o ts q m in
      all_types (λ t. t ≢ remove_lease → Timely ts (process (of_type t) s)) r.typ
        (λ _. quiet _ (store_value-Quiet (of_type put) s))
        (λ _. quiet _ (reply_to-Quiet (of_type get) s (fetch (lookup r.key s.cache))))
        (λ _. quiet _ (append_to-Quiet (of_type append_list) s (lookup r.key s.cache)))
        (λ _. quiet _ (get_list-Quiet (of_type get_list) s (fetch_list (lookup r.key s.cache))))
        (λ _. quiet _ (remove_from-Quiet (of_type remove_list) s (lookup r.key s.cache)))
        (λ _. grant-Timely (of_type put_lease) s ts m) (λ n. absurd (n refl))
        (λ _. revoke-Timely (of_type revoke_lease) s ts m)

  -- Any request but that of a timer.
  pub handle-Timely : r.typ ≢ remove_lease → Timely ts (handle r s)
  unfolding handle
  handle-Timely n = elim (Option-cases (pre_check (lookup r.key s.cache) r)) [
    | inr (x, refused) ↦
        rw (handle, refused) (Quiet-Timely s (reply_to r x s) ts (reply_to-Quiet r s x) m)
    | inl open_to_it ↦ elim (Option-cases (deferring r s)) [
      | inr (clients, busy) ↦
          rw (handle, open_to_it, busy)
            (Quiet-Timely s (defer r clients s) ts (defer-Quiet r s clients) m)
      | inl free ↦ rw (handle, open_to_it, free) (process-Timely n)
    ]
  ]

-- The request of a timer whose time is up.
pub handle-expiry : (t : Timer) (c : ℕ) (s : State) → handle (expiry t c) s ≡ expire (expiry t c) s
unfolding handle pre_check deferring process is_write expiry
handle-expiry t c s = refl
