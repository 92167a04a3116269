-- ===== src/Airline/Server/Leak.antt =====
-- contrib/airlineimpl/participant.go: a lock that no transaction holds.
use airline_booking.Prelude.{
  ◌≡◌, refl, sym, ap, subst, ◌∙◌, inl, inr, Bool, true, false, some, List, [], ◌∷◌, ◌++◌, arith,
  nat_beq, nat_eq, Bool-cases, Option-cases, elem, Text, text_eq,
}
use airline_booking.Prelude.Assoc.{lookup, delete}
use airline_booking.Airline.Types.{commit, FlightInfo, TranArgs, TransLog, AirlineServer}
use airline_booking.Airline.Participant.{
  Result, lock_flights, store_logs, send_vote, release_logs, finish, flight_ids,
}
use airline_booking.Airline.Participant
use airline_booking.Airline.Participant.Booking.{flights_of, locks_kept, logs_sound}
use airline_booking.Airline.Participant.Outcome.{apply_logs_total, lookup-release_logs}
use airline_booking.Airline.Server.{store_flight, on_create_flight, reply, status}
use airline_booking.Airline.Server.Consistency.{IsConsistent, Logged-not_held, inserted}
use airline_booking.Airline.Server.Keep.{deleted, stored}
use airline_booking.Airline.Server.Total.{Handled, Held-Known}

-- The flight is locked, and no undecided transaction has it in its logs.
pub record IsLeaked (f : Text) (srv : AirlineServer) : Type 0 where
  pub locked : lookup f srv.lock_buf ≡ some true
  pub unowned :
      (t : Text) (ls : List TransLog)
      → lookup t srv.log_buf ≡ some ls
      → elem f (flights_of ls) ≡ false

module _ (f : Text) where
  store_logs-IsLeaked :
      (args : TranArgs) (fs : List Text) (srv : AirlineServer)
      → IsLeaked f srv
      → let r = lock_flights srv.flight_buf args fs srv.lock_buf in
        IsLeaked f (store_logs args r (record srv { lock_buf = r.locks })).0
  unfolding store_logs
  store_logs-IsLeaked args fs srv k =
      let r = lock_flights srv.flight_buf args fs srv.lock_buf in
      let kept = locks_kept srv.flight_buf args fs srv.lock_buf f true k.locked in
      elim (Bool-cases (nat_beq r.vote commit)) [
        | inl hit ↦
            let leaked : IsLeaked f (stored args.tran_id r.logs r.locks srv) = record {
              locked = kept;
              unowned = λ t ls e. elim (inserted args.tran_id t r.logs ls srv.log_buf e) [
                | inl (_, same) ↦
                    subst (λ ks. elem f (flights_of ks) ≡ false) same
                      (Logged-not_held srv args r.locks f r.logs k.locked
                        (logs_sound srv.flight_buf args fs srv.lock_buf).0)
                | inr (_, e') ↦ k.unowned t ls e'
              ];
            } in
            rw (hit) leaked
        | inr miss ↦
            let leaked : IsLeaked f (record srv { lock_buf = r.locks }) = record {
              locked = kept;
              unowned = k.unowned;
            } in
            rw (miss) leaked
      ]

  pub init_trans-IsLeaked :
      (reachable : Text → Bool) (own : Bool) (args : TranArgs) (srv : AirlineServer)
      → IsLeaked f srv
      → Handled (IsLeaked f) (Participant.init_trans reachable own args srv)
  unfolding Participant.init_trans
  init_trans-IsLeaked reachable own args srv k =
      let r = lock_flights srv.flight_buf args (flight_ids args) srv.lock_buf in
      elim (Bool-cases (reachable args.tm)) [
        | inl hit ↦ (
          (store_logs args r (record srv { lock_buf = r.locks })).0,
          send_vote own srv args r.vote
              ++ (store_logs args r (record srv { lock_buf = r.locks })).1,
          rw (hit) refl,
          store_logs-IsLeaked args (flight_ids args) srv k,
        )
        | inr miss ↦ (
          record srv { lock_buf = r.locks },
          [],
          rw (miss) refl,
          record {
            locked = locks_kept srv.flight_buf args (flight_ids args) srv.lock_buf f true k.locked;
            unowned = k.unowned;
          },
        )
      ]

  pub response_trans-IsLeaked :
      (args : TranArgs) (srv : AirlineServer)
      → IsConsistent srv
      → IsLeaked f srv
      → Handled (IsLeaked f) (Participant.response_trans args srv)
  unfolding Participant.response_trans
  response_trans-IsLeaked args srv c k = elim (Option-cases (lookup args.tran_id srv.log_buf)) [
    | inl unknown ↦ (srv, [], rw (unknown, Participant.response_trans), k)
    | inr (ls, here) ↦ elim (Bool-cases (nat_beq args.vote commit)) [
      | inl hit ↦
          let (srv', e, a) =
            apply_logs_total ls srv (Held-Known srv ls (c.held args.tran_id ls here).0) in
          (
            finish args.tran_id args.vote srv',
            [],
            rw (here, Participant.response_trans, hit, e),
            record {
              locked = a.same_lock f (k.unowned args.tran_id ls here) ∙ k.locked;
              unowned = λ t ms e'.
                  k.unowned t ms
                    (deleted args.tran_id t ms srv.log_buf
                      (sym (ap (λ m. lookup t (delete args.tran_id m)) a.same_logs) ∙ e')).1;
            },
          )
      | inr miss ↦ (
        finish args.tran_id args.vote (record srv { lock_buf = release_logs ls srv.lock_buf }),
        [],
        rw (here, Participant.response_trans, miss),
        record {
          locked = ground (
            arith,
            lookup-release_logs ls srv.lock_buf f,
            k.unowned args.tran_id ls here,
            k.locked,
          );
          unowned = λ t ms e'. k.unowned t ms (deleted args.tran_id t ms srv.log_buf e').1;
        },
      )
    ]
  ]

  pub create_flight-IsLeaked :
      (g : Text) (info : FlightInfo) (srv : AirlineServer)
      → IsLeaked f srv
      → Handled (IsLeaked f) (on_create_flight g info srv)
  unfolding on_create_flight store_flight
  create_flight-IsLeaked g info srv k = elim (Option-cases (lookup g srv.flight_buf)) [
    | inl new ↦ (
      store_flight g info srv,
      reply (status true) ∷ [],
      rw (new, on_create_flight),
      record { locked = k.locked; unowned = k.unowned },
    )
    | inr (_, old) ↦ (srv, reply (status false) ∷ [], rw (old, on_create_flight), k)
  ]
