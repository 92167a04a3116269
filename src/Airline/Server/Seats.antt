-- ===== src/Airline/Server/Seats.antt =====
-- contrib/airlineimpl: no request oversells a flight.
use airline_booking.Prelude.{
  ◌≡◌, refl, sym, ap, subst, ◌∙◌, inl, inr, Bool, true, false, none, some, List, [], ◌∷◌, ◌++◌,
  arith, nat_beq, nat_eq, Bool-cases, Option-cases, All, Text, text_beq, text_beq_iff, text_eq,
}
use airline_booking.Prelude.Assoc.{lookup, delete, lookup-insert}
use airline_booking.Prelude.Words.{IsNonNegative}
use airline_booking.Airline.Types.{
  commit, FlightInfo, TranArgs, AirlineServer, Request, create_flight, get_flight, get_all_flights,
  init_trans, response_trans, trans_expired, old_trans, old_response, paxos_request, reply, status,
}
use airline_booking.Airline.Participant.{
  Ask, lock_flights, store_logs, send_vote, release_logs, finish, flight_ids, expire_trans,
}
use airline_booking.Airline.Participant
use airline_booking.Airline.Participant.Booking.{logs_sound}
use airline_booking.Airline.Participant.Outcome.{apply_logs_total}
use airline_booking.Airline.Server.{
  store_flight, on_create_flight, on_paxos_request, store_handler, Event, run,
}
use airline_booking.Airline.Server.Consistency.{IsConsistent, inserted}
use airline_booking.Airline.Server.Keep.{deleted, stored}
use airline_booking.Airline.Server.Total.{Handled, IsPrompt, Held-Known}
use airline_booking.Airline.Server.Run.{run_induction}
use airline_booking.Airline.Server.Slots.{
  Falls, IsSound, IsFair, Logged-Falls, commit-Falls, commit_not_new,
}

module _ (before : AirlineServer) where
  store_logs-IsSound :
      (args : TranArgs) (fs : List Text) (srv : AirlineServer)
      → IsNonNegative args.amount
      → IsSound before srv
      → let r = lock_flights srv.flight_buf args fs srv.lock_buf in
        IsSound before (store_logs args r (record srv { lock_buf = r.locks })).0
  unfolding store_logs
  store_logs-IsSound args fs srv pos s =
      let r = lock_flights srv.flight_buf args fs srv.lock_buf in
      elim (Bool-cases (nat_beq r.vote commit)) [
        | inl hit ↦
            let k : IsSound before (stored args.tran_id r.logs r.locks srv) = record {
              slots = s.slots;
              logs = λ t ls e. elim (inserted args.tran_id t r.logs ls srv.log_buf e) [
                | inl (_, same) ↦ subst (All Falls) same (
                    Logged-Falls before srv args r.locks r.logs pos s
                      (logs_sound srv.flight_buf args fs srv.lock_buf).0)
                | inr (_, e') ↦ s.logs t ls e'
              ];
              falls = s.falls;
            } in
            rw (hit) k
        | inr miss ↦
            let k : IsSound before (record srv { lock_buf = r.locks }) = record {
              slots = s.slots;
              logs = s.logs;
              falls = s.falls;
            } in
            rw (miss) k
      ]

  init_trans-IsSound :
      (reachable : Text → Bool) (own : Bool) (args : TranArgs) (srv : AirlineServer)
      → IsNonNegative args.amount
      → IsSound before srv
      → Handled (IsSound before) (Participant.init_trans reachable own args srv)
  unfolding Participant.init_trans
  init_trans-IsSound reachable own args srv pos s =
      let r = lock_flights srv.flight_buf args (flight_ids args) srv.lock_buf in
      elim (Bool-cases (reachable args.tm)) [
        | inl hit ↦ (
          (store_logs args r (record srv { lock_buf = r.locks })).0,
          send_vote own srv args r.vote
              ++ (store_logs args r (record srv { lock_buf = r.locks })).1,
          rw (hit) refl,
          store_logs-IsSound args (flight_ids args) srv pos s,
        )
        | inr miss ↦ (
          record srv { lock_buf = r.locks },
          [],
          rw (miss) refl,
          record { slots = s.slots; logs = s.logs; falls = s.falls },
        )
      ]

  response_trans-IsSound :
      (args : TranArgs) (srv : AirlineServer)
      → IsConsistent srv
      → IsSound before srv
      → Handled (IsSound before) (Participant.response_trans args srv)
  unfolding Participant.response_trans
  response_trans-IsSound args srv c s = elim (Option-cases (lookup args.tran_id srv.log_buf)) [
    | inl unknown ↦ (srv, [], rw (unknown, Participant.response_trans), s)
    | inr (ls, here) ↦ elim (Bool-cases (nat_beq args.vote commit)) [
      | inl hit ↦
          let held = c.held args.tran_id ls here in
          let (srv', e, a) = apply_logs_total ls srv (Held-Known srv ls held.0) in
          let go = λ (g : Text) (info : FlightInfo) (k : lookup g srv.flight_buf ≡ some info).
            commit-Falls before srv srv' ls g info a held (s.logs args.tran_id ls here) k in
          (
            finish args.tran_id args.vote srv',
            [],
            rw (here, Participant.response_trans, hit, e),
            record {
              slots = λ g info k. elim (Option-cases (lookup g srv.flight_buf)) [
                | inl gone ↦ cc (
                  commit_not_new before srv srv' ls g a held (s.logs args.tran_id ls here) gone,
                  k,
                )
                | inr (old, k') ↦
                    let (n, k2, le) = go g old k' in
                    let one : info ≡ record old { slot = n } = cc (k, k2) in
                    let fits = s.slots g old k' in omega (arith, ap (λ i. i.slot) one, le, fits)
              ];
              logs = λ t ms e'.
                  s.logs t ms
                    (deleted args.tran_id t ms srv.log_buf
                      (sym (ap (λ m. lookup t (delete args.tran_id m)) a.same_logs) ∙ e')).1;
              falls = λ g info k.
                  let (n, k', le) = s.falls g info k in
                  let (m, k2, le2) = go g (record info { slot = n }) k' in
                  (m, k2, omega (arith, le, le2));
            },
          )
      | inr miss ↦ (
        finish args.tran_id args.vote (record srv { lock_buf = release_logs ls srv.lock_buf }),
        [],
        rw (here, Participant.response_trans, miss),
        record {
          slots = s.slots;
          logs = λ t ms e'. s.logs t ms (deleted args.tran_id t ms srv.log_buf e').1;
          falls = s.falls;
        },
      )
    ]
  ]

  create_flight-IsSound :
      (f : Text) (info : FlightInfo) (srv : AirlineServer)
      → IsNonNegative info.slot
      → IsSound before srv
      → Handled (IsSound before) (on_create_flight f info srv)
  unfolding on_create_flight store_flight
  create_flight-IsSound f info srv pos s = elim (Option-cases (lookup f srv.flight_buf)) [
    | inr (_, old) ↦ (srv, reply (status false) ∷ [], rw (old, on_create_flight), s)
    | inl new ↦ (
      store_flight f info srv,
      reply (status true) ∷ [],
      rw (new, on_create_flight),
      record {
        slots = λ g i k. elim (Bool-cases (text_beq f g)) [
          | inl same ↦
              let one : info ≡ i = ground (arith, lookup-insert f g info srv.flight_buf, same, k) in
              subst (λ j. IsNonNegative j.slot) one pos
          | inr other ↦
              s.slots g i (ground (arith, lookup-insert f g info srv.flight_buf, other, k))
        ];
        logs = s.logs;
        falls = λ g i k.
            let (n, e, le) = s.falls g i k in
            elim (Bool-cases (text_beq f g)) [
              | inl same ↦
                  let gone : lookup g srv.flight_buf ≡ none =
                    ap (λ x. lookup x srv.flight_buf) (sym ((text_beq_iff f g).0 same)) ∙ new in
                  cc (gone, e)
              | inr other ↦
                  (n, ground (arith, lookup-insert f g info srv.flight_buf, other) ∙ e, le)
            ];
      },
    )
  ]

request-IsSound :
    (before : AirlineServer) (reachable : Text → Bool) (nets : List (Text → Ask)) (r : Request)
    (srv : AirlineServer)
    → IsFair r
    → IsConsistent srv
    → IsSound before srv
    → Handled (IsSound before) (store_handler reachable nets r srv)
unfolding store_handler on_paxos_request expire_trans
request-IsSound before reachable nets (create_flight g info) srv p c k =
    create_flight-IsSound before g info srv p k
request-IsSound before reachable nets (get_flight g) srv p c k = (srv, _, refl, k)
request-IsSound before reachable nets (get_all_flights key) srv p c k = (srv, _, refl, k)
request-IsSound before reachable nets (init_trans own args) srv p c k =
    init_trans-IsSound before reachable own args srv p k
request-IsSound before reachable nets (response_trans args) srv p c k =
    response_trans-IsSound before args srv c k
request-IsSound before reachable nets (trans_expired own t) srv p c k = (srv, [], rw (p) refl, k)
request-IsSound before reachable nets (old_trans args) srv p c k = (srv, [], refl, k)
request-IsSound before reachable nets (old_response t d) srv p c k = (srv, [], refl, k)
request-IsSound before reachable nets (paxos_request cmd replyc) srv p c k =
    (_, _, refl, record { slots = k.slots; logs = k.logs; falls = k.falls })

IsFair-IsPrompt : (r : Request) → IsFair r → IsPrompt r
IsFair-IsPrompt (create_flight f info) q = tt
IsFair-IsPrompt (get_flight f) q = tt
IsFair-IsPrompt (get_all_flights key) q = tt
IsFair-IsPrompt (init_trans own args) q = tt
IsFair-IsPrompt (response_trans args) q = tt
IsFair-IsPrompt (trans_expired own t) q = q
IsFair-IsPrompt (old_trans args) q = tt
IsFair-IsPrompt (old_response t d) q = tt
IsFair-IsPrompt (paxos_request cmd replyc) q = tt

-- A consistent server whose flights have no negative slots and whose undecided transactions add none,
-- over any requests with no negative amount or slot and no expiry of its own: all are handled, no
-- flight ever has a negative number of slots, and every flight that was there has kept all its other
-- data and has no more slots than it had.
pub never_oversold :
    (evs : List Event) (srv : AirlineServer)
    → All (λ e. IsFair e.request) evs
    → IsConsistent srv
    → IsSound srv srv
    → Handled (IsSound srv) (run evs srv)
never_oversold evs srv q c s =
    run_induction (IsSound srv) (λ e. IsFair e.request) (λ e. IsFair-IsPrompt e.request)
      (λ e. request-IsSound srv e.reachable e.nets e.request) evs srv q c s
