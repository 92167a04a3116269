-- ===== src/Airline/Server/Stuck.antt =====
-- contrib/airlineimpl/participant.go: an aborted transaction can leave a flight that is locked for good.
use airline_booking.Prelude.{
  ◌≡◌, refl, ap, ◌∙◌, ◌≢◌, inl, inr, Bool, true, false, none, some, List, [], ◌∷◌, ◌++◌, arith,
  nat_beq, nat_beq_iff, nat_eq, Bool-cases, All, elem, Text, text_beq, text_beq_iff, text_eq,
}
use airline_booking.Prelude.Assoc.{Assoc, lookup}
use airline_booking.Airline.Types.{
  commit, FlightInfo, TranArgs, AirlineServer, Effect, Request, create_flight, get_flight,
  get_all_flights, init_trans, response_trans, trans_expired, old_trans, old_response,
  paxos_request,
}
use airline_booking.Airline.Participant.{
  Ask, lock_flights, store_logs, expire_trans, flight_ids, send_vote,
}
use airline_booking.Airline.Participant
use airline_booking.Airline.Participant.Vote.{Bookable, vote_iff}
use airline_booking.Airline.Server.{store_handler, on_paxos_request, Event, run}
use airline_booking.Airline.Server.Consistency.{IsConsistent, Held-not_logged}
use airline_booking.Airline.Server.Total.{Handled, IsPrompt}
use airline_booking.Airline.Server.Run.{run_induction}
use airline_booking.Airline.Server.Leak.{
  IsLeaked, init_trans-IsLeaked, response_trans-IsLeaked, create_flight-IsLeaked,
}

request-IsLeaked :
    (f : Text) (reachable : Text → Bool) (nets : List (Text → Ask)) (r : Request)
    (srv : AirlineServer)
    → IsPrompt r
    → IsConsistent srv
    → IsLeaked f srv
    → Handled (IsLeaked f) (store_handler reachable nets r srv)
unfolding store_handler on_paxos_request expire_trans
request-IsLeaked f reachable nets (create_flight g info) srv p c k =
    create_flight-IsLeaked f g info srv k
request-IsLeaked f reachable nets (get_flight g) srv p c k = (srv, _, refl, k)
request-IsLeaked f reachable nets (get_all_flights key) srv p c k = (srv, _, refl, k)
request-IsLeaked f reachable nets (init_trans own args) srv p c k =
    init_trans-IsLeaked f reachable own args srv k
request-IsLeaked f reachable nets (response_trans args) srv p c k =
    response_trans-IsLeaked f args srv c k
request-IsLeaked f reachable nets (trans_expired own t) srv p c k = (srv, [], rw (p) refl, k)
request-IsLeaked f reachable nets (old_trans args) srv p c k = (srv, [], refl, k)
request-IsLeaked f reachable nets (old_response t d) srv p c k = (srv, [], refl, k)
request-IsLeaked f reachable nets (paxos_request cmd replyc) srv p c k =
    (_, _, refl, record { locked = k.locked; unowned = k.unowned })

cannot_book :
    (flights : Assoc Text FlightInfo) (args : TranArgs) (locks : Assoc Text Bool) (f : Text)
    (fs : List Text)
    → lookup f locks ≡ some true
    → elem f fs ≡ true
    → All (Bookable flights args locks) fs
    → ⊥
cannot_book flights args locks f [] h m a = cc
cannot_book flights args locks f (g ∷ fs) h m a = elim (Bool-cases (text_beq g f)) [
  | inl same ↦
      let here : lookup g locks ≡ some true =
        ap (λ k. lookup k locks) ((text_beq_iff g f).0 same) ∙ h in
      cc (here, a.0.free)
  | inr other ↦ cannot_book flights args locks f fs h (ground (arith, other, m)) a.1
]

-- A consistent server with a locked flight that no undecided transaction logs: whatever requests it
-- gets, expiries of transactions of its own apart, it handles them, and then it still votes against
-- every transaction that names the flight.
pub leaked_forever :
    (f : Text) (evs : List Event) (srv : AirlineServer)
    → All (λ e. IsPrompt e.request) evs
    → IsConsistent srv
    → IsLeaked f srv
    → (srv' : AirlineServer) × (es : List Effect) × (run evs srv ≡ some (srv', es))
      × ((args : TranArgs)
          → elem f (flight_ids args) ≡ true
          → (lock_flights srv'.flight_buf args (flight_ids args) srv'.lock_buf).vote ≢ commit)
leaked_forever f evs srv p c k =
    let (srv', es, e, k') =
      run_induction (IsLeaked f) (λ e. IsPrompt e.request) (λ e q. q)
        (λ e. request-IsLeaked f e.reachable e.nets e.request) evs srv p c k in
    (
      srv',
      es,
      e,
      λ args m v.
          cannot_book srv'.flight_buf args srv'.lock_buf f (flight_ids args) k'.locked m
            ((vote_iff srv'.flight_buf args (flight_ids args) srv'.lock_buf).0 v).0,
    )

-- initTrans on a consistent server that votes ABORT: a flight that was free before and is locked after
-- it is in the logs of no undecided transaction, so that no decision ever unlocks it.
pub abort_leaks :
    (reachable : Text → Bool) (own : Bool) (args : TranArgs) (srv : AirlineServer) (f : Text)
    → IsConsistent srv
    → (lock_flights srv.flight_buf args (flight_ids args) srv.lock_buf).vote ≢ commit
    → lookup f srv.lock_buf ≡ none
    → lookup f (lock_flights srv.flight_buf args (flight_ids args) srv.lock_buf).locks ≡ some true
    → Handled (IsLeaked f) (Participant.init_trans reachable own args srv)
unfolding Participant.init_trans store_logs
abort_leaks reachable own args srv f c refuses free locked =
    let r = lock_flights srv.flight_buf args (flight_ids args) srv.lock_buf in
    let off : nat_beq r.vote commit ≡ false = elim (Bool-cases (nat_beq r.vote commit)) [
      | inl hit ↦ elim (refuses ((nat_beq_iff r.vote commit).0 hit)) [ ]
      | inr miss ↦ miss
    ] in
    let leaked : IsLeaked f (record srv { lock_buf = r.locks }) = record {
      locked = locked;
      unowned = λ t ls e. Held-not_logged srv args r.locks f ls free (c.held t ls e).0;
    } in
    elim (Bool-cases (reachable args.tm)) [
      | inl hit ↦ (
        record srv { lock_buf = r.locks },
        send_vote own srv args r.vote ++ [],
        rw (hit, off) refl,
        leaked,
      )
      | inr miss ↦ (record srv { lock_buf = r.locks }, [], rw (miss) refl, leaked)
    ]
