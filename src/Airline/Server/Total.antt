-- ===== src/Airline/Server/Total.antt =====
-- contrib/airlineimpl: storeHandler answers every request but an expiry, and keeps the logs consistent.
use airline_booking.Prelude.{
  ◌≡◌, refl, ap, inl, inr, Bool, true, false, none, some, List, [], ◌∷◌, ◌++◌, arith, nat_beq,
  nat_eq, Bool-cases, Option-cases, All, Text, text_beq_iff, text_eq,
}
use airline_booking.Prelude.Assoc.{lookup, delete, lookup-insert}
use airline_booking.Airline.Types.{
  commit, FlightInfo, TranArgs, TransLog, AirlineServer, Effect, Request, create_flight, get_flight,
  get_all_flights, init_trans, response_trans, trans_expired, old_trans, old_response,
  paxos_request, reply, status,
}
use airline_booking.Airline.Participant.{
  Result, Ask, Locking, lock_flights, store_logs, send_vote, release_logs, apply_logs, finish,
  flight_ids, ask_members, ask_and_report, expire_trans, call_failed, unreachable, answered,
}
use airline_booking.Airline.Participant
use airline_booking.Airline.Participant.Booking.{locks_kept, logs_sound}
use airline_booking.Airline.Participant.Outcome.{Known, apply_logs_total, lookup-release_logs}
use airline_booking.Airline.Server.{store_flight, on_create_flight, on_paxos_request, store_handler}
use airline_booking.Airline.Server.Consistency.{Held, IsConsistent, Held-kept, locking-IsConsistent}
use airline_booking.Airline.Server.Keep.{stored-IsConsistent, ended-IsConsistent}

-- The handler comes back, with a server of which `P` holds.
abbrev pub Handled : (AirlineServer → Type 0) → Result → Type 0
Handled P r = (srv : AirlineServer) × (es : List Effect) × (r ≡ some (srv, es)) × P srv

store_logs-IsConsistent :
    (args : TranArgs) (fs : List Text) (srv : AirlineServer)
    → IsConsistent srv
    → let r = lock_flights srv.flight_buf args fs srv.lock_buf in
      IsConsistent (store_logs args r (record srv { lock_buf = r.locks })).0
unfolding store_logs
store_logs-IsConsistent args fs srv c =
    let r = lock_flights srv.flight_buf args fs srv.lock_buf in
    let kept : (g : Text) → lookup g srv.lock_buf ≡ some true → lookup g r.locks ≡ some true =
      λ g h. locks_kept srv.flight_buf args fs srv.lock_buf g true h in
    elim (Bool-cases (nat_beq r.vote commit)) [
      | inl hit ↦ rw (hit) (
          stored-IsConsistent srv args args.tran_id r.logs r.locks kept
            (logs_sound srv.flight_buf args fs srv.lock_buf) c)
      | inr miss ↦ rw (miss) (locking-IsConsistent srv r.locks kept c)
    ]

init_trans-Handled :
    (reachable : Text → Bool) (own : Bool) (args : TranArgs) (srv : AirlineServer)
    → IsConsistent srv
    → Handled IsConsistent (Participant.init_trans reachable own args srv)
unfolding Participant.init_trans
init_trans-Handled reachable own args srv c =
    let r = lock_flights srv.flight_buf args (flight_ids args) srv.lock_buf in
    elim (Bool-cases (reachable args.tm)) [
      | inl hit ↦ (
        (store_logs args r (record srv { lock_buf = r.locks })).0,
        send_vote own srv args r.vote ++ (store_logs args r (record srv { lock_buf = r.locks })).1,
        rw (hit) refl,
        store_logs-IsConsistent args (flight_ids args) srv c,
      )
      | inr miss ↦ (
        record srv { lock_buf = r.locks },
        [],
        rw (miss) refl,
        locking-IsConsistent srv r.locks
            (λ g h. locks_kept srv.flight_buf args (flight_ids args) srv.lock_buf g true h) c,
      )
    ]

pub Held-Known : (srv : AirlineServer) (ls : List TransLog) → All (Held srv) ls → All (Known srv) ls
Held-Known srv [] a = tt
Held-Known srv (l ∷ ls) a = ((a.0.info, a.0.known), Held-Known srv ls a.1)

response_trans-Handled :
    (args : TranArgs) (srv : AirlineServer)
    → IsConsistent srv
    → Handled IsConsistent (Participant.response_trans args srv)
unfolding Participant.response_trans
response_trans-Handled args srv c = elim (Option-cases (lookup args.tran_id srv.log_buf)) [
  | inl unknown ↦ (srv, [], rw (unknown, Participant.response_trans), c)
  | inr (ls, here) ↦ elim (Bool-cases (nat_beq args.vote commit)) [
    | inl hit ↦
        let (srv', e, k) =
          apply_logs_total ls srv (Held-Known srv ls (c.held args.tran_id ls here).0) in
        (
          finish args.tran_id args.vote srv',
          [],
          rw (here, Participant.response_trans, hit, e),
          ended-IsConsistent args.tran_id ls srv (finish args.tran_id args.vote srv') here
              (ap (delete args.tran_id) k.same_logs)
              (λ g absent. (k.same_lock g absent, k.same_flight g absent)) c,
        )
    | inr miss ↦ (
      finish args.tran_id args.vote (record srv { lock_buf = release_logs ls srv.lock_buf }),
      [],
      rw (here, Participant.response_trans, miss),
      ended-IsConsistent args.tran_id ls srv _ here refl
          (λ g absent. (ground (arith, lookup-release_logs ls srv.lock_buf g, absent), refl)) c,
    )
  ]
]

-- A new flight is none of those that are held.
store_flight-IsConsistent :
    (f : Text) (info : FlightInfo) (srv : AirlineServer)
    → lookup f srv.flight_buf ≡ none
    → IsConsistent srv
    → IsConsistent (store_flight f info srv)
unfolding store_flight
store_flight-IsConsistent f info srv new c = record {
  held = λ t ls e. (keep ls (c.held t ls e).0, (c.held t ls e).1);
  disjoint = c.disjoint;
}
  where
    keep : (ls : List TransLog) → All (Held srv) ls → All (Held (store_flight f info srv)) ls
    keep [] a = tt
    keep (l ∷ ls) a = (
      record {
        locked = a.0.locked;
        info = a.0.info;
        known = ground (
          arith,
          lookup-insert f l.flight_id info srv.flight_buf,
          a.0.known,
          new,
          text_beq_iff f l.flight_id,
        );
        unchanged = a.0.unchanged;
      },
      keep ls a.1,
    )

create_flight-Handled :
    (f : Text) (info : FlightInfo) (srv : AirlineServer)
    → IsConsistent srv
    → Handled IsConsistent (on_create_flight f info srv)
unfolding on_create_flight
create_flight-Handled f info srv c = elim (Option-cases (lookup f srv.flight_buf)) [
  | inl new ↦ (
    store_flight f info srv,
    reply (status true) ∷ [],
    rw (new, on_create_flight),
    store_flight-IsConsistent f info srv new c,
  )
  | inr (_, old) ↦ (srv, reply (status false) ∷ [], rw (old, on_create_flight), c)
]

-- All requests but the expiry of a transaction that this replica started.
abbrev pub IsPrompt : Request → Type 0
IsPrompt (trans_expired own t) = own ≡ false
IsPrompt _ = Unit

-- A consistent server answers every request, an expiry that it does not own included, without a
-- panic, and is consistent after it.
pub store_handler_total :
    (reachable : Text → Bool) (nets : List (Text → Ask)) (r : Request) (srv : AirlineServer)
    → IsPrompt r
    → IsConsistent srv
    → Handled IsConsistent (store_handler reachable nets r srv)
unfolding store_handler on_paxos_request expire_trans
store_handler_total reachable nets (create_flight f info) srv p c =
    create_flight-Handled f info srv c
store_handler_total reachable nets (get_flight f) srv p c = (srv, _, refl, c)
store_handler_total reachable nets (get_all_flights key) srv p c = (srv, _, refl, c)
store_handler_total reachable nets (init_trans own args) srv p c =
    init_trans-Handled reachable own args srv c
store_handler_total reachable nets (response_trans args) srv p c = response_trans-Handled args srv c
store_handler_total reachable nets (trans_expired own t) srv p c = (srv, [], rw (p) refl, c)
store_handler_total reachable nets (old_trans args) srv p c = (srv, [], refl, c)
store_handler_total reachable nets (old_response t d) srv p c = (srv, [], refl, c)
store_handler_total reachable nets (paxos_request cmd replyc) srv p c = (
  _,
  _,
  refl,
  record {
    held = λ t ls e. (Held-kept srv _ ls (all_same ls) (c.held t ls e).0, (c.held t ls e).1);
    disjoint = c.disjoint;
  },
)
  where
    all_same :
        (ls : List TransLog)
        → All
            (λ l.
              (lookup l.flight_id srv.lock_buf ≡ lookup l.flight_id srv.lock_buf)
              × (lookup l.flight_id srv.flight_buf ≡ lookup l.flight_id srv.flight_buf))
            ls
    all_same [] = tt
    all_same (l ∷ ls) = ((refl, refl), all_same ls)
