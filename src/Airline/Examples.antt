-- ===== src/Airline/Examples.antt =====
-- contrib/airlineimpl at concrete inputs: a server with the flight "F1" of 5 slots.
use airline_booking.Airline.Participant
use airline_booking.Prelude.{
  ℕ, ◌<◌, ◌≡◌, refl, sym, subst, ◌∙◌, ◌≢◌, ◌↔◌, inl, inr, Bool, true, none, some, List, [], ◌∷◌,
  arith, nat_eq, Bool-cases, All, elem, Distinct, Text, codes, text_beq, text_beq_iff, text_eq,
}
use airline_booking.Prelude.Assoc.{lookup, insert}
use airline_booking.Prelude.Strings.{split, split_from, is_prefix}
use airline_booking.Airline.Types.{
  commit, abort, trans_init, FlightInfo, TranArgs, TransLog, AirlineServer, Effect, create_flight,
  init_trans, response_trans,
}
use airline_booking.Airline.Participant.{
  Ask, answered, ask_members, lock_flights, flight_ids, flight_log,
}
use airline_booking.Airline.Participant.Vote.{CanBook, vote_iff}
use airline_booking.Airline.Server.{Event, run, init}
use airline_booking.Airline.Server.Consistency.{IsConsistent, Held}
use airline_booking.Airline.Server.Total.{Handled}
use airline_booking.Airline.Server.Run.{run_total}
use airline_booking.Airline.Server.Leak.{IsLeaked}
use airline_booking.Airline.Server.Stuck.{leaked_forever, abort_leaks}
use airline_booking.Airline.Server.Slots.{IsSound}
use airline_booking.Airline.Server.Seats.{never_oversold}
use airline_booking.Airline.Server.Decision.{IsSettled, Decided, commit_decision, abort_decision}
use airline_booking.Airline.Server.Booked.{IsBooked, booked}
use airline_booking.Airline.Participant.Booking.{flights_of}

abbrev pub f1 : FlightInfo
f1 = record {
  id = codes "F1";
  departure = codes "d";
  from = codes "a";
  to = codes "b";
  capacity = 9;
  slot = 5;
  cost = 100;
}

abbrev pub server : AirlineServer
server = record (init (codes "AA") (codes "h")) { flight_buf = (codes "F1", f1) ∷ [] }

abbrev pub args_of : Text → Text → ℕ → ℕ → TranArgs
args_of t fs n v = record {
  tran_type = trans_init;
  tran_id = t;
  flight_id = fs;
  amount = n;
  ppt_list = [];
  vote = v;
  tm = codes "m";
}

abbrev reaches : Text → Bool
reaches m = true

server-IsConsistent : IsConsistent server
unfolding lookup text_beq
server-IsConsistent = record { held = λ t ls e. cc; disjoint = λ t u ls ms ne e f. cc }

server-CanBook :
    CanBook server.flight_buf
      (args_of (codes "t") (codes "F1") 2 0)
      server.lock_buf
      (codes "F1" ∷ [])
unfolding lookup text_beq
server-CanBook = ((record { info = f1; known = refl; seats = refl; free = refl }, tt), (refl, tt))

one_flight : flight_ids (args_of (codes "t") (codes "F1") 2 0) ≡ codes "F1" ∷ []
unfolding split split_from is_prefix
one_flight = refl

booked_example :
    (srv1 : AirlineServer) × (srv2 : AirlineServer) × (es : List Effect) × (Participant.init_trans
        reaches true
        (args_of (codes "t") (codes "F1") 2 0)
        server
      ≡ some (srv1, es))
    × (Participant.response_trans (args_of (codes "t") [] 0 commit) srv1 ≡ some (srv2, []))
    × All (IsBooked server srv2 2) (flight_ids (args_of (codes "t") (codes "F1") 2 0))
booked_example =
    booked reaches true (args_of (codes "t") (codes "F1") 2 0) (args_of (codes "t") [] 0 commit)
      server server-IsConsistent refl
      (subst (CanBook server.flight_buf (args_of (codes "t") (codes "F1") 2 0) server.lock_buf)
        (sym one_flight) server-CanBook)
      refl refl

vote_iff_example :
    ((lock_flights server.flight_buf
        (args_of (codes "t") (codes "F1") 2 0)
        (codes "F1" ∷ [])
        []).vote
      ≡ commit)
    ↔ CanBook server.flight_buf (args_of (codes "t") (codes "F1") 2 0) [] (codes "F1" ∷ [])
vote_iff_example =
    vote_iff server.flight_buf (args_of (codes "t") (codes "F1") 2 0) (codes "F1" ∷ []) []

-- A booking of two slots, its commit, and one more flight.
abbrev requests : List Event
requests =
    record {
      reachable = reaches;
      nets = [];
      request = init_trans true (args_of (codes "t") (codes "F1") 2 0);
    }
    ∷ record {
      reachable = reaches;
      nets = [];
      request = response_trans (args_of (codes "t") [] 0 commit);
    }
    ∷ record { reachable = reaches; nets = []; request = create_flight (codes "F2") f1 }
    ∷ []

run_total_example : Handled IsConsistent (run requests server)
run_total_example = run_total requests server (tt, (tt, (tt, tt))) server-IsConsistent

server-IsSound : IsSound server server
unfolding lookup text_beq
server-IsSound = record {
  slots = λ g info e. elim (Bool-cases (text_beq (codes "F1") g)) [
    | inl same ↦
        let one : f1 ≡ info = ground (arith, same, e) in
        subst (λ i. i.slot < 0x8000_0000_0000_0000) one (omega arith)
    | inr other ↦ ground (arith, other, e)
  ];
  logs = λ t ls e. cc;
  falls = λ g info e. (info.slot, e, omega arith);
}

never_oversold_example : Handled (IsSound server) (run requests server)
never_oversold_example =
    never_oversold requests server (omega arith, (tt, (omega arith, tt))) server-IsConsistent
      server-IsSound

-- "F1" can be locked, "F9" is unknown: the transaction aborts, and "F1" stays locked.
abbrev half_known : TranArgs
half_known = args_of (codes "t") (codes "F1:F9") 2 0

half_locked :
    ((lock_flights server.flight_buf half_known (flight_ids half_known) []).vote ≡ abort)
    × (lookup
          (codes "F1")
          (lock_flights server.flight_buf half_known (flight_ids half_known) []).locks
        ≡ some true)
unfolding lock_flights lookup insert split split_from is_prefix text_beq
half_locked = (refl, refl)

abort_leaks_example :
    Handled (IsLeaked (codes "F1")) (Participant.init_trans reaches true half_known server)
unfolding lookup text_beq
abort_leaks_example =
    abort_leaks reaches true half_known server (codes "F1") server-IsConsistent
      (λ e. absurd (omega (arith, sym half_locked.0 ∙ e))) refl half_locked.1

abbrev leaking : AirlineServer
leaking = record server { lock_buf = (codes "F1", true) ∷ [] }

leaking-IsConsistent : IsConsistent leaking
unfolding lookup text_beq
leaking-IsConsistent = record { held = λ t ls e. cc; disjoint = λ t u ls ms ne e f. cc }

leaking-IsLeaked : IsLeaked (codes "F1") leaking
unfolding lookup text_beq
leaking-IsLeaked = record { locked = refl; unowned = λ t ls e. cc }

leaked_forever_example :
    (srv' : AirlineServer) × (es : List Effect) × (run requests leaking ≡ some (srv', es))
    × ((args : TranArgs)
        → elem (codes "F1") (flight_ids args) ≡ true
        → (lock_flights srv'.flight_buf args (flight_ids args) srv'.lock_buf).vote ≢ commit)
leaked_forever_example =
    leaked_forever (codes "F1") requests leaking (tt, (tt, (tt, tt))) leaking-IsConsistent
      leaking-IsLeaked

-- "t" has booked two slots, and waits for the decision.
abbrev booking_log : TransLog
booking_log = flight_log (args_of (codes "t") (codes "F1") 2 0) (codes "F1") f1

abbrev waiting : AirlineServer
waiting = record server {
  lock_buf = (codes "F1", true) ∷ [];
  log_buf = (codes "t", booking_log ∷ []) ∷ [];
}

waiting_only :
    (t : Text) (ls : List TransLog)
    → lookup t waiting.log_buf ≡ some ls
    → (codes "t" ≡ t) × (booking_log ∷ [] ≡ ls)
unfolding lookup
waiting_only t ls e = elim (Bool-cases (text_beq (codes "t") t)) [
  | inl same ↦ ((text_beq_iff (codes "t") t).0 same, ground (arith, same, e))
  | inr other ↦ ground (arith, other, e)
]

booking-Held : All (Held waiting) (booking_log ∷ []) × Distinct (codes "F1" ∷ [])
unfolding lookup text_beq
booking-Held =
    ((record { locked = refl; info = f1; known = refl; unchanged = refl }, tt), (refl, tt))

waiting-IsConsistent : IsConsistent waiting
waiting-IsConsistent = record {
  held = λ t ls e.
      subst (λ ks. All (Held waiting) ks × Distinct (flights_of ks)) (waiting_only t ls e).1
        booking-Held;
  disjoint =
      λ t u ls ms ne e f. absurd (ne (sym (waiting_only t ls e).0 ∙ (waiting_only u ms f).0));
}

commit_decision_example :
    (srv' : AirlineServer) × (Participant.response_trans (args_of (codes "t") [] 0 commit) waiting
      ≡ some (srv', []))
    × All (IsSettled waiting srv') (booking_log ∷ [])
    × Decided (codes "t") commit (booking_log ∷ []) waiting srv'
unfolding lookup text_beq
commit_decision_example =
    commit_decision (args_of (codes "t") [] 0 commit) (booking_log ∷ []) waiting
      waiting-IsConsistent refl refl

abort_decision_example :
    (srv' : AirlineServer) × (Participant.response_trans (args_of (codes "t") [] 0 abort) waiting
      ≡ some (srv', []))
    × (srv'.flight_buf ≡ waiting.flight_buf)
    × All (λ l. lookup l.flight_id srv'.lock_buf ≡ none) (booking_log ∷ [])
    × Decided (codes "t") abort (booking_log ∷ []) waiting srv'
unfolding lookup text_beq
abort_decision_example =
    abort_decision (args_of (codes "t") [] 0 abort) (booking_log ∷ []) waiting
      (λ e. absurd (omega (arith, e))) refl
