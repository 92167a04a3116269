-- ===== src/Airline/Server.antt =====
-- contrib/airlineimpl/airlineimpl.go: storeHandler, which takes one request after another.
pub mod Consistency
pub mod Keep
pub mod Total
pub mod Run
pub mod Leak
pub mod Stuck
pub mod Slots
pub mod Seats
pub mod Decision
pub mod Booked
pub mod Queries
use airline_booking.Prelude.{
  ℕ, ◌+◌, Bool, true, false, Option, none, some, List, [], ◌∷◌, ◌++◌, nat_eq, Text, codes, text_eq,
}
use airline_booking.Prelude.Assoc.{lookup, insert}
use airline_booking.Prelude.Strings.{split, itoa}
use airline_booking.Airline.Types.{
  FlightInfo, AirlineServer, status, flight, flights, Effect, reply, propose_command, Request,
  create_flight, get_flight, get_all_flights, init_trans, response_trans, trans_expired, old_trans,
  old_response, paxos_request,
}
use airline_booking.Airline.Participant.{Result, Ask}
use airline_booking.Airline.Participant

-- NewAirlineServer, less its connections.
abbrev pub init : Text → Text → AirlineServer
init airline_id myhostport = record {
  cmd_no = 0;
  airline_id = airline_id;
  myhostport = myhostport;
  log_buf = [];
  flight_buf = [];
  flight_query_buf = [];
  lock_buf = [];
  old_log = [];
  old_replyc_map = [];
}

abbrev pub get_all_flights_key : Text → Text → Text → Text
get_all_flights_key from to date = from ++ (codes ":" ++ (to ++ (codes ":" ++ date)))

-- The flights of one query key, joined by ";".
unfoldable pub add_flight_id : Text → Option Text → Text
add_flight_id f none = f
add_flight_id f (some vq) = vq ++ (codes ";" ++ f)

abbrev pub query_key : FlightInfo → Text
query_key info = get_all_flights_key info.from info.to info.departure

unfoldable pub store_flight : Text → FlightInfo → AirlineServer → AirlineServer
unfolding add_flight_id
store_flight f info srv = record srv {
  flight_buf = insert f info srv.flight_buf;
  flight_query_buf =
      insert (query_key info) (add_flight_id f (lookup (query_key info) srv.flight_query_buf))
        srv.flight_query_buf;
}

unfoldable pub on_create_flight : Text → FlightInfo → AirlineServer → Result
unfolding store_flight
on_create_flight f info srv = elim (lookup f srv.flight_buf) [
  | some _ ↦ some (srv, reply (status false) ∷ [])
  | none ↦ some (store_flight f info srv, reply (status true) ∷ [])
]

unfoldable pub flight_list : Option Text → List Text
flight_list none = []
flight_list (some vq) = split vq (codes ";")

unfoldable pub on_paxos_request : Text → ℕ → AirlineServer → Result
on_paxos_request cmd replyc srv = some (
  record srv {
    cmd_no = srv.cmd_no + 1;
    old_replyc_map = insert srv.cmd_no replyc srv.old_replyc_map;
  },
  propose_command (itoa srv.cmd_no ++ (codes "@" ++ cmd)) ∷ [],
)

-- What the network does: the managers that can be reached, and the answers to expireTrans.
module _ (reachable : Text → Bool) (nets : List (Text → Ask)) where
  -- TRANS_OLD and TRANS_OLD_RESPONSE are no cases of the switch.
  unfoldable pub store_handler : Request → AirlineServer → Result
  unfolding on_create_flight flight_list on_paxos_request
  store_handler (paxos_request cmd replyc) srv = on_paxos_request cmd replyc srv
  store_handler (init_trans own args) srv = Participant.init_trans reachable own args srv
  store_handler (response_trans args) srv = Participant.response_trans args srv
  store_handler (trans_expired own t) srv = Participant.expire_trans nets own t srv
  store_handler (create_flight f info) srv = on_create_flight f info srv
  store_handler (get_flight f) srv = some (srv, reply (flight (lookup f srv.flight_buf)) ∷ [])
  store_handler (get_all_flights key) srv =
      some (srv, reply (flights (flight_list (lookup key srv.flight_query_buf))) ∷ [])
  store_handler (old_trans args) srv = some (srv, [])
  store_handler (old_response t d) srv = some (srv, [])

-- The server over a sequence of requests, each with what the network does for it.
pub record Event : Type 0 where
  pub reachable : Text → Bool
  pub nets : List (Text → Ask)
  pub request : Request

unfoldable pub append_effects : List Effect → Result → Result
append_effects es none = none
append_effects es (some (srv, fs)) = some (srv, es ++ fs)

unfoldable pub run : List Event → AirlineServer → Result
unfolding append_effects
run [] srv = some (srv, [])
run (e ∷ evs) srv = elim (store_handler e.reachable e.nets e.request srv) [
  | none ↦ none
  | some (srv', es) ↦ append_effects es (run evs srv')
]
