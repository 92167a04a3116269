-- ===== src/Agency/Examples.antt =====
-- A booking of contrib/tribimpl/trib-impl.go at a storage of one user.
use airline_booking.Prelude.{
  text_beq, ◌≡◌, refl, Bool, true, false, none, some, List, [], ◌∷◌, ◌++◌, nat_eq, elem, Text,
  codes, text_eq,
}
use airline_booking.Airline.Types.{FlightInfo}
use airline_booking.Store.HashList.Sequence.{without}
use airline_booking.Agency.{
  Library, fails, any_booked, same_bool, user_exists, get_flights, write_bookings, after_booking,
  after_list, after_flights, after_user, do_booking,
}
use airline_booking.Agency.Booked.{Calls, lists, books, writes, do_booking-Calls}

abbrev flight : FlightInfo
flight = record {
  id = codes "a-1";
  departure = codes "d";
  from = codes "x";
  to = codes "y";
  capacity = 3;
  slot = 2;
  cost = 10;
}

abbrev Written : Type 0
Written = List Text × Bool

abbrev when : Bool → Written → Written → Written
when true v w = v
when false v w = w

-- The list of the only user; every flight is known and every booking succeeds.
abbrev one_user : Library (List Text)
one_user = record {
  get = λ k s. (s, true);
  get_list = λ k s. (s, some s);
  put = λ k v s. (s, true);
  append_to_list = λ k v s. when (elem v s) (s, false) (s ++ v ∷ [], true);
  remove_from_list = λ k v s. when (elem v s) (without v s, true) (s, false);
  get_all_flights = λ a b c s. (s, some []);
  get_flight = λ f s. (s, some flight);
  make_booking = λ fs b s. (s, true);
  create_flight = λ f s. (s, none);
}

abbrev booked : List Text
booked = codes "a-1" ∷ codes "a-2" ∷ []

abbrev ids : List Text
ids = codes "a-1" ∷ codes "a-3" ∷ []

abbrev key : Text
key = codes "u:b"

-- A removal of a booked and an unbooked flight.
do_booking-Calls_example : Calls true key ids fails (
    lists key (some booked)
    ∷ books ids true true
    ∷ writes true key (codes "a-1") true
    ∷ writes true key (codes "a-3") false
    ∷ [])
unfolding do_booking user_exists after_user after_flights after_list after_booking write_bookings
    get_flights any_booked same_bool without text_beq
do_booking-Calls_example = do_booking-Calls one_user true (codes "u") ids booked

-- A removal of a booked and an unbooked flight passes the check, and fails when the first has gone.
removal_example : do_booking one_user true (codes "u") ids booked ≡ (codes "a-2" ∷ [], fails)
unfolding do_booking user_exists after_user after_flights after_list after_booking write_bookings
    get_flights any_booked same_bool without text_beq
removal_example = refl
