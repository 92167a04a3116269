-- ===== src/Agency.antt =====
-- contrib/tribimpl/trib-impl.go: the server of a travel agency. What it keeps is in the storage
-- servers, through contrib/libstore, and flights are with the airlines, through contrib/libairline:
-- both are an interface, over a state of the world outside.
pub mod Booked
pub mod Examples
use airline_booking.Prelude.{
  not, if◌then◌else◌, ◌==◌, text_eq, Bool, true, false, ◌&&◌, ◌||◌, Option, none, some, List, [],
  ◌∷◌, ◌++◌, nat_eq, elem, Text, codes,
}
use airline_booking.Airline.Types.{FlightInfo}

-- The status codes that the server sets.
pub data Status : Type 0 where
  ok no_such_user booking_failed exists no_airline not_booked : Status

-- An error of a call that creates a flight: an LspErr with its message, or any other.
pub data CreateError : Type 0 where
  lsp_error : Text → CreateError
  other_error : CreateError

-- What it calls; a Bool says whether the call came back without an error.
pub record Library (S : Type 0) : Type 0 where
  pub get : Text → S → S × Bool
  pub get_list : Text → S → S × Option (List Text)
  pub put : Text → Text → S → S × Bool
  pub append_to_list : Text → Text → S → S × Bool
  pub remove_from_list : Text → Text → S → S × Bool
  pub get_all_flights : (from to date : Text) → S → S × Option (List Text)
  pub get_flight : Text → S → S × Option FlightInfo
  pub make_booking : List Text → (is_remove : Bool) → S → S × Bool
  pub create_flight : FlightInfo → S → S × Option CreateError

-- What an RPC method returns: a reply, or an error.
pub data Reply (A : Type 0) : Type 0 where
  replies : Status → A → Reply A
  fails : Reply A

-- getNewUserKey
abbrev pub new_user_key : Text → Text
new_user_key user = user ++ codes ":n"

-- getUserBookingsKey
abbrev pub bookings_key : Text → Text
bookings_key user = user ++ codes ":b"

-- The loop that looks for a flight of the request among the bookings.
unfoldable pub any_booked : List Text → List Text → Bool
any_booked [] flights = false
any_booked (f ∷ fs) flights = let rest = any_booked fs flights in elem f flights || rest

-- The status of AddFlight after the call.
unfoldable pub create_status : Option CreateError → Status
create_status none = ok
create_status (some other_error) = ok
create_status (some (lsp_error msg)) =
    if msg == codes "Airline doesn't exist"
    then no_airline
    else if msg == codes "Flight already exist"
    then exists
    else ok

-- Where the request needs a booking, and where it needs none.
unfoldable pub same_bool : Bool → Bool → Bool
same_bool b is_remove = if is_remove then b else not b

module _ {S : Type 0} (lib : Library S) where
  -- doesUserExist
  unfoldable pub user_exists : Text → S → S × Bool
  user_exists user s = lib.get (new_user_key user) s

  -- CreateUser
  unfoldable pub create_user : Text → S → S × Reply Unit
  create_user user s =
      let (s', known) = user_exists user s in
      if known
      then (s', replies exists tt)
      else (let (s'', created) = lib.put (new_user_key user) (codes "new_user") s' in
          let (s''', put) = lib.put (bookings_key user) [] s'' in
          (s''', if created && put then replies ok tt else fails))

  -- doGetFlightsFromIds
  unfoldable pub get_flights : List Text → S → S × Option (List FlightInfo)
  get_flights [] s = (s, some [])
  get_flights (f ∷ fs) s =
      let (s', found) = lib.get_flight f s in
      elim found [
        | none ↦ (s', none)
        | some info ↦
            let (s'', rest) = get_flights fs s' in
            (s'', elim rest [ none ↦ none | some infos ↦ some (info ∷ infos) ])
      ]

  -- The reply of ViewFlights and GetBookings once the ids are known.
  unfoldable pub reply_flights : List Text → S → S × Reply (List FlightInfo)
  reply_flights ids s =
      let (s', infos) = get_flights ids s in
      (s', elim infos [ none ↦ fails | some infos ↦ replies ok infos ])

  -- ViewFlights
  unfoldable pub view_flights : (from to date : Text) → S → S × Reply (List FlightInfo)
  view_flights from to date s =
      let (s', ids) = lib.get_all_flights from to date s in
      elim ids [ none ↦ (s', fails) | some ids ↦ reply_flights ids s' ]

  -- GetBookings
  unfoldable pub get_bookings : Text → S → S × Reply (List FlightInfo)
  get_bookings user s =
      let (s', ids) = lib.get_list (bookings_key user) s in
      elim ids [ none ↦ (s', replies no_such_user []) | some ids ↦ reply_flights ids s' ]

  -- The last loop of doBookingTransaction, which writes the user's list.
  unfoldable pub write_bookings : Bool → Text → List Text → S → S × Reply Unit
  write_bookings is_remove key [] s = (s, replies ok tt)
  write_bookings is_remove key (f ∷ fs) s =
      let (s', done) =
        if is_remove then lib.remove_from_list key f s else lib.append_to_list key f s in
      elim done [ true ↦ write_bookings is_remove key fs s' | false ↦ (s', fails) ]

  -- doBookingTransaction after MakeBooking.
  unfoldable pub after_booking : Bool → Bool → Text → List Text → S → S × Reply Unit
  after_booking true is_remove user ids s = write_bookings is_remove (bookings_key user) ids s
  after_booking false is_remove user ids s = (s, replies booking_failed tt)

  -- doBookingTransaction after GetList.
  unfoldable pub after_list : Option (List Text) → Bool → Text → List Text → S → S × Reply Unit
  after_list none is_remove user ids s = (s, replies booking_failed tt)
  after_list (some flights) is_remove user ids s =
      if same_bool (any_booked ids flights) is_remove
      then (let (s', booked) = lib.make_booking ids is_remove s in
          after_booking booked is_remove user ids s')
      else (s, replies (if is_remove then not_booked else exists) tt)

  -- doBookingTransaction after doGetFlightsFromIds.
  unfoldable pub after_flights :
      Option (List FlightInfo) → Bool → Text → List Text → S → S × Reply Unit
  after_flights none is_remove user ids s = (s, replies booking_failed tt)
  after_flights (some infos) is_remove user ids s =
      let (s', flights) = lib.get_list (bookings_key user) s in
      after_list flights is_remove user ids s'

  -- doBookingTransaction after doesUserExist.
  unfoldable pub after_user : Bool → Bool → Text → List Text → S → S × Reply Unit
  after_user false is_remove user ids s = (s, replies no_such_user tt)
  after_user true is_remove user ids s =
      let (s', infos) = get_flights ids s in after_flights infos is_remove user ids s'

  -- doBookingTransaction
  unfoldable pub do_booking : Bool → Text → List Text → S → S × Reply Unit
  do_booking is_remove user ids s =
      let (s', known) = user_exists user s in after_user known is_remove user ids s'

  -- AddBooking and RemoveBooking; both log the first flight, which panics where there is none.
  unfoldable pub booking : Bool → Text → List Text → S → Option (S × Reply Unit)
  booking is_remove user [] s = none
  booking is_remove user (f ∷ fs) s = some (do_booking is_remove user (f ∷ fs) s)

  -- AddFlight
  unfoldable pub add_flight : FlightInfo → S → S × Reply Unit
  add_flight flight s =
      let (s', failed) = lib.create_flight flight s in (s', replies (create_status failed) tt)
