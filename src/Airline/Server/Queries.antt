-- ===== src/Airline/Server/Queries.antt =====
-- contrib/airlineimpl/airlineimpl.go: the flights of a query.
use airline_booking.Prelude.{
  ◌≡◌, refl, ap, ◌∙◌, inl, inr, Bool, true, false, Option, none, some, List, [], ◌∷◌, ◌++◌,
  if◌then◌else◌, ◌==◌, nat_eq, Bool-cases, Text, codes, text_beq, text_beq_iff, text_eq,
}
use airline_booking.Prelude.Assoc.{lookup, lookup-insert}
use airline_booking.Prelude.Strings.{split, split_from, is_prefix, occurs, split_from_whole}
use airline_booking.Airline.Types.{FlightInfo, AirlineServer, reply, status, create_flight}
use airline_booking.Airline.Participant.{Ask}
use airline_booking.Airline.Server.{
  add_flight_id, query_key, store_flight, on_create_flight, flight_list, store_handler,
}

split_from-snoc :
    (cur vq f : Text)
    → occurs (codes ";") f ≡ false
    → split_from (codes ";") 0 cur (vq ++ (codes ";" ++ f))
      ≡ split_from (codes ";") 0 cur vq ++ f ∷ []
unfolding split_from is_prefix
split_from-snoc cur [] f h = ap (λ fs. cur ∷ fs) (split_from_whole (codes ";") [] f h)
split_from-snoc cur (c ∷ vq) f h = elim (Bool-cases (is_prefix (codes ";") (c ∷ vq))) [
  | inl hit ↦ rw (hit, split_from) (ap (λ fs. cur ∷ fs) (split_from-snoc [] vq f h))
  | inr miss ↦ rw (miss, split_from) (split_from-snoc (cur ++ c ∷ []) vq f h)
]

module _ (f : Text) (whole : occurs (codes ";") f ≡ false) where
  flight_list-add :
      (o : Option Text) → flight_list (some (add_flight_id f o)) ≡ flight_list o ++ f ∷ []
  unfolding flight_list add_flight_id split
  flight_list-add none = split_from_whole (codes ";") [] f whole
  flight_list-add (some vq) = split_from-snoc [] vq f whole

  flight_list-if :
      (b : Bool) (o o' : Option Text)
      → (b ≡ true → o ≡ o')
      → flight_list (if b then some (add_flight_id f o) else o')
        ≡ (if b then flight_list o' ++ f ∷ [] else flight_list o')
  flight_list-if true o o' e = flight_list-add o ∙ ap (λ x. flight_list x ++ f ∷ []) (e refl)
  flight_list-if false o o' e = refl

-- CREATE_FLIGHT of an unknown flight whose ID has no ";" appends the flight to the answer of
-- GET_ALL_FLIGHTS for its own airports and day, and changes no other answer.
pub create_flight_query :
    (reachable : Text → Bool) (nets : List (Text → Ask)) (f : Text) (info : FlightInfo)
    (srv : AirlineServer)
    → lookup f srv.flight_buf ≡ none
    → occurs (codes ";") f ≡ false
    → (srv' : AirlineServer) × (store_handler reachable nets (create_flight f info) srv
        ≡ some (srv', reply (status true) ∷ []))
      × ((key : Text)
          → flight_list (lookup key srv'.flight_query_buf) ≡ (
              if query_key info == key
              then flight_list (lookup key srv.flight_query_buf) ++ f ∷ []
              else flight_list (lookup key srv.flight_query_buf)))
unfolding store_handler on_create_flight store_flight
create_flight_query reachable nets f info srv new h = (
  store_flight f info srv,
  rw (new, on_create_flight),
  λ key.
      ap flight_list (
        lookup-insert (query_key info) key
          (add_flight_id f (lookup (query_key info) srv.flight_query_buf)) srv.flight_query_buf)
      ∙ flight_list-if f h (text_beq (query_key info) key)
          (lookup (query_key info) srv.flight_query_buf) (lookup key srv.flight_query_buf)
          (λ same.
            ap (λ k. lookup k srv.flight_query_buf) ((text_beq_iff (query_key info) key).0 same)),
)
