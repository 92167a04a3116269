-- ===== src/Airline/Participant/Booking.antt =====
-- contrib/airlineimpl/participant.go: the locks and the logs that the loop of initTrans leaves.
use airline_booking.Prelude.{
  ◌≡◌, refl, sym, ap, subst, ◌∙◌, inl, inr, Bool, true, false, none, some, List, [], ◌∷◌, arith,
  nat_eq, All, elem, Distinct, Text, text_beq_iff, text_eq,
}
use airline_booking.Prelude.Assoc.{Assoc, lookup, insert, lookup-insert}
use airline_booking.Prelude.Words.{sub64}
use airline_booking.Airline.Types.{FlightInfo, TranArgs, TransLog}
use airline_booking.Airline.Participant.{lock_flights}
use airline_booking.Airline.Participant.Vote.{Bookable, lock-cases, lock_flights-free}

abbrev pub flights_of : List TransLog → List Text
flights_of [] = []
flights_of (l ∷ ls) = l.flight_id ∷ flights_of ls

-- A logged flight: locked by the loop, with the slots that it has and those that it shall have.
pub record Logged (flights : Assoc Text FlightInfo) (args : TranArgs)
    (locks locks' : Assoc Text Bool) (l : TransLog) : Type 0 where
  pub booked : Bookable flights args locks l.flight_id
  pub taken : lookup l.flight_id locks' ≡ some true
  pub before : l.old ≡ booked.info.slot
  pub after : l.new ≡ sub64 booked.info.slot args.amount

module _ (flights : Assoc Text FlightInfo) (args : TranArgs) where
  -- The loop unlocks nothing.
  pub locks_kept :
      (fs : List Text) (locks : Assoc Text Bool) (g : Text) (b : Bool)
      → lookup g locks ≡ some b
      → lookup g (lock_flights flights args fs locks).locks ≡ some b
  unfolding lock_flights
  locks_kept [] locks g b h = h
  locks_kept (f ∷ fs) locks g b h = elim (lock-cases flights args f fs locks) [
    | inl (_, stop) ↦ ap (λ r. lookup g r.locks) stop ∙ h
    | inr k ↦
        ap (λ r. lookup g r.locks) (lock_flights-free flights args f fs locks k)
        ∙ locks_kept fs (insert f true locks) g b
            (ground (arith, lookup-insert f g true locks, k.free, h, text_beq_iff f g))
  ]

  -- What was free after a flight was locked was free before.
  Logged-earlier :
      (f : Text) (locks locks' : Assoc Text Bool) (ls : List TransLog)
      → lookup f locks ≡ none
      → All (Logged flights args (insert f true locks) locks') ls
      → All (Logged flights args locks locks') ls × (elem f (flights_of ls) ≡ false)
  Logged-earlier f locks locks' [] free a = (tt, refl)
  Logged-earlier f locks locks' (l ∷ ls) free a =
      let (rest, absent) = Logged-earlier f locks locks' ls free a.1 in
      let b = a.0.booked in
      let taken = lookup-insert f l.flight_id true locks in
      (
        (
          record {
            booked = record {
              info = b.info;
              known = b.known;
              seats = b.seats;
              free = ground (arith, taken, b.free);
            };
            taken = a.0.taken;
            before = a.0.before;
            after = a.0.after;
          },
          rest,
        ),
        ground
            (arith, taken, b.free, absent, text_beq_iff f l.flight_id, text_beq_iff l.flight_id f),
      )

  pub logs_sound :
      (fs : List Text) (locks : Assoc Text Bool)
      → All
          (Logged flights args locks (lock_flights flights args fs locks).locks)
          (lock_flights flights args fs locks).logs
        × Distinct (flights_of (lock_flights flights args fs locks).logs)
  unfolding lock_flights
  logs_sound [] locks = (tt, tt)
  logs_sound (f ∷ fs) locks = elim (lock-cases flights args f fs locks) [
    | inl (_, stop) ↦
        subst (λ r. All (Logged flights args locks r.locks) r.logs × Distinct (flights_of r.logs))
          (sym stop) (tt, tt)
    | inr k ↦
        let locks' = insert f true locks in
        let r = lock_flights flights args fs locks' in
        let (all, distinct) = logs_sound fs locks' in
        let (all', absent) = Logged-earlier f locks r.locks r.logs k.free all in
        subst
          (λ r'. All (Logged flights args locks r'.locks) r'.logs × Distinct (flights_of r'.logs))
          (sym (lock_flights-free flights args f fs locks k))
          (
            (
              record {
                booked = k;
                taken =
                    locks_kept fs locks' f true
                      (ground (arith, lookup-insert f f true locks, text_beq_iff f f));
                before = refl;
                after = refl;
              },
              all',
            ),
            (absent, distinct),
          )
  ]
