-- ===== src/Airline/Participant/Vote.antt =====
-- contrib/airlineimpl/participant.go: what the loop of initTrans over the flights does.
use airline_booking.Prelude.{
  ◌≡◌, refl, sym, ap, ◌∙◌, ◌↔◌, ◌⊎◌, inl, inr, Bool, true, false, none, some, List, [], ◌∷◌, arith,
  nat_eq, Bool-cases, Option-cases, All, elem, Distinct, Text, text_beq_iff, text_eq,
}
use airline_booking.Prelude.Assoc.{Assoc, lookup, insert, lookup-insert}
use airline_booking.Prelude.Words.{lt64}
use airline_booking.Airline.Types.{commit, FlightInfo, TranArgs}
use airline_booking.Airline.Participant.{
  get_flight_lock, flight_log, lock_flights, add_log, refused,
}

-- The flight is known, has the seats and is not locked.
pub record Bookable (flights : Assoc Text FlightInfo) (args : TranArgs) (locks : Assoc Text Bool)
    (f : Text) : Type 0 where
  pub info : FlightInfo
  pub known : lookup f flights ≡ some info
  pub seats : lt64 info.slot args.amount ≡ false
  pub free : lookup f locks ≡ none

module _ (flights : Assoc Text FlightInfo) (args : TranArgs) where
  lock_flights-none :
      (f : Text) (fs : List Text) (locks : Assoc Text Bool)
      → lookup f flights ≡ none
      → lock_flights flights args (f ∷ fs) locks ≡ refused locks
  unfolding lock_flights
  lock_flights-none f fs locks e = rw (e, lock_flights)

  lock_flights-full :
      (f : Text) (fs : List Text) (locks : Assoc Text Bool) (info : FlightInfo)
      → lookup f flights ≡ some info
      → lt64 info.slot args.amount ≡ true
      → lock_flights flights args (f ∷ fs) locks ≡ refused locks
  unfolding lock_flights
  lock_flights-full f fs locks info e full = rw (e, full, lock_flights)

  lock_flights-locked :
      (f : Text) (fs : List Text) (locks : Assoc Text Bool) (info : FlightInfo) (b : Bool)
      → lookup f flights ≡ some info
      → lt64 info.slot args.amount ≡ false
      → lookup f locks ≡ some b
      → lock_flights flights args (f ∷ fs) locks ≡ refused locks
  unfolding lock_flights get_flight_lock
  lock_flights-locked f fs locks info b e seats held = rw (e, seats, held, lock_flights)

  pub lock_flights-free :
      (f : Text) (fs : List Text) (locks : Assoc Text Bool) (b : Bookable flights args locks f)
      → lock_flights flights args (f ∷ fs) locks
        ≡ add_log (flight_log args f b.info) (lock_flights flights args fs (insert f true locks))
  unfolding lock_flights get_flight_lock
  lock_flights-free f fs locks b = rw (b.known, b.seats, b.free, lock_flights)

  -- Whether the loop goes on after a flight.
  pub lock-cases :
      (f : Text) (fs : List Text) (locks : Assoc Text Bool)
      → ((Bookable flights args locks f → ⊥)
          × (lock_flights flights args (f ∷ fs) locks ≡ refused locks))
        ⊎ Bookable flights args locks f
  lock-cases f fs locks = elim (Option-cases (lookup f flights)) [
    | inl none_here ↦ inl ((λ b. cc (b.known, none_here)), lock_flights-none f fs locks none_here)
    | inr (info, here) ↦ elim (Bool-cases (lt64 info.slot args.amount)) [
      | inl full ↦ inl (
        λ b.
            let same : info ≡ b.info = cc (here, b.known) in
            let off : true ≡ false = sym full ∙ ap (λ i. lt64 i.slot args.amount) same ∙ b.seats in
            cc off,
        lock_flights-full f fs locks info here full,
      )
      | inr seats ↦ elim (Option-cases (lookup f locks)) [
        | inl free ↦ inr (record { info = info; known = here; seats = seats; free = free })
        | inr (b, held) ↦
            inl ((λ k. cc (k.free, held)), lock_flights-locked f fs locks info b here seats held)
      ]
    ]
  ]

-- Every flight can be booked, and none is named twice.
abbrev pub CanBook : Assoc Text FlightInfo → TranArgs → Assoc Text Bool → List Text → Type 0
CanBook flights args locks fs = All (Bookable flights args locks) fs × Distinct fs

module _ (flights : Assoc Text FlightInfo) (args : TranArgs) (f : Text)
    (locks : Assoc Text Bool) where
  -- Locking a flight takes it, and no other one, from those that can be booked.
  bookable_after :
      (fs : List Text)
      → All (Bookable flights args locks) fs
      → elem f fs ≡ false
      → All (Bookable flights args (insert f true locks)) fs
  bookable_after [] a h = tt
  bookable_after (g ∷ fs) a h = (
    record {
      info = a.0.info;
      known = a.0.known;
      seats = a.0.seats;
      free =
          ground
            (arith, lookup-insert f g true locks, a.0.free, text_beq_iff f g, text_beq_iff g f);
    },
    bookable_after fs a.1 (ground arith),
  )

  bookable_before :
      (fs : List Text)
      → All (Bookable flights args (insert f true locks)) fs
      → All (Bookable flights args locks) fs × (elem f fs ≡ false)
  bookable_before [] a = (tt, refl)
  bookable_before (g ∷ fs) a =
      let (rest, absent) = bookable_before fs a.1 in
      let taken = lookup-insert f g true locks in
      (
        (
          record {
            info = a.0.info;
            known = a.0.known;
            seats = a.0.seats;
            free = ground (arith, taken, a.0.free);
          },
          rest,
        ),
        ground (arith, taken, a.0.free, absent, text_beq_iff f g, text_beq_iff g f),
      )

-- initTrans votes COMMIT exactly if the transaction's flights are pairwise different, and each of them
-- is known, has at least the amount of slots left and is not locked.
pub vote_iff :
    (flights : Assoc Text FlightInfo) (args : TranArgs) (fs : List Text) (locks : Assoc Text Bool)
    → ((lock_flights flights args fs locks).vote ≡ commit) ↔ CanBook flights args locks fs
unfolding lock_flights
vote_iff flights args [] locks = (λ _. (tt, tt), λ _. refl)
vote_iff flights args (f ∷ fs) locks = elim (lock-cases flights args f fs locks) [
  | inl (cannot, stop) ↦
      (λ v. absurd (omega (arith, sym (ap (λ r. r.vote) stop) ∙ v)), λ b. elim (cannot b.0.0) [ ])
  | inr b ↦
      let go = ap (λ r. r.vote) (lock_flights-free flights args f fs locks b) in
      let (to, from) = vote_iff flights args fs (insert f true locks) in
      (
        λ v.
            let (all, distinct) = to (sym go ∙ v) in
            let (all', absent) = bookable_before flights args f locks fs all in
            ((b, all'), (absent, distinct)),
        λ c. go ∙ from (bookable_after flights args f locks fs c.0.1 c.1.0, c.1.1),
      )
]
