-- ===== src/Airline/Server/Slots.antt =====
-- contrib/airlineimpl: the free slots of the flights.
use airline_booking.Prelude.{
  ℕ, ◌≤◌, ◌≡◌, sym, ap, subst, ◌∙◌, inl, inr, Bool, true, false, none, some, List, [], ◌∷◌, arith,
  nat_eq, Bool-cases, All, elem, Distinct, Text, text_beq, text_beq_iff, text_eq,
}
use airline_booking.Prelude.Assoc.{Assoc, lookup}
use airline_booking.Prelude.Words.{IsNonNegative, lt64-ltb, sub64_exact}
use airline_booking.Airline.Types.{
  FlightInfo, TranArgs, TransLog, AirlineServer, Request, create_flight, init_trans, trans_expired,
}
use airline_booking.Airline.Participant.Booking.{flights_of, Logged}
use airline_booking.Airline.Participant.Outcome.{Committed, Applied}
use airline_booking.Airline.Server.Consistency.{Held}

abbrev pub Falls : TransLog → Type 0
Falls l = l.new ≤ l.old

-- No flight has a negative number of slots, no flight of `before` has got more of them or has changed
-- otherwise, and no undecided transaction adds slots.
pub record IsSound (before srv : AirlineServer) : Type 0 where
  pub slots :
      (g : Text) (info : FlightInfo) → lookup g srv.flight_buf ≡ some info → IsNonNegative info.slot
  pub logs : (t : Text) (ls : List TransLog) → lookup t srv.log_buf ≡ some ls → All Falls ls
  pub falls :
      (g : Text) (info : FlightInfo)
      → lookup g before.flight_buf ≡ some info
      → (n : ℕ) × (lookup g srv.flight_buf ≡ some (record info { slot = n })) × (n ≤ info.slot)

-- Amounts and the slots of new flights are not negative.
abbrev pub IsFair : Request → Type 0
IsFair (create_flight f info) = IsNonNegative info.slot
IsFair (init_trans own args) = IsNonNegative args.amount
IsFair (trans_expired own t) = own ≡ false
IsFair _ = Unit

module _ (before : AirlineServer) where
  pub Logged-Falls :
      (srv : AirlineServer) (args : TranArgs) (locks : Assoc Text Bool) (ls : List TransLog)
      → IsNonNegative args.amount
      → IsSound before srv
      → All (Logged srv.flight_buf args srv.lock_buf locks) ls
      → All Falls ls
  Logged-Falls srv args locks [] pos s a = tt
  Logged-Falls srv args locks (l ∷ ls) pos s a =
      let k = a.0 in
      let n = k.booked.info.slot in
      let fits : IsNonNegative n = s.slots l.flight_id k.booked.info k.booked.known in
      let enough : args.amount ≤ n =
        ground (arith, lt64-ltb n args.amount fits pos, k.booked.seats) in
      (
        omega (arith, k.before, k.after, sub64_exact n args.amount fits enough),
        Logged-Falls srv args locks ls pos s a.1,
      )

  -- The flight of a committed log got the slots of the log, which are no more than it had.
  Committed-find :
      (srv srv' : AirlineServer) (ls : List TransLog) (g : Text)
      → elem g (flights_of ls) ≡ true
      → All (Committed srv srv') ls
      → All (Held srv) ls
      → All Falls ls
      → (info : FlightInfo) × (n : ℕ) × (lookup g srv.flight_buf ≡ some info)
        × (lookup g srv'.flight_buf ≡ some (record info { slot = n }))
        × (n ≤ info.slot)
  Committed-find srv srv' [] g m a h f = cc
  Committed-find srv srv' (l ∷ ls) g m a h f = elim (Bool-cases (text_beq l.flight_id g)) [
    | inl same ↦
        let e : l.flight_id ≡ g = (text_beq_iff l.flight_id g).0 same in
        let k = a.0 in
        let one : k.info ≡ h.0.info = cc (k.before, h.0.known) in
        (
          k.info,
          l.new,
          ap (λ x. lookup x srv.flight_buf) (sym e) ∙ k.before,
          ap (λ x. lookup x srv'.flight_buf) (sym e) ∙ k.after,
          omega (arith, f.0, h.0.unchanged, ap (λ i. i.slot) one),
        )
    | inr other ↦ Committed-find srv srv' ls g (ground (arith, m, other)) a.1 h.1 f.1
  ]

  -- After a commit every flight has as many slots as before, or fewer.
  pub commit-Falls :
      (srv srv' : AirlineServer) (ls : List TransLog) (g : Text) (info : FlightInfo)
      → Applied ls srv srv'
      → All (Held srv) ls × Distinct (flights_of ls)
      → All Falls ls
      → lookup g srv.flight_buf ≡ some info
      → (n : ℕ) × (lookup g srv'.flight_buf ≡ some (record info { slot = n })) × (n ≤ info.slot)
  commit-Falls srv srv' ls g info a (h, d) f e = elim (Bool-cases (elem g (flights_of ls))) [
    | inl named ↦
        let (info', n, e', k, le) = Committed-find srv srv' ls g named (a.committed d) h f in
        let one : info' ≡ info = cc (e, e') in
        (
          n,
          subst (λ i. lookup g srv'.flight_buf ≡ some (record i { slot = n })) one k,
          subst (λ i. n ≤ i.slot) one le,
        )
    | inr spared ↦ (info.slot, a.same_flight g spared ∙ e, omega arith)
  ]

  -- A commit makes no flights.
  pub commit_not_new :
      (srv srv' : AirlineServer) (ls : List TransLog) (g : Text)
      → Applied ls srv srv'
      → All (Held srv) ls × Distinct (flights_of ls)
      → All Falls ls
      → lookup g srv.flight_buf ≡ none
      → lookup g srv'.flight_buf ≡ none
  commit_not_new srv srv' ls g a (h, d) f gone = elim (Bool-cases (elem g (flights_of ls))) [
    | inl named ↦
        let (info, n, e, _, _) = Committed-find srv srv' ls g named (a.committed d) h f in
        cc (gone, e)
    | inr spared ↦ a.same_flight g spared ∙ gone
  ]
