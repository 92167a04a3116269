-- ===== src/Airline/Server/Booked.antt =====
-- contrib/airlineimpl/participant.go: a transaction from its start to its commit.
use airline_booking.Prelude.{
  ℕ, ◌≡◌, refl, sym, ap, subst, ◌∙◌, inl, inr, Bool, true, none, some, List, [], ◌∷◌, ◌++◌, arith,
  nat_beq, nat_beq_iff, nat_eq, All, Text, text_beq_iff, text_eq,
}
use airline_booking.Prelude.Assoc.{Assoc, lookup, insert, lookup-insert}
use airline_booking.Prelude.Words.{sub64}
use airline_booking.Airline.Types.{
  commit, FlightInfo, TranArgs, TransLog, AirlineServer, Effect, trans_timer,
}
use airline_booking.Airline.Participant.{
  lock_flights, store_logs, send_vote, init_trans, response_trans, flight_ids,
}
use airline_booking.Airline.Participant.Vote.{CanBook, vote_iff, lock-cases, lock_flights-free}
use airline_booking.Airline.Participant.Booking.{flights_of, Logged, locks_kept, logs_sound}
use airline_booking.Airline.Server.Consistency.{IsConsistent}
use airline_booking.Airline.Server.Keep.{stored, stored-IsConsistent}
use airline_booking.Airline.Server.Decision.{IsSettled, commit_decision}

all_logged :
    (flights : Assoc Text FlightInfo) (args : TranArgs) (fs : List Text) (locks : Assoc Text Bool)
    → (lock_flights flights args fs locks).vote ≡ commit
    → flights_of (lock_flights flights args fs locks).logs ≡ fs
unfolding lock_flights
all_logged flights args [] locks v = refl
all_logged flights args (f ∷ fs) locks v = elim (lock-cases flights args f fs locks) [
  | inl (_, stop) ↦ absurd (omega (arith, sym (ap (λ r. r.vote) stop) ∙ v))
  | inr k ↦
      let go = lock_flights-free flights args f fs locks k in
      ap (λ r. flights_of r.logs) go
      ∙ ap (λ gs. f ∷ gs)
          (all_logged flights args fs (insert f true locks) (sym (ap (λ r. r.vote) go) ∙ v))
]

-- The flight lost `amount` slots, kept its other data and is unlocked.
pub record IsBooked (before srv : AirlineServer) (amount : ℕ) (f : Text) : Type 0 where
  pub info : FlightInfo
  pub was : lookup f before.flight_buf ≡ some info
  pub now : lookup f srv.flight_buf ≡ some (record info { slot = sub64 info.slot amount })
  pub unlocked : lookup f srv.lock_buf ≡ none

settled_booked :
    (before srv : AirlineServer) (args : TranArgs) (locks : Assoc Text Bool) (ls : List TransLog)
    → All (Logged before.flight_buf args before.lock_buf locks) ls
    → All (IsSettled before srv) ls
    → All (IsBooked before srv args.amount) (flights_of ls)
settled_booked before srv args locks [] a b = tt
settled_booked before srv args locks (l ∷ ls) a b =
    let one : a.0.booked.info ≡ b.0.info = cc (a.0.booked.known, b.0.was) in
    let slots : l.new ≡ sub64 b.0.info.slot args.amount =
      a.0.after ∙ ap (λ i. sub64 i.slot args.amount) one in
    (
      record {
        info = b.0.info;
        was = b.0.was;
        now =
            subst (λ n. lookup l.flight_id srv.flight_buf ≡ some (record b.0.info { slot = n }))
              slots b.0.now;
        unlocked = b.0.unlocked;
      },
      settled_booked before srv args locks ls a.1 b.1,
    )

rebase :
    (srv srv1 srv2 : AirlineServer) (ls : List TransLog)
    → srv1.flight_buf ≡ srv.flight_buf
    → All (IsSettled srv1 srv2) ls
    → All (IsSettled srv srv2) ls
rebase srv srv1 srv2 [] e a = tt
rebase srv srv1 srv2 (l ∷ ls) e a = (
  record {
    info = a.0.info;
    was = ap (lookup l.flight_id) (sym e) ∙ a.0.was;
    now = a.0.now;
    unlocked = a.0.unlocked;
  },
  rebase srv srv1 srv2 ls e a.1,
)

init_trans-stored :
    (reachable : Text → Bool) (own : Bool) (args : TranArgs) (srv : AirlineServer)
    → reachable args.tm ≡ true
    → (lock_flights srv.flight_buf args (flight_ids args) srv.lock_buf).vote ≡ commit
    → let r = lock_flights srv.flight_buf args (flight_ids args) srv.lock_buf in
      (es : List Effect) × (init_trans reachable own args srv
        ≡ some (stored args.tran_id r.logs r.locks srv, es))
unfolding init_trans store_logs
init_trans-stored reachable own args srv up v =
    let r = lock_flights srv.flight_buf args (flight_ids args) srv.lock_buf in
    let hit : nat_beq r.vote commit ≡ true = (nat_beq_iff r.vote commit).1 v in
    (send_vote own srv args r.vote ++ trans_timer args.tran_id ∷ [], rw (up, hit) refl)

-- A consistent server that can book a transaction's flights and reaches its manager, given the start of
-- the transaction and then the decision COMMIT for it: both are handled, and every flight of the
-- transaction has the amount of slots less than before (as 64-bit words), its other data as before,
-- and no lock.
pub booked :
    (reachable : Text → Bool) (own : Bool) (args reply : TranArgs) (srv : AirlineServer)
    → IsConsistent srv
    → reachable args.tm ≡ true
    → CanBook srv.flight_buf args srv.lock_buf (flight_ids args)
    → reply.vote ≡ commit
    → reply.tran_id ≡ args.tran_id
    → (srv1 : AirlineServer) × (srv2 : AirlineServer) × (es : List Effect) × (init_trans reachable
          own args srv
        ≡ some (srv1, es))
      × (response_trans reply srv1 ≡ some (srv2, []))
      × All (IsBooked srv srv2 args.amount) (flight_ids args)
booked reachable own args reply srv c up can v same =
    let r = lock_flights srv.flight_buf args (flight_ids args) srv.lock_buf in
    let vote = (vote_iff srv.flight_buf args (flight_ids args) srv.lock_buf).1 can in
    let (es, e) = init_trans-stored reachable own args srv up vote in
    let sound = logs_sound srv.flight_buf args (flight_ids args) srv.lock_buf in
    let srv1 = stored args.tran_id r.logs r.locks srv in
    let c1 : IsConsistent srv1 =
      stored-IsConsistent srv args args.tran_id r.logs r.locks
        (λ g h. locks_kept srv.flight_buf args (flight_ids args) srv.lock_buf g true h) sound c in
    let here : lookup reply.tran_id srv1.log_buf ≡ some r.logs = ground (
      arith,
      lookup-insert args.tran_id reply.tran_id r.logs srv.log_buf,
      (text_beq_iff args.tran_id reply.tran_id).1 (sym same),
    ) in
    let (srv2, k, settled, _) = commit_decision reply r.logs srv1 c1 v here in
    (
      srv1,
      srv2,
      es,
      e,
      k,
      subst (All (IsBooked srv srv2 args.amount))
          (all_logged srv.flight_buf args (flight_ids args) srv.lock_buf vote)
          (settled_booked srv srv2 args r.locks r.logs sound.0
            (rebase srv srv1 srv2 r.logs refl settled)),
    )
