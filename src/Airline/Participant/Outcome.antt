-- ===== src/Airline/Participant/Outcome.antt =====
-- contrib/airlineimpl/participant.go: what the commit loop and the abort loop do to the flights and to
-- the locks.
use airline_booking.Prelude.{
  ◌≡◌, refl, inl, inr, Bool, false, none, some, List, [], ◌∷◌, arith, if◌then◌else◌, nat_eq,
  Bool-cases, All, elem, Distinct, Text, text_beq, text_beq_iff, text_eq,
}
use airline_booking.Prelude.Assoc.{Assoc, lookup, insert, delete, lookup-insert, lookup-delete}
use airline_booking.Airline.Types.{FlightInfo, TransLog, AirlineServer}
use airline_booking.Airline.Participant.{apply_logs, release_logs}
use airline_booking.Airline.Participant.Booking.{flights_of}

abbrev pub Known : AirlineServer → TransLog → Type 0
Known srv l = (info : FlightInfo) × (lookup l.flight_id srv.flight_buf ≡ some info)

-- The flight has the slots that the log says, and is unlocked.
pub record Committed (srv srv' : AirlineServer) (l : TransLog) : Type 0 where
  pub info : FlightInfo
  pub before : lookup l.flight_id srv.flight_buf ≡ some info
  pub after : lookup l.flight_id srv'.flight_buf ≡ some (record info { slot = l.new })
  pub unlocked : lookup l.flight_id srv'.lock_buf ≡ none

-- The loop committed its logs, and changed nothing else.
pub record Applied (ls : List TransLog) (srv srv' : AirlineServer) : Type 0 where
  pub same_logs : srv'.log_buf ≡ srv.log_buf
  pub same_flight :
      (g : Text)
      → elem g (flights_of ls) ≡ false
      → lookup g srv'.flight_buf ≡ lookup g srv.flight_buf
  pub same_lock :
      (g : Text) → elem g (flights_of ls) ≡ false → lookup g srv'.lock_buf ≡ lookup g srv.lock_buf
  pub committed : Distinct (flights_of ls) → All (Committed srv srv') ls

abbrev apply_log : TransLog → FlightInfo → AirlineServer → AirlineServer
apply_log l info srv = record srv {
  flight_buf = insert l.flight_id (record info { slot = l.new }) srv.flight_buf;
  lock_buf = delete l.flight_id srv.lock_buf;
}

module _ (l : TransLog) (info : FlightInfo) (srv : AirlineServer) where
  Known-apply_log :
      (ls : List TransLog) → All (Known srv) ls → All (Known (apply_log l info srv)) ls
  Known-apply_log [] a = tt
  Known-apply_log (m ∷ ls) a = (
    elim (Bool-cases (text_beq l.flight_id m.flight_id)) [
      | inl same ↦ (
        record info { slot = l.new },
        ground (
          arith,
          lookup-insert l.flight_id m.flight_id (record info { slot = l.new }) srv.flight_buf,
          same,
        ),
      )
      | inr other ↦ (
        a.0.0,
        ground (
          arith,
          lookup-insert l.flight_id m.flight_id (record info { slot = l.new }) srv.flight_buf,
          other,
          a.0.1,
        ),
      )
    ],
    Known-apply_log ls a.1,
  )

  Committed-earlier :
      (srv' : AirlineServer) (ls : List TransLog)
      → elem l.flight_id (flights_of ls) ≡ false
      → All (Committed (apply_log l info srv) srv') ls
      → All (Committed srv srv') ls
  Committed-earlier srv' [] absent a = tt
  Committed-earlier srv' (m ∷ ls) absent a = (
    record {
      info = a.0.info;
      before = ground (
        arith,
        lookup-insert l.flight_id m.flight_id (record info { slot = l.new }) srv.flight_buf,
        a.0.before,
        text_beq_iff l.flight_id m.flight_id,
        text_beq_iff m.flight_id l.flight_id,
      );
      after = a.0.after;
      unlocked = a.0.unlocked;
    },
    Committed-earlier srv' ls (ground arith) a.1,
  )

  Applied-cons :
      (ls : List TransLog) (srv' : AirlineServer)
      → lookup l.flight_id srv.flight_buf ≡ some info
      → Applied ls (apply_log l info srv) srv'
      → Applied (l ∷ ls) srv srv'
  Applied-cons ls srv' here a = record {
    same_logs = a.same_logs;
    same_flight = λ g absent. ground (
      arith,
      a.same_flight g,
      lookup-insert l.flight_id g (record info { slot = l.new }) srv.flight_buf,
    );
    same_lock = λ g absent. ground (arith, a.same_lock g, lookup-delete l.flight_id g srv.lock_buf);
    committed = λ d. (
      record {
        info = info;
        before = here;
        after = ground (
          arith,
          a.same_flight l.flight_id d.0,
          lookup-insert l.flight_id l.flight_id (record info { slot = l.new }) srv.flight_buf,
          text_beq_iff l.flight_id l.flight_id,
        );
        unlocked = ground (
          arith,
          a.same_lock l.flight_id d.0,
          lookup-delete l.flight_id l.flight_id srv.lock_buf,
          text_beq_iff l.flight_id l.flight_id,
        );
      },
      Committed-earlier srv' ls d.0 (a.committed d.1),
    );
  }

pub apply_logs_total :
    (ls : List TransLog) (srv : AirlineServer)
    → All (Known srv) ls
    → (srv' : AirlineServer) × (apply_logs ls srv ≡ some srv') × Applied ls srv srv'
unfolding apply_logs
apply_logs_total [] srv a = (
  srv,
  refl,
  record {
    same_logs = refl;
    same_flight = λ g _. refl;
    same_lock = λ g _. refl;
    committed = λ _. tt;
  },
)
apply_logs_total (l ∷ ls) srv a =
    let (info, here) = a.0 in
    let (srv', e, k) =
      apply_logs_total ls (apply_log l info srv) (Known-apply_log l info srv ls a.1) in
    (srv', rw (here, apply_logs, e), Applied-cons l info srv ls srv' here k)

-- The abort loop unlocks the logged flights and no other.
pub lookup-release_logs :
    (ls : List TransLog) (locks : Assoc Text Bool) (g : Text)
    → lookup g (release_logs ls locks) ≡ (if elem g (flights_of ls) then none else lookup g locks)
unfolding release_logs
lookup-release_logs [] locks g = refl
lookup-release_logs (l ∷ ls) locks g =
    ground (
      arith,
      lookup-release_logs ls (delete l.flight_id locks) g,
      lookup-delete l.flight_id g locks,
    )
