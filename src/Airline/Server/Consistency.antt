-- ===== src/Airline/Server/Consistency.antt =====
-- contrib/airlineimpl: the logs of undecided transactions agree with the flights and with the locks.
use airline_booking.Prelude.{
  ◌≡◌, refl, sym, ◌∙◌, ◌≢◌, ◌⊎◌, inl, inr, Bool, true, false, none, some, List, [], ◌∷◌, arith,
  nat_eq, Bool-cases, All, elem, Distinct, Text, text_beq, text_beq_iff, text_eq,
}
use airline_booking.Prelude.Assoc.{Assoc, lookup, insert, lookup-insert}
use airline_booking.Airline.Types.{FlightInfo, TranArgs, TransLog, AirlineServer}
use airline_booking.Airline.Participant.Booking.{flights_of, Logged}

-- A logged flight is locked, and has the slots that the log found.
pub record Held (srv : AirlineServer) (l : TransLog) : Type 0 where
  pub locked : lookup l.flight_id srv.lock_buf ≡ some true
  pub info : FlightInfo
  pub known : lookup l.flight_id srv.flight_buf ≡ some info
  pub unchanged : info.slot ≡ l.old

abbrev pub Apart : List TransLog → List TransLog → Type 0
Apart ls ms = All (λ l. elem l.flight_id (flights_of ms) ≡ false) ls

-- Each undecided transaction holds its flights, each once, and no two of them share a flight.
pub record IsConsistent (srv : AirlineServer) : Type 0 where
  pub held :
      (t : Text) (ls : List TransLog)
      → lookup t srv.log_buf ≡ some ls
      → All (Held srv) ls × Distinct (flights_of ls)
  pub disjoint :
      (t u : Text) (ls ms : List TransLog)
      → t ≢ u
      → lookup t srv.log_buf ≡ some ls
      → lookup u srv.log_buf ≡ some ms
      → Apart ls ms

-- Flights that keep their lock and their contents stay held.
pub Held-kept :
    (srv srv' : AirlineServer) (ls : List TransLog)
    → All
        (λ l.
          (lookup l.flight_id srv'.lock_buf ≡ lookup l.flight_id srv.lock_buf)
          × (lookup l.flight_id srv'.flight_buf ≡ lookup l.flight_id srv.flight_buf))
        ls
    → All (Held srv) ls
    → All (Held srv') ls
Held-kept srv srv' [] same a = tt
Held-kept srv srv' (l ∷ ls) same a = (
  record {
    locked = same.0.0 ∙ a.0.locked;
    info = a.0.info;
    known = same.0.1 ∙ a.0.known;
    unchanged = a.0.unchanged;
  },
  Held-kept srv srv' ls same.1 a.1,
)

-- initTrans

module _ (srv : AirlineServer) (args : TranArgs) (locks' : Assoc Text Bool) where
  pub Logged-Held :
      (ls : List TransLog)
      → All (Logged srv.flight_buf args srv.lock_buf locks') ls
      → All (Held (record srv { lock_buf = locks' })) ls
  Logged-Held [] a = tt
  Logged-Held (l ∷ ls) a = (
    record {
      locked = a.0.taken;
      info = a.0.booked.info;
      known = a.0.booked.known;
      unchanged = sym a.0.before;
    },
    Logged-Held ls a.1,
  )

  pub Logged-not_held :
      (f : Text) (ls : List TransLog)
      → lookup f srv.lock_buf ≡ some true
      → All (Logged srv.flight_buf args srv.lock_buf locks') ls
      → elem f (flights_of ls) ≡ false
  Logged-not_held f [] h a = refl
  Logged-not_held f (l ∷ ls) h a =
      ground (arith, Logged-not_held f ls h a.1, a.0.booked.free, text_beq_iff l.flight_id f)

  pub Held-not_logged :
      (f : Text) (ls : List TransLog)
      → lookup f srv.lock_buf ≡ none
      → All (Held srv) ls
      → elem f (flights_of ls) ≡ false
  Held-not_logged f [] h a = refl
  Held-not_logged f (l ∷ ls) h a =
      ground (arith, Held-not_logged f ls h a.1, a.0.locked, text_beq_iff l.flight_id f)

  pub old-Apart :
      (ls ms : List TransLog)
      → All (Held srv) ls
      → All (Logged srv.flight_buf args srv.lock_buf locks') ms
      → Apart ls ms
  old-Apart [] ms a b = tt
  old-Apart (l ∷ ls) ms a b = (Logged-not_held l.flight_id ms a.0.locked b, old-Apart ls ms a.1 b)

  pub new-Apart :
      (ls ms : List TransLog)
      → All (Logged srv.flight_buf args srv.lock_buf locks') ls
      → All (Held srv) ms
      → Apart ls ms
  new-Apart [] ms a b = tt
  new-Apart (l ∷ ls) ms a b =
      (Held-not_logged l.flight_id ms a.0.booked.free b, new-Apart ls ms a.1 b)

-- More locks keep what is held.
pub Held-locked :
    (srv : AirlineServer) (locks' : Assoc Text Bool) (ls : List TransLog)
    → ((g : Text) → lookup g srv.lock_buf ≡ some true → lookup g locks' ≡ some true)
    → All (Held srv) ls
    → All (Held (record srv { lock_buf = locks' })) ls
Held-locked srv locks' [] kept a = tt
Held-locked srv locks' (l ∷ ls) kept a = (
  record {
    locked = kept l.flight_id a.0.locked;
    info = a.0.info;
    known = a.0.known;
    unchanged = a.0.unchanged;
  },
  Held-locked srv locks' ls kept a.1,
)

pub locking-IsConsistent :
    (srv : AirlineServer) (locks' : Assoc Text Bool)
    → ((g : Text) → lookup g srv.lock_buf ≡ some true → lookup g locks' ≡ some true)
    → IsConsistent srv
    → IsConsistent (record srv { lock_buf = locks' })
locking-IsConsistent srv locks' kept c = record {
  held = λ t ls e. (Held-locked srv locks' ls kept (c.held t ls e).0, (c.held t ls e).1);
  disjoint = c.disjoint;
}

-- Where an entry of a map comes from after a write.
pub inserted :
    (t u : Text) (ls ms : List TransLog) (m : Assoc Text (List TransLog))
    → lookup u (insert t ls m) ≡ some ms
    → ((t ≡ u) × (ls ≡ ms)) ⊎ ((t ≢ u) × (lookup u m ≡ some ms))
inserted t u ls ms m e = elim (Bool-cases (text_beq t u)) [
  | inl same ↦ inl ((text_beq_iff t u).0 same, ground (arith, lookup-insert t u ls m, same, e))
  | inr other ↦ inr (
    λ same. ground (arith, (text_beq_iff t u).1 same, other),
    ground (arith, lookup-insert t u ls m, other, e),
  )
]
