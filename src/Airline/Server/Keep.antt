-- ===== src/Airline/Server/Keep.antt =====
-- contrib/airlineimpl/participant.go: starting and ending a transaction keep the logs consistent.
use airline_booking.Prelude.{
  ◌≡◌, sym, ap, subst, ◌∙◌, ◌≢◌, inl, inr, Bool, true, false, some, List, [], ◌∷◌, arith, nat_eq,
  All, elem, Distinct, Text, text_beq_iff, text_eq,
}
use airline_booking.Prelude.Assoc.{Assoc, lookup, insert, delete, lookup-delete}
use airline_booking.Airline.Types.{TranArgs, TransLog, AirlineServer}
use airline_booking.Airline.Participant.Booking.{flights_of, Logged}
use airline_booking.Airline.Server.Consistency.{
  Held, Apart, IsConsistent, Held-kept, Logged-Held, old-Apart, new-Apart, Held-locked, inserted,
}

abbrev pub stored : Text → List TransLog → Assoc Text Bool → AirlineServer → AirlineServer
stored t ls locks srv = record srv { lock_buf = locks; log_buf = insert t ls srv.log_buf }

-- The logs of a new transaction join the consistent ones.
pub stored-IsConsistent :
    (srv : AirlineServer) (args : TranArgs) (t : Text) (ls : List TransLog)
    (locks : Assoc Text Bool)
    → ((g : Text) → lookup g srv.lock_buf ≡ some true → lookup g locks ≡ some true)
    → All (Logged srv.flight_buf args srv.lock_buf locks) ls × Distinct (flights_of ls)
    → IsConsistent srv
    → IsConsistent (stored t ls locks srv)
stored-IsConsistent srv args t ls locks kept (new, distinct) c = record {
  held = λ u ms e. elim (inserted t u ls ms srv.log_buf e) [
    | inl (_, same) ↦
        subst (λ ks. All (Held (stored t ls locks srv)) ks × Distinct (flights_of ks)) same
          (Held-cast ls (Logged-Held srv args locks ls new), distinct)
    | inr (_, e') ↦
        (Held-cast ms (Held-locked srv locks ms kept (c.held u ms e').0), (c.held u ms e').1)
  ];
  disjoint = λ u v ks ms ne e f. elim (inserted t u ls ks srv.log_buf e) [
    | inl (tu, same) ↦ elim (inserted t v ls ms srv.log_buf f) [
      | inl (tv, _) ↦ elim (ne (sym tu ∙ tv)) [ ]
      | inr (_, f') ↦
          subst (λ xs. Apart xs ms) same (new-Apart srv args locks ls ms new (c.held v ms f').0)
    ]
    | inr (_, e') ↦ elim (inserted t v ls ms srv.log_buf f) [
      | inl (_, same) ↦
          subst (λ xs. Apart ks xs) same (old-Apart srv args locks ks ls (c.held u ks e').0 new)
      | inr (_, f') ↦ c.disjoint u v ks ms ne e' f'
    ]
  ];
}
  where
    Held-cast :
        (ms : List TransLog)
        → All (Held (record srv { lock_buf = locks })) ms
        → All (Held (stored t ls locks srv)) ms
    Held-cast [] a = tt
    Held-cast (m ∷ ms) a = (
      record { locked = a.0.locked; info = a.0.info; known = a.0.known; unchanged = a.0.unchanged },
      Held-cast ms a.1,
    )

pub deleted :
    (t u : Text) (ms : List TransLog) (m : Assoc Text (List TransLog))
    → lookup u (delete t m) ≡ some ms
    → (u ≢ t) × (lookup u m ≡ some ms)
deleted t u ms m e = (
  λ same. ground (arith, lookup-delete t u m, e, (text_beq_iff t u).1 (sym same)),
  ground (arith, lookup-delete t u m, e),
)

-- What a map keeps outside the flights of the transaction that ends.
abbrev Spared : List TransLog → AirlineServer → AirlineServer → Type 0
Spared ls srv srv' =
    (g : Text)
    → elem g (flights_of ls) ≡ false
    → (lookup g srv'.lock_buf ≡ lookup g srv.lock_buf)
      × (lookup g srv'.flight_buf ≡ lookup g srv.flight_buf)

Spared-All :
    (ls : List TransLog) (srv srv' : AirlineServer) (ms : List TransLog)
    → Spared ls srv srv'
    → Apart ms ls
    → All
        (λ l.
          (lookup l.flight_id srv'.lock_buf ≡ lookup l.flight_id srv.lock_buf)
          × (lookup l.flight_id srv'.flight_buf ≡ lookup l.flight_id srv.flight_buf))
        ms
Spared-All ls srv srv' [] s a = tt
Spared-All ls srv srv' (m ∷ ms) s a = (s m.flight_id a.0, Spared-All ls srv srv' ms s a.1)

-- Ending transaction `t` keeps the others consistent.
pub ended-IsConsistent :
    (t : Text) (ls : List TransLog) (srv srv' : AirlineServer)
    → lookup t srv.log_buf ≡ some ls
    → srv'.log_buf ≡ delete t srv.log_buf
    → Spared ls srv srv'
    → IsConsistent srv
    → IsConsistent srv'
ended-IsConsistent t ls srv srv' here logs spared c = record {
  held = λ u ms e.
      let (ne, e') = deleted t u ms srv.log_buf (sym (ap (lookup u) logs) ∙ e) in
      (
        Held-kept srv srv' ms (Spared-All ls srv srv' ms spared (c.disjoint u t ms ls ne e' here))
            (c.held u ms e').0,
        (c.held u ms e').1,
      );
  disjoint = λ u v ks ms ne e f.
      c.disjoint u v ks ms ne (deleted t u ks srv.log_buf (sym (ap (lookup u) logs) ∙ e)).1
        (deleted t v ms srv.log_buf (sym (ap (lookup v) logs) ∙ f)).1;
}
