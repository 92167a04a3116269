-- ===== src/Airline/Server/Decision.antt =====
-- contrib/airlineimpl/participant.go: what a decision does to the flights of its transaction.
use mathlib.Core.List.{append_assoc}
use airline_booking.Prelude.{
  ℕ, ◌≡◌, refl, sym, ap, subst, ◌∙◌, ◌≢◌, Bool, true, false, none, some, List, [], ◌∷◌, ◌++◌, arith,
  nat_beq, nat_beq_iff, nat_eq, beq_ne, All, elem, Text, text_beq_iff, text_eq,
}
use airline_booking.Prelude.Assoc.{Assoc, lookup, lookup-insert, lookup-delete}
use airline_booking.Airline.Types.{commit, FlightInfo, TranArgs, TransLog, AirlineServer}
use airline_booking.Airline.Participant.{release_logs, finish, response_trans}
use airline_booking.Airline.Participant.Booking.{flights_of}
use airline_booking.Airline.Participant.Outcome.{Committed, apply_logs_total, lookup-release_logs}
use airline_booking.Airline.Server.Consistency.{IsConsistent}
use airline_booking.Airline.Server.Total.{Held-Known}

-- The flight got the slots of the log, kept its other data and is unlocked.
pub record IsSettled (before srv : AirlineServer) (l : TransLog) : Type 0 where
  pub info : FlightInfo
  pub was : lookup l.flight_id before.flight_buf ≡ some info
  pub now : lookup l.flight_id srv.flight_buf ≡ some (record info { slot = l.new })
  pub unlocked : lookup l.flight_id srv.lock_buf ≡ none

-- Nothing but the flights of `ls` changed, and the transaction is decided.
pub record Decided (t : Text) (d : ℕ) (ls : List TransLog) (srv srv' : AirlineServer) : Type 0 where
  pub spared :
      (g : Text)
      → elem g (flights_of ls) ≡ false
      → (lookup g srv'.flight_buf ≡ lookup g srv.flight_buf)
        × (lookup g srv'.lock_buf ≡ lookup g srv.lock_buf)
  pub closed : lookup t srv'.log_buf ≡ none
  pub others : (u : Text) → u ≢ t → lookup u srv'.log_buf ≡ lookup u srv.log_buf
  pub remembered : lookup t srv'.old_log ≡ some d

Committed-IsSettled :
    (srv srv' srv2 : AirlineServer) (ls : List TransLog)
    → srv2.flight_buf ≡ srv'.flight_buf
    → srv2.lock_buf ≡ srv'.lock_buf
    → All (Committed srv srv') ls
    → All (IsSettled srv srv2) ls
Committed-IsSettled srv srv' srv2 [] e k a = tt
Committed-IsSettled srv srv' srv2 (l ∷ ls) e k a = (
  record {
    info = a.0.info;
    was = a.0.before;
    now = ap (lookup l.flight_id) e ∙ a.0.after;
    unlocked = ap (lookup l.flight_id) k ∙ a.0.unlocked;
  },
  Committed-IsSettled srv srv' srv2 ls e k a.1,
)

finish-Decided :
    (t : Text) (d : ℕ) (ls : List TransLog) (srv srv' : AirlineServer)
    → srv'.log_buf ≡ srv.log_buf
    → ((g : Text)
        → elem g (flights_of ls) ≡ false
        → (lookup g srv'.flight_buf ≡ lookup g srv.flight_buf)
          × (lookup g srv'.lock_buf ≡ lookup g srv.lock_buf))
    → Decided t d ls srv (finish t d srv')
finish-Decided t d ls srv srv' same spared = record {
  spared = spared;
  closed = ground (arith, lookup-delete t t srv'.log_buf, text_beq_iff t t);
  others = λ u ne.
      ground (arith, lookup-delete t u srv'.log_buf, text_beq_iff t u, λ (e : t ≡ u). ne (sym e))
      ∙ ap (lookup u) same;
  remembered = ground (arith, lookup-insert t t d srv'.old_log, text_beq_iff t t);
}

-- COMMIT for an undecided transaction of a consistent server: each of its flights gets the slots that
-- the log says and is unlocked, all other flights, locks and transactions stay, and the decision is
-- remembered.
pub commit_decision :
    (args : TranArgs) (ls : List TransLog) (srv : AirlineServer)
    → IsConsistent srv
    → args.vote ≡ commit
    → lookup args.tran_id srv.log_buf ≡ some ls
    → (srv' : AirlineServer) × (response_trans args srv ≡ some (srv', []))
      × All (IsSettled srv srv') ls
      × Decided args.tran_id commit ls srv srv'
unfolding response_trans
commit_decision args ls srv c v here =
    let held = c.held args.tran_id ls here in
    let (srv', e, a) = apply_logs_total ls srv (Held-Known srv ls held.0) in
    let yes_vote : nat_beq args.vote commit ≡ true = (nat_beq_iff args.vote commit).1 v in
    (
      finish args.tran_id args.vote srv',
      rw (here, response_trans, yes_vote, e),
      Committed-IsSettled srv srv' (finish args.tran_id args.vote srv') ls refl refl
          (a.committed held.1),
      subst (λ d. Decided args.tran_id d ls srv (finish args.tran_id args.vote srv')) v
          (finish-Decided args.tran_id args.vote ls srv srv' a.same_logs
            (λ g absent. (a.same_flight g absent, a.same_lock g absent))),
    )

freed :
    (ls ms : List TransLog) (locks : Assoc Text Bool)
    → All (λ l. elem l.flight_id (flights_of ls) ≡ true) ms
    → All (λ l. lookup l.flight_id (release_logs ls locks) ≡ none) ms
freed ls [] locks a = tt
freed ls (m ∷ ms) locks a =
    (ground (arith, lookup-release_logs ls locks m.flight_id, a.0), freed ls ms locks a.1)

named : (ls ms : List TransLog) → All (λ l. elem l.flight_id (flights_of (ms ++ ls)) ≡ true) ls
named [] ms = tt
named (l ∷ ls) ms = (
  here ms,
  subst (λ xs. All (λ k. elem k.flight_id (flights_of xs) ≡ true) ls) (append_assoc ms (l ∷ []) ls)
      (named ls (ms ++ l ∷ [])),
)
  where
    here : (ks : List TransLog) → elem l.flight_id (flights_of (ks ++ l ∷ ls)) ≡ true
    here [] = ground (arith, text_beq_iff l.flight_id l.flight_id)
    here (k ∷ ks) = ground (arith, here ks)

-- Any other decision for an undecided transaction changes no flight at all, unlocks the transaction's
-- flights and no other one, and is remembered.
pub abort_decision :
    (args : TranArgs) (ls : List TransLog) (srv : AirlineServer)
    → args.vote ≢ commit
    → lookup args.tran_id srv.log_buf ≡ some ls
    → (srv' : AirlineServer) × (response_trans args srv ≡ some (srv', []))
      × (srv'.flight_buf ≡ srv.flight_buf)
      × All (λ l. lookup l.flight_id srv'.lock_buf ≡ none) ls
      × Decided args.tran_id args.vote ls srv srv'
unfolding response_trans
abort_decision args ls srv v here =
    let off : nat_beq args.vote commit ≡ false = beq_ne v in
    (
      finish args.tran_id args.vote (record srv { lock_buf = release_logs ls srv.lock_buf }),
      rw (here, response_trans, off),
      refl,
      freed ls ls srv.lock_buf (named ls []),
      finish-Decided args.tran_id args.vote ls srv
          (record srv { lock_buf = release_logs ls srv.lock_buf }) refl
          (λ g absent. (refl, ground (arith, lookup-release_logs ls srv.lock_buf g, absent))),
    )
