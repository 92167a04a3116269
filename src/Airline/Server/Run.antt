-- ===== src/Airline/Server/Run.antt =====
-- contrib/airlineimpl: the server over a sequence of requests.
use airline_booking.Prelude.{
  ◌≡◌, refl, sym, subst, none, some, List, [], ◌∷◌, ◌++◌, nat_eq, All, Text, text_eq,
}
use airline_booking.Prelude.Assoc.{lookup}
use airline_booking.Airline.Types.{AirlineServer, Effect}
use airline_booking.Airline.Participant.{Result}
use airline_booking.Airline.Server.{store_handler, append_effects, run, init, Event}
use airline_booking.Airline.Server.Consistency.{IsConsistent}
use airline_booking.Airline.Server.Total.{Handled, IsPrompt, store_handler_total}

append_effects-Handled :
    (P : AirlineServer → Type 0) (es : List Effect) (r : Result)
    → Handled P r
    → Handled P (append_effects es r)
unfolding append_effects
append_effects-Handled P es r (srv, fs, e, c) = (srv, es ++ fs, rw (e) refl, c)

-- What every step from a consistent server keeps, a run keeps; `Q` is asked of every event.
pub run_induction :
    (P : AirlineServer → Type 0) (Q : Event → Type 0)
    → ((e : Event) → Q e → IsPrompt e.request)
    → ((e : Event) (srv : AirlineServer)
        → Q e
        → IsConsistent srv
        → P srv
        → Handled P (store_handler e.reachable e.nets e.request srv))
    → (evs : List Event) (srv : AirlineServer) → All Q evs
    → IsConsistent srv
    → P srv
    → Handled P (run evs srv)
unfolding run
run_induction P Q quick step [] srv q c p = (srv, [], refl, p)
run_induction P Q quick step (e ∷ evs) srv q c p =
    let (srv', es, k, p') = step e srv q.0 c p in
    let (srv2, fs, k2, c2) = store_handler_total e.reachable e.nets e.request srv (quick e q.0) c in
    let same : srv2 ≡ srv' = cc (k, k2) in
    subst (λ r. Handled P (elim r [ none ↦ none | some (s, fs) ↦ append_effects fs (run evs s) ]))
      (sym k)
      (append_effects-Handled P es (run evs srv')
        (run_induction P Q quick step evs srv' q.1 (subst IsConsistent same c2) p'))

-- A consistent server that gets any requests but expiries of transactions of its own handles them all
-- and is consistent at the end: no request makes it panic, the flights of undecided transactions are
-- locked, keep the slots that the logs found, and belong to one transaction each.
pub run_total :
    (evs : List Event) (srv : AirlineServer)
    → All (λ e. IsPrompt e.request) evs
    → IsConsistent srv
    → Handled IsConsistent (run evs srv)
run_total evs srv p c =
    run_induction IsConsistent (λ e. IsPrompt e.request) (λ e q. q)
      (λ e s q c' _. store_handler_total e.reachable e.nets e.request s q c') evs srv p c c

pub init-IsConsistent : (airline_id myhostport : Text) → IsConsistent (init airline_id myhostport)
unfolding lookup
init-IsConsistent airline_id myhostport = record {
  held = λ t ls e. cc;
  disjoint = λ t u ls ms ne e f. cc;
}
