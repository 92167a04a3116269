-- ===== src/Airline/Participant.antt =====
-- contrib/airlineimpl/participant.go: the airline's side of two-phase commit.
pub mod Vote
pub mod Booking
pub mod Outcome
pub mod Expiry
use airline_booking.Prelude.{
  zero, ℕ, zero, suc, ◌+◌, ◌-◌, ◌*◌, ◌/◌, ◌%◌, ◌≤◌, ◌<◌, ◌≡◌, refl, sym, ap, subst, ◌∙◌, ◌≢◌, ◌↔◌,
  ◌⊎◌, inl, inr, Bool, true, false, not, ◌&&◌, ◌||◌, Option, none, some, List, [], ◌∷◌, ◌++◌, map,
  arith, ltb, leb, nat_beq, if◌then◌else◌, ltb→lt, leb→le, nat_beq_iff, Eq, ◌==◌, nat_eq,
  Bool-cases, Option-cases, beq_self, beq_ne, length, get_elem?, length-append, All, All-append,
  All-mono, Any, Any-append_left, Any-append_right, elem, Distinct, Text, codes, text_beq,
  text_beq_iff, text_eq,
}
use airline_booking.Prelude.Assoc.{
  Assoc, lookup, insert, delete, lookup-insert, lookup-delete, length-insert_new, elem-missing,
  keys, keys-insert-Distinct, lookup-not_key,
}
use airline_booking.Prelude.Strings.{split}
use airline_booking.Prelude.Words.{lt64, sub64}
use airline_booking.Airline.Types.{
  trans_response, trans_old, trans_old_response, not_decided, commit, abort, FlightInfo, TranArgs,
  update, TransLog, AirlineServer, Answer, decision, Effect, reply, trans_response_to, trans_timer,
  transaction,
}

-- `none`: a panic, or the handler does not come back.
abbrev pub Result : Type 0
Result = Option (AirlineServer × List Effect)

-- getFlightLock: the locks with the flight's own, or `none` where it is locked already.
unfoldable pub get_flight_lock : Text → Assoc Text Bool → Option (Assoc Text Bool)
get_flight_lock f locks = elim (lookup f locks) [
  | some _ ↦ none
  | none ↦ some (insert f true locks)
]

abbrev pub flight_log : TranArgs → Text → FlightInfo → TransLog
flight_log args f info = record {
  log_type = update;
  trans_id = args.tran_id;
  flight_id = f;
  old = info.slot;
  new = sub64 info.slot args.amount;
  ppt_list = args.ppt_list;
  tm = args.tm;
}

-- What the loop over the flights of a transaction leaves: it stops at the first flight that it
-- cannot lock, and keeps the locks that it has.
pub record Locking : Type 0 where
  pub locks : Assoc Text Bool
  pub vote : ℕ
  pub logs : List TransLog

abbrev add_log : TransLog → Locking → Locking
add_log l r = record r { logs = l ∷ r.logs }

abbrev refused : Assoc Text Bool → Locking
refused locks = record { locks = locks; vote = abort; logs = [] }

unfoldable pub lock_flights :
    Assoc Text FlightInfo → TranArgs → List Text → Assoc Text Bool → Locking
unfolding get_flight_lock
lock_flights flights args [] locks = record { locks = locks; vote = commit; logs = [] }
lock_flights flights args (f ∷ fs) locks = elim (lookup f flights) [
  | none ↦ refused locks
  | some info ↦ elim (lt64 info.slot args.amount) [
    | true ↦ refused locks
    | false ↦ elim (get_flight_lock f locks) [
      | none ↦ refused locks
      | some locks' ↦ add_log (flight_log args f info) (lock_flights flights args fs locks')
    ]
  ]
]

abbrev pub flight_ids : TranArgs → List Text
flight_ids args = split args.flight_id (codes ":")

-- The vote as a message to the transaction's manager.
abbrev pub vote_args : Text → TranArgs → ℕ → TranArgs
vote_args self args vote = record {
  tran_type = trans_response;
  tran_id = args.tran_id;
  flight_id = args.flight_id;
  amount = 0;
  ppt_list = [];
  vote = vote;
  tm = self;
}

unfoldable pub send_vote : Bool → AirlineServer → TranArgs → ℕ → List Effect
send_vote own srv args vote =
    if own then trans_response_to args.tm (vote_args srv.myhostport args vote) ∷ [] else []

unfoldable pub store_logs : TranArgs → Locking → AirlineServer → AirlineServer × List Effect
store_logs args r srv =
    if nat_beq r.vote commit
    then (
      record srv { log_buf = insert args.tran_id r.logs srv.log_buf },
      trans_timer args.tran_id ∷ [],
    )
    else (srv, [])

-- initTrans; `reachable` says which managers libconn.GetServerAt connects to.
unfoldable pub init_trans : (Text → Bool) → Bool → TranArgs → AirlineServer → Result
unfolding lock_flights send_vote store_logs
init_trans reachable own args srv =
    let r = lock_flights srv.flight_buf args (flight_ids args) srv.lock_buf in
    let srv' : AirlineServer = record srv { lock_buf = r.locks } in
    if reachable args.tm
    then (let (srv'', es) = store_logs args r srv' in
        some (srv'', send_vote own srv args r.vote ++ es))
    else some (srv', [])

-- The commit loop: every logged flight gets its new slot and is unlocked.
unfoldable pub apply_logs : List TransLog → AirlineServer → Option AirlineServer
apply_logs [] srv = some srv
apply_logs (l ∷ ls) srv = elim (lookup l.flight_id srv.flight_buf) [
  | none ↦ none
  | some info ↦ apply_logs ls (record srv {
    flight_buf = insert l.flight_id (record info { slot = l.new }) srv.flight_buf;
    lock_buf = delete l.flight_id srv.lock_buf;
  })
]

-- The abort loop.
unfoldable pub release_logs : List TransLog → Assoc Text Bool → Assoc Text Bool
release_logs [] locks = locks
release_logs (l ∷ ls) locks = release_logs ls (delete l.flight_id locks)

abbrev pub finish : Text → ℕ → AirlineServer → AirlineServer
finish t d srv = record srv { log_buf = delete t srv.log_buf; old_log = insert t d srv.old_log }

unfoldable pub response_trans : TranArgs → AirlineServer → Result
unfolding apply_logs release_logs
response_trans args srv = elim (lookup args.tran_id srv.log_buf) [
  | none ↦ some (srv, [])
  | some logs ↦ elim (nat_beq args.vote commit) [
    | true ↦ elim (apply_logs logs srv) [
      | none ↦ none
      | some srv' ↦ some (finish args.tran_id args.vote srv', [])
    ]
    | false ↦ some (
      finish args.tran_id args.vote (record srv { lock_buf = release_logs logs srv.lock_buf }),
      [],
    )
  ]
]

abbrev or_undecided : Option ℕ → ℕ
or_undecided none = not_decided
or_undecided (some d) = d

unfoldable pub old_trans : TranArgs → AirlineServer → Result
old_trans args srv =
    some (srv, reply (decision (or_undecided (lookup args.tran_id srv.old_log))) ∷ [])

-- Only the votes COMMIT and ABORT end the transaction here. The value is an int, as the type assertion
-- wants it, and it panics on any other; PaxosTransaction sends a *TranArgs, which storeHandler drops.
unfoldable pub old_response : Text → ℕ → AirlineServer → Result
unfolding apply_logs release_logs
old_response t d srv = elim (lookup t srv.log_buf) [
  | none ↦ some (srv, [])
  | some logs ↦ elim (nat_beq d commit) [
    | true ↦ elim (apply_logs logs srv) [ none ↦ none | some srv' ↦ some (finish t d srv', []) ]
    | false ↦
        if nat_beq d abort
        then some (finish t d (record srv { lock_buf = release_logs logs srv.lock_buf }), [])
        else some (srv, [])
  ]
]

-- Whether a member could be dialled, and what its call gave.
pub data Ask : Type 0 where
  unreachable : Ask
  call_failed : Ask
  answered : ℕ → Ask

-- The loop of expireTrans over what the network does, from member `cnt` on: it leaves with the
-- status when a call failed. Decoding an answer leaves the status alone where the answer is 0.
unfoldable pub ask_members : List Text → List (Text → Ask) → ℕ → ℕ → Option ℕ
ask_members members [] cnt st = none
ask_members members (net ∷ nets) cnt st =
    let next = (cnt + 1) % length members in
    elim (get_elem? members cnt) [
      | none ↦ none
      | some m ↦ elim (net m) [
        | unreachable ↦ ask_members members nets next st
        | answered zero ↦ ask_members members nets next st
        | answered (suc n) ↦ ask_members members nets next (suc n)
        | call_failed ↦ elim (nat_beq st not_decided) [
          | true ↦ ask_members members nets next st
          | false ↦ some st
        ]
      ]
    ]

abbrev pub old_response_args : Text → ℕ → TranArgs
old_response_args t d = record {
  tran_type = trans_old_response;
  tran_id = t;
  flight_id = [];
  amount = 0;
  ppt_list = [];
  vote = d;
  tm = [];
}

unfoldable pub ask_and_report : List (Text → Ask) → Text → List TransLog → AirlineServer → Result
unfolding ask_members
ask_and_report nets t [] srv = none
ask_and_report nets t (l ∷ ls) srv = elim (ask_members (l.tm ∷ l.ppt_list) nets 0 not_decided) [
  | none ↦ none
  | some d ↦ some (srv, transaction (old_response_args t d) ∷ [])
]

unfoldable pub expire_trans : List (Text → Ask) → Bool → Text → AirlineServer → Result
unfolding ask_and_report
expire_trans nets own t srv = elim own [
  | false ↦ some (srv, [])
  | true ↦ elim (lookup t srv.log_buf) [
    | none ↦ some (srv, [])
    | some logs ↦ ask_and_report nets t logs srv
  ]
]
