-- ===== src/Tran/Layer.antt =====
-- contrib/tranlayer: the handlers of coordinator.go and requestHandler of tranlayer.go.
pub mod Tally
pub mod Verdict
pub mod Decide
pub mod Expiry
pub mod Opening
pub mod Total
pub mod Orders
use airline_booking.Prelude.{
  ℕ, zero, suc, ◌+◌, ◌-◌, ◌*◌, ◌/◌, ◌%◌, ◌≤◌, ◌<◌, ◌≡◌, refl, sym, ap, subst, ◌∙◌, ◌≢◌, ◌↔◌, ◌⊎◌,
  inl, inr, Bool, true, false, not, ◌&&◌, ◌||◌, Option, none, some, List, [], ◌∷◌, ◌++◌, arith, ltb,
  leb, nat_beq, if◌then◌else◌, ltb→lt, leb→le, nat_beq_iff, Eq, ◌==◌, nat_eq, Bool-cases,
  Option-cases, beq_self, beq_ne, length, get_elem?, length-append, All, All-append, All-mono, Any,
  Any-append_left, Any-append_right, elem, Distinct, Text, codes, text_beq, text_beq_iff, text_eq,
}
use airline_booking.Prelude.Assoc.{
  Assoc, lookup, insert, delete, lookup-insert, lookup-delete, length-insert_new, elem-missing,
  keys, keys-insert-Distinct, lookup-not_key, All-insert,
}
use mathlib.Core.Option.{map}
use airline_booking.Airline.Types.{trans_init, trans_response, not_decided, commit, abort, TranArgs}
use airline_booking.Tran.Types.{
  ActiveTrans, TranOrder, OldTransaction, TranLayer, Effect, call, call_server, reply_status,
  reply_decision, trans_timer, Request, init_trans, response_trans, trans_expired, old_trans,
}

-- `none`: a panic, or a send on a channel that nobody receives from.
abbrev pub Result : Type 0
Result = Option (TranLayer × List Effect)

-- NewTranLayer, less its registration.
abbrev pub init : Text → TranLayer
init myhostport = record {
  myhostport = myhostport;
  active_trans_map = [];
  defer_trans_map = [];
  old_transaction_map = [];
  old_log = [];
  answered = [];
}

unfoldable pub ppt_ids : List TranOrder → List Text
ppt_ids [] = []
ppt_ids (o ∷ os) = o.ppt_id ∷ ppt_ids os

unfoldable pub connections : List TranOrder → Assoc Text ℕ → Assoc Text ℕ
connections [] m = m
connections (o ∷ os) m = connections os (insert o.ppt_id o.conn m)

unfoldable pub electorate : List TranOrder → Assoc Text ℕ → Assoc Text ℕ
electorate [] m = m
electorate (o ∷ os) m = electorate os (insert o.ppt_id not_decided m)

unfoldable pub on_init : Text → List TranOrder → ℕ → TranLayer → Result
unfolding ppt_ids connections electorate
on_init t orders replyc tl = some (
  record tl {
    old_transaction_map =
        insert t (record { order_list = orders; ppt_list = ppt_ids orders }) tl.old_transaction_map;
    active_trans_map =
        insert t
          (record {
            decision = not_decided;
            finished = 0;
            ppt_map = connections orders [];
            commit_grp = electorate orders [];
          })
          tl.active_trans_map;
    defer_trans_map = insert t replyc tl.defer_trans_map;
  },
  [],
)

-- The message of a decision.
abbrev pub decision_args : Text → Text → Text → ℕ → TranArgs
decision_args self t f d = record {
  tran_type = trans_response;
  tran_id = t;
  flight_id = f;
  amount = 0;
  ppt_list = [];
  vote = d;
  tm = self;
}

-- The decision goes to every participant that voted COMMIT.
unfoldable pub send_decision : Text → Text → ℕ → Assoc Text ℕ → Assoc Text ℕ → Option (List Effect)
send_decision self t d conns [] = some []
send_decision self t d conns ((p, v) ∷ votes) =
    let rest = send_decision self t d conns votes in
    elim (nat_beq v commit) [
      | false ↦ rest
      | true ↦ elim (lookup p conns) [
        | none ↦ none
        | some conn ↦ map (λ es. call conn (decision_args self t p d) ∷ es) rest
      ]
    ]

abbrev pub answer : ℕ → TranLayer → TranLayer
answer c tl = record tl { answered = c ∷ tl.answered }

-- The client that waits for the transaction is told whether it was committed. A send on the nil channel
-- of a missing key, or a second one on the channel of a client, never ends.
unfoldable pub tell_client : Text → ℕ → TranLayer → Option (TranLayer × Effect)
tell_client t d tl = elim (lookup t tl.defer_trans_map) [
  | none ↦ none
  | some c ↦
      if elem c tl.answered then none else some (answer c tl, reply_status c (nat_beq d commit))
]

unfoldable pub announce : Text → ActiveTrans → TranLayer → Result
unfolding send_decision tell_client
announce t a tl = elim (send_decision tl.myhostport t a.decision a.ppt_map a.commit_grp) [
  | none ↦ none
  | some es ↦ map (λ x. (x.0, es ++ x.1 ∷ [])) (tell_client t a.decision tl)
]

-- A first vote of a participant: it is noted and counted, and an ABORT is never overruled.
unfoldable pub cast_vote : Text → ℕ → ActiveTrans → ActiveTrans
cast_vote p v a = record a {
  commit_grp = insert p v a.commit_grp;
  decision = if nat_beq a.decision abort then a.decision else v;
  finished = a.finished + 1;
}

abbrev pub concluded : Text → ActiveTrans → TranLayer → TranLayer
concluded t a tl = record tl {
  active_trans_map = delete t tl.active_trans_map;
  old_log = insert t a.decision tl.old_log;
}

-- After a vote: wait for the others, or decide.
unfoldable pub count_vote : Text → ActiveTrans → TranLayer → Result
unfolding announce
count_vote t a tl = elim (ltb a.finished (length a.commit_grp)) [
  | true ↦ some (record tl { active_trans_map = insert t a tl.active_trans_map }, [])
  | false ↦ map (λ x. (concluded t a x.0, x.1)) (announce t a tl)
]

-- A vote for a transaction that is not active any more is answered with its decision; the connection
-- to its sender is used without a look at the error.
unfoldable pub late_vote : (Text → Bool) → TranArgs → TranLayer → Result
late_vote reachable args tl = elim (lookup args.tran_id tl.old_log) [
  | none ↦ some (tl, [])
  | some d ↦
      if reachable args.tm
      then some
          (tl, call_server args.tm (decision_args tl.myhostport args.tran_id args.flight_id d) ∷ [])
      else none
]

unfoldable pub on_response : (Text → Bool) → TranArgs → TranLayer → Result
unfolding count_vote late_vote cast_vote
on_response reachable args tl = elim (lookup args.tran_id tl.active_trans_map) [
  | none ↦ late_vote reachable args tl
  | some a ↦ elim (lookup args.tm a.commit_grp) [
    | none ↦ some (tl, [])
    | some v ↦ elim (nat_beq v not_decided) [
      | false ↦ some (tl, [])
      | true ↦ count_vote args.tran_id (cast_vote args.tm args.vote a) tl
    ]
  ]
]

abbrev or_undecided : Option ℕ → ℕ
or_undecided none = not_decided
or_undecided (some d) = d

unfoldable pub on_old : TranArgs → ℕ → TranLayer → Result
on_old args replyc tl =
    some (tl, reply_decision replyc (or_undecided (lookup args.tran_id tl.old_log)) ∷ [])

-- The expiry announces the decision of the votes so far; the transaction stays active.
unfoldable pub on_expired : Text → TranLayer → Result
unfolding announce
on_expired t tl = elim (lookup t tl.active_trans_map) [
  | none ↦ some (tl, [])
  | some a ↦ announce t a tl
]

unfoldable pub transaction_handler : (Text → Bool) → Request → TranLayer → Result
unfolding on_init on_response on_expired on_old
transaction_handler reachable (init_trans t orders replyc) tl = on_init t orders replyc tl
transaction_handler reachable (response_trans args) tl = on_response reachable args tl
transaction_handler reachable (trans_expired t) tl = on_expired t tl
transaction_handler reachable (old_trans args replyc) tl = on_old args replyc tl

-- The message that starts a transaction at a participant.
abbrev pub init_args : Text → Text → List Text → TranOrder → TranArgs
init_args self t ppts o = record {
  tran_type = trans_init;
  tran_id = t;
  flight_id = o.flight_id;
  amount = o.amount;
  ppt_list = ppts;
  vote = 0;
  tm = self;
}

-- One round of requestHandler for a transaction with orders to send: `Remove` on an empty list gives
-- nil, which is no order.
unfoldable pub send_order : Text → List Text → List TranOrder → TranLayer → Result
send_order t ppts [] tl = none
send_order t ppts (o ∷ []) tl = some (
  record tl { old_transaction_map = delete t tl.old_transaction_map },
  call o.conn (init_args tl.myhostport t ppts o) ∷ trans_timer t ∷ [],
)
send_order t ppts (o ∷ next ∷ later) tl = some (
  record tl {
    old_transaction_map =
        insert t (record { order_list = next ∷ later; ppt_list = ppts }) tl.old_transaction_map;
  },
  call o.conn (init_args tl.myhostport t ppts o) ∷ [],
)

-- The rounds of requestHandler before it takes the next request.
unfoldable pub send_orders : ℕ → TranLayer → Result
unfolding send_order
send_orders zero tl = none
send_orders (suc rounds) tl = elim tl.old_transaction_map [
  | [] ↦ some (tl, [])
  | (t, old) ∷ m ↦ elim (send_order t old.ppt_list old.order_list tl) [
    | none ↦ none
    | some (tl', es) ↦ map (λ r. (r.0, es ++ r.1)) (send_orders rounds tl')
  ]
]
