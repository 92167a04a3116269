-- ===== src/Tran/Layer/Total.antt =====
-- contrib/tranlayer/coordinator.go: the handlers keep every transaction open until it is decided.
use airline_booking.Prelude.{
  ℕ, ◌≡◌, refl, sym, ap, subst, ◌∙◌, inl, inr, Bool, true, some, [], ◌∷◌, arith, nat_beq,
  nat_beq_iff, nat_eq, Bool-cases, Option-cases, Text, text_beq, text_beq_iff, text_eq, elem, ◌≢◌,
  false, none,
}
use airline_booking.Prelude.Assoc.{lookup, insert, lookup-insert, lookup-delete}
use airline_booking.Airline.Types.{not_decided, TranArgs}
use airline_booking.Tran.Types.{
  ActiveTrans, TranLayer, call_server, Request, init_trans, response_trans, trans_expired,
  old_trans,
}
use airline_booking.Tran.Layer.{
  on_expired, on_response, on_old, late_vote, cast_vote, decision_args, transaction_handler,
  concluded, answer,
}
use airline_booking.Tran.Layer.Tally.{IsVote}
use airline_booking.Tran.Layer.Verdict.{IsOpen}
use airline_booking.Tran.Layer.Decide.{vote_outcome, cast_vote-IsOpen}
use airline_booking.Tran.Layer.Opening.{IsWellFormed, Handled, on_init-Handled, IsFresh}

IsOpen-cast :
    (tl tl' : TranLayer) (t : Text) (client : ℕ) (a : ActiveTrans)
    → tl'.defer_trans_map ≡ tl.defer_trans_map
    → elem client tl'.answered ≡ false
    → IsOpen tl t client a
    → IsOpen tl' t client a
IsOpen-cast tl tl' t client a same silent o = record {
  tallied = o.tallied;
  connected = o.connected;
  waits = ap (lookup t) same ∙ o.waits;
  unanswered = silent;
}

late_vote-Handled :
    (reachable : Text → Bool) (args : TranArgs) (tl : TranLayer)
    → reachable args.tm ≡ true
    → IsWellFormed tl
    → Handled (late_vote reachable args tl)
unfolding late_vote
late_vote-Handled reachable args tl up w = elim (Option-cases (lookup args.tran_id tl.old_log)) [
  | inl unknown ↦ (tl, [], rw (unknown, late_vote), w)
  | inr (d, known) ↦ (
    tl,
    call_server args.tm (decision_args tl.myhostport args.tran_id args.flight_id d) ∷ [],
    rw (known, late_vote, up),
    w,
  )
]

not_told :
    (client c : ℕ) (tl : TranLayer)
    → client ≢ c
    → elem c tl.answered ≡ false
    → elem c (answer client tl).answered ≡ false
not_told client c tl n silent = ground (arith, silent, n)

-- Different transactions have different clients.
own :
    (t u : Text) (client c : ℕ) (tl : TranLayer)
    → IsWellFormed tl
    → lookup t tl.defer_trans_map ≡ some client
    → lookup u tl.defer_trans_map ≡ some c
    → text_beq t u ≡ false
    → client ≢ c
own t u client c tl w here there other same =
    let equal : t ≡ u = w.apart t u client here (there ∙ ap (λ n. some n) (sym same)) in
    absurd (ground (arith, (text_beq_iff t u).1 equal, other))

vote-Handled :
    (reachable : Text → Bool) (args : TranArgs) (tl : TranLayer) (a : ActiveTrans)
    → IsVote args.vote
    → IsWellFormed tl
    → lookup args.tran_id tl.active_trans_map ≡ some a
    → lookup args.tm a.commit_grp ≡ some not_decided
    → Handled (on_response reachable args tl)
vote-Handled reachable args tl a vote w active undecided =
    let t = args.tran_id in
    let (client, o) = w.opened t a active in
    let a' = cast_vote args.tm args.vote a in
    let tl' : TranLayer = record tl { active_trans_map = insert t a' tl.active_trans_map } in
    elim (vote_outcome reachable args tl client a o active undecided vote) [
      | inl k ↦ (
        _,
        [],
        k.result,
        record {
          opened = λ u b e. elim (Bool-cases (text_beq t u)) [
            | inl same ↦
                let here : a' ≡ b =
                  ground (arith, lookup-insert t u a' tl.active_trans_map, same, e) in
                (
                  client,
                  subst (λ v. IsOpen tl' v client b) ((text_beq_iff t u).0 same)
                      (subst (IsOpen tl' t client) here (
                        IsOpen-cast tl tl' t client a' refl o.unanswered
                          (cast_vote-IsOpen tl t args.tm client args.vote a vote undecided o))),
                )
            | inr other ↦
                let (c, o') =
                  w.opened u b
                    (ground (arith, lookup-insert t u a' tl.active_trans_map, other, e)) in
                (c, IsOpen-cast tl tl' u c b refl o'.unanswered o')
          ];
          apart = w.apart;
        },
      )
      | inr k ↦ (
        concluded t a' (answer client tl),
        k.sent,
        k.result,
        record {
          opened = λ u b e.
              let (c, o') =
                w.opened u b (ground (arith, lookup-delete t u tl.active_trans_map, e)) in
              let other : text_beq t u ≡ false =
                ground (arith, lookup-delete t u tl.active_trans_map, e) in
              (
                c,
                IsOpen-cast tl (concluded t a' (answer client tl)) u c b refl
                    (not_told client c tl (own t u client c tl w o.waits o'.waits other)
                      o'.unanswered)
                    o',
              );
          apart = w.apart;
        },
      )
    ]

on_response-Handled :
    (reachable : Text → Bool) (args : TranArgs) (tl : TranLayer)
    → reachable args.tm ≡ true
    → IsVote args.vote
    → IsWellFormed tl
    → Handled (on_response reachable args tl)
unfolding on_response
on_response-Handled reachable args tl up vote w =
    elim (Option-cases (lookup args.tran_id tl.active_trans_map)) [
      | inl gone ↦
          subst Handled (sym (rw (gone, on_response) refl))
            (late_vote-Handled reachable args tl up w)
      | inr (a, active) ↦ elim (Option-cases (lookup args.tm a.commit_grp)) [
        | inl stranger ↦ (tl, [], rw (active, on_response, stranger), w)
        | inr (v, there) ↦ elim (Bool-cases (nat_beq v not_decided)) [
          | inl fresh ↦
              vote-Handled reachable args tl a vote w active
                (there ∙ ap (λ n. some n) ((nat_beq_iff v not_decided).0 fresh))
          | inr again ↦ (tl, [], rw (active, on_response, there, again), w)
        ]
      ]
    ]

-- Votes are COMMIT or ABORT and come from servers that can be reached, a new transaction has a reply
-- channel of its own, and what expires is not active any more.
abbrev pub IsProper : (Text → Bool) → TranLayer → Request → Type 0
IsProper reachable tl (init_trans t orders replyc) = IsFresh replyc tl
IsProper reachable tl (response_trans args) = (reachable args.tm ≡ true) × IsVote args.vote
IsProper reachable tl (trans_expired t) = lookup t tl.active_trans_map ≡ none
IsProper reachable tl (old_trans args replyc) = Unit

-- A coordinator whose active transactions are open (votes tallied, connected to every participant, a
-- client of their own that waits and was sent nothing), given any request but the expiry of an active
-- transaction, where a vote is COMMIT or ABORT from a server that can be reached and a new
-- transaction comes with a new reply channel: the handler returns, without a panic and without a send
-- that never ends, and the active transactions are open.
pub handler_total :
    (reachable : Text → Bool) (r : Request) (tl : TranLayer)
    → IsProper reachable tl r
    → IsWellFormed tl
    → Handled (transaction_handler reachable r tl)
unfolding transaction_handler on_old on_expired
handler_total reachable (init_trans t orders replyc) tl p w = on_init-Handled t orders replyc tl p w
handler_total reachable (response_trans args) tl p w =
    on_response-Handled reachable args tl p.0 p.1 w
handler_total reachable (old_trans args replyc) tl p w = (tl, _, refl, w)
handler_total reachable (trans_expired t) tl p w = (tl, [], rw (on_expired, p) refl, w)
