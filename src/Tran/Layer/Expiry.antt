-- ===== src/Tran/Layer/Expiry.antt =====
-- contrib/tranlayer/coordinator.go: an expiry answers the client before all votes are in.
use airline_booking.Prelude.{
  ℕ, ◌≡◌, inl, inr, Bool, some, List, arith, nat_eq, length, Text, text_eq, none, elem, refl,
  beq_self, Option-cases, ltb, true, false,
}
use airline_booking.Prelude.Assoc.{lookup}
use airline_booking.Airline.Types.{not_decided, TranArgs}
use airline_booking.Tran.Types.{ActiveTrans, TranLayer, Effect}
use airline_booking.Tran.Layer.{
  cast_vote, on_expired, on_response, answer, announce, send_decision, tell_client, count_vote,
}
use airline_booking.Tran.Layer.Tally.{votes_in, IsVote, cast_vote-IsTallied}
use airline_booking.Tran.Layer.Verdict.{IsOpen, Announced, announce_total}

pub on_expired-announces :
    (tl : TranLayer) (t : Text) (client : ℕ) (a : ActiveTrans)
    → IsOpen tl t client a
    → lookup t tl.active_trans_map ≡ some a
    → (es : List Effect) × (on_expired t tl ≡ some (answer client tl, es))
      × Announced tl t a client es
unfolding on_expired
on_expired-announces tl t client a o active =
    let (es, e, told) = announce_total tl t client a o in (es, rw (active, on_expired, e), told)

-- A second answer to a client never ends.
announce_blocked :
    (tl : TranLayer) (t : Text) (client : ℕ) (a : ActiveTrans)
    → lookup t tl.defer_trans_map ≡ some client
    → elem client tl.answered ≡ true
    → announce t a tl ≡ none
unfolding announce
announce_blocked tl t client a waits told =
    elim (Option-cases (send_decision tl.myhostport t a.decision a.ppt_map a.commit_grp)) [
      | inl failed ↦ rw (announce, failed) refl
      | inr (es, sent) ↦ rw (announce, sent, nobody) refl
    ]
  where
    nobody : tell_client t a.decision tl ≡ none
    nobody = rw (tell_client, waits, told) refl

-- A transaction that is open, and a first vote of a participant that is the last one to come in. If the
-- transaction expires before that vote, the expiry sends the decision of the votes so far to those that
-- voted COMMIT and answers the client; after it the vote blocks the handler for ever, and so does
-- another expiry.
pub expiry_blocks :
    (reachable : Text → Bool) (args : TranArgs) (tl : TranLayer) (client : ℕ) (a : ActiveTrans)
    → IsOpen tl args.tran_id client a
    → lookup args.tran_id tl.active_trans_map ≡ some a
    → lookup args.tm a.commit_grp ≡ some not_decided
    → IsVote args.vote
    → let a' = cast_vote args.tm args.vote a in
      votes_in a'.commit_grp ≡ length a'.commit_grp
      → (es : List Effect) × (on_expired args.tran_id tl ≡ some (answer client tl, es))
        × Announced tl args.tran_id a client es
        × (on_response reachable args (answer client tl) ≡ none)
        × (on_expired args.tran_id (answer client tl) ≡ none)
unfolding on_expired on_response count_vote
expiry_blocks reachable args tl client a o active undecided vote last =
    let (es, e, told) = on_expired-announces tl args.tran_id client a o active in
    let a' = cast_vote args.tm args.vote a in
    let tl' = answer client tl in
    let twice : elem client tl'.answered ≡ true = ground (arith, beq_self client) in
    let tallied = cast_vote-IsTallied args.tm args.vote a vote undecided o.tallied in
    let complete : ltb a'.finished (length a'.commit_grp) ≡ false =
      ground (arith, tallied.counted, last) in
    (
      es,
      e,
      told,
      rw
          (
            on_response,
            active,
            undecided,
            count_vote,
            complete,
            announce_blocked tl' args.tran_id client a' o.waits twice,
          )
          refl,
      rw (on_expired, active, announce_blocked tl' args.tran_id client a o.waits twice) refl,
    )
