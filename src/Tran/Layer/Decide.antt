-- ===== src/Tran/Layer/Decide.antt =====
-- contrib/tranlayer/coordinator.go: responseTrans decides when the last vote is in.
use airline_booking.Prelude.{
  ℕ, ◌<◌, ◌≡◌, refl, sym, ap, subst, ◌∙◌, ◌↔◌, ◌⊎◌, inl, inr, Bool, some, List, [], ◌∷◌, arith, ltb,
  nat_eq, Bool-cases, length, All, Text, text_beq, text_beq_iff, text_eq,
}
use airline_booking.Prelude.Assoc.{Assoc, lookup, insert, All-insert}
use airline_booking.Airline.Types.{not_decided, commit, TranArgs}
use airline_booking.Tran.Types.{ActiveTrans, TranLayer, Effect}
use airline_booking.Tran.Layer.{Result, cast_vote, answer, concluded, count_vote, on_response}
use airline_booking.Tran.Layer.Tally.{
  votes_in, IsVote, cast_vote-IsTallied, all_in, verdict_unanimous,
}
use airline_booking.Tran.Layer.Verdict.{IsConnected, IsOpen, Announced, announce_total}

connection_of :
    (conns m : Assoc Text ℕ) (p : Text) (v : ℕ)
    → lookup p m ≡ some v
    → All (IsConnected conns) m
    → (conn : ℕ) × (lookup p conns ≡ some conn)
unfolding lookup
connection_of conns [] p v h a = cc
connection_of conns ((q, w) ∷ m) p v h a = elim (Bool-cases (text_beq q p)) [
  | inl same ↦ (a.0.0, ap (λ x. lookup x conns) (sym ((text_beq_iff q p).0 same)) ∙ a.0.1)
  | inr other ↦ connection_of conns m p v (ground (arith, h, other)) a.1
]

insert_nonempty : (p : Text) (v : ℕ) (m : Assoc Text ℕ) → 0 < length (insert p v m)
unfolding insert
insert_nonempty p v [] = omega arith
insert_nonempty p v ((q, w) ∷ m) = ground arith

-- A vote leaves the transaction open.
pub cast_vote-IsOpen :
    (tl : TranLayer) (t p : Text) (client v : ℕ) (a : ActiveTrans)
    → IsVote v
    → lookup p a.commit_grp ≡ some not_decided
    → IsOpen tl t client a
    → IsOpen tl t client (cast_vote p v a)
unfolding cast_vote
cast_vote-IsOpen tl t p client v a k h o = record {
  tallied = cast_vote-IsTallied p v a k h o.tallied;
  connected =
      All-insert (IsConnected a.ppt_map) p v a.commit_grp
        (connection_of a.ppt_map a.commit_grp p not_decided h o.connected) o.connected;
  waits = o.waits;
  unanswered = o.unanswered;
}

-- The coordinator goes on waiting: not all have voted, and nothing is sent.
pub record Waiting (tl : TranLayer) (t : Text) (a : ActiveTrans) (r : Result) : Type 0 where
  pub missing : votes_in a.commit_grp < length a.commit_grp
  pub result : r ≡ some (record tl { active_trans_map = insert t a tl.active_trans_map }, [])

-- The coordinator has decided: all have voted, the decision is COMMIT exactly if all votes are, it is
-- remembered, and it is sent to all that voted COMMIT and to the client.
pub record Closing (tl : TranLayer) (t : Text) (a : ActiveTrans) (client : ℕ) (r : Result)
    : Type 0 where
  pub all_voted : All (λ e. IsVote e.1) a.commit_grp
  pub unanimous : (a.decision ≡ commit) ↔ All (λ e. e.1 ≡ commit) a.commit_grp
  pub sent : List Effect
  pub announced : Announced tl t a client sent
  pub result : r ≡ some (concluded t a (answer client tl), sent)

count_vote-cases :
    (tl : TranLayer) (t : Text) (client : ℕ) (a : ActiveTrans)
    → IsOpen tl t client a
    → 0 < length a.commit_grp
    → Waiting tl t a (count_vote t a tl) ⊎ Closing tl t a client (count_vote t a tl)
unfolding count_vote
count_vote-cases tl t client a o pos = elim (Bool-cases (ltb a.finished (length a.commit_grp))) [
  | inl wait ↦
      inl (record {
        missing = ground (arith, wait, o.tallied.counted);
        result = rw (wait, count_vote);
      })
  | inr done ↦
      let (es, e, told) = announce_total tl t client a o in
      let all = all_in a.commit_grp (ground (arith, done, o.tallied.counted)) o.tallied.valid in
      let (to, from) = verdict_unanimous a.commit_grp all pos in
      inr (record {
        all_voted = all;
        unanimous = (λ d. to (sym o.tallied.decided ∙ d), λ us. o.tallied.decided ∙ from us);
        sent = es;
        announced = told;
        result = rw (done, count_vote, e);
      })
]

-- A first vote, COMMIT or ABORT, of a participant of an open transaction: while votes are missing the
-- coordinator only notes it; with the last one it decides, COMMIT exactly if all voted COMMIT, and
-- tells the decision to every participant that voted COMMIT and to the waiting client.
pub vote_outcome :
    (reachable : Text → Bool) (args : TranArgs) (tl : TranLayer) (client : ℕ) (a : ActiveTrans)
    → IsOpen tl args.tran_id client a
    → lookup args.tran_id tl.active_trans_map ≡ some a
    → lookup args.tm a.commit_grp ≡ some not_decided
    → IsVote args.vote
    → let a' = cast_vote args.tm args.vote a in
      Waiting tl args.tran_id a' (on_response reachable args tl)
      ⊎ Closing tl args.tran_id a' client (on_response reachable args tl)
unfolding on_response
vote_outcome reachable args tl client a o active undecided vote =
    let a' = cast_vote args.tm args.vote a in
    let same : on_response reachable args tl ≡ count_vote args.tran_id a' tl =
      rw (active, on_response, undecided) refl in
    subst (λ r. Waiting tl args.tran_id a' r ⊎ Closing tl args.tran_id a' client r) (sym same)
      (count_vote-cases tl args.tran_id client a'
        (cast_vote-IsOpen tl args.tran_id args.tm client args.vote a vote undecided o)
        (unfold cast_vote in insert_nonempty args.tm args.vote a.commit_grp))
