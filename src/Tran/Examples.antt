-- ===== src/Tran/Examples.antt =====
-- contrib/tranlayer at concrete inputs: a transaction with the participants "p" and "q".
use airline_booking.Prelude.{
  ℕ, ◌≡◌, refl, ◌⊎◌, inl, inr, Bool, true, some, List, [], ◌∷◌, nat_eq, Text, codes, text_beq,
  text_eq, none, Bool-cases, subst, arith, text_beq_iff,
}
use airline_booking.Prelude.Assoc.{lookup, insert}
use airline_booking.Airline.Types.{trans_response, commit, abort, TranArgs}
use airline_booking.Tran.Types.{ActiveTrans, TranLayer, Effect, response_trans}
use airline_booking.Tran.Layer.{
  init, cast_vote, on_response, on_expired, transaction_handler, answer,
}
use airline_booking.Tran.Layer.Verdict.{IsOpen, Announced}
use airline_booking.Tran.Layer.Decide.{Waiting, Closing, vote_outcome}
use airline_booking.Tran.Layer.Expiry.{expiry_blocks}
use airline_booking.Tran.Layer.Opening.{Handled, IsWellFormed}
use airline_booking.Tran.Layer.Total.{handler_total}

abbrev half_voted : ActiveTrans
half_voted = record {
  decision = commit;
  finished = 1;
  ppt_map = (codes "p", 1) ∷ (codes "q", 2) ∷ [];
  commit_grp = (codes "p", 1) ∷ (codes "q", 0) ∷ [];
}

abbrev layer : TranLayer
layer = record (init (codes "m")) {
  active_trans_map = (codes "t", half_voted) ∷ [];
  defer_trans_map = (codes "t", 7) ∷ [];
}

abbrev vote_of : Text → ℕ → TranArgs
vote_of p v = record {
  tran_type = trans_response;
  tran_id = codes "t";
  flight_id = codes "F1";
  amount = 0;
  ppt_list = [];
  vote = v;
  tm = p;
}

abbrev reaches : Text → Bool
reaches m = true

half_voted-IsOpen : IsOpen layer (codes "t") 7 half_voted
unfolding lookup text_beq
half_voted-IsOpen = record {
  tallied = record { valid = (inr (inl refl), (inl refl, tt)); counted = refl; decided = refl };
  connected = ((1, refl), ((2, refl), tt));
  waits = refl;
  unanswered = refl;
}

vote_outcome_example :
    Waiting layer
      (codes "t")
      (cast_vote (codes "q") commit half_voted)
      (on_response reaches (vote_of (codes "q") commit) layer)
    ⊎ Closing layer
        (codes "t")
        (cast_vote (codes "q") commit half_voted)
        7
        (on_response reaches (vote_of (codes "q") commit) layer)
unfolding lookup text_beq
vote_outcome_example =
    vote_outcome reaches (vote_of (codes "q") commit) layer 7 half_voted half_voted-IsOpen refl refl
      (inl refl)

expiry_blocks_example :
    (es : List Effect) × (on_expired (codes "t") layer ≡ some (answer 7 layer, es))
    × Announced layer (codes "t") half_voted 7 es
    × (on_response reaches (vote_of (codes "q") abort) (answer 7 layer) ≡ none)
    × (on_expired (codes "t") (answer 7 layer) ≡ none)
unfolding lookup text_beq cast_vote insert
expiry_blocks_example =
    expiry_blocks reaches (vote_of (codes "q") abort) layer 7 half_voted half_voted-IsOpen refl refl
      (inr refl) refl

-- The only active transaction of `layer` is open.
layer-IsWellFormed : IsWellFormed layer
unfolding lookup
layer-IsWellFormed = record {
  opened = λ t a e. elim (Bool-cases (text_beq (codes "t") t)) [
    | inl same ↦
        let here : half_voted ≡ a = cc in
        (
          7,
          subst (λ u. IsOpen layer u 7 a) ((text_beq_iff (codes "t") t).0 same)
              (subst (IsOpen layer (codes "t") 7) here half_voted-IsOpen),
        )
    | inr other ↦ absurd (ground (arith, e, other))
  ];
  apart =
      λ t u c et eu. ground (arith, et, eu, text_beq_iff (codes "t") t, text_beq_iff (codes "t") u);
}

handler_total_example :
    Handled (transaction_handler reaches (response_trans (vote_of (codes "q") commit)) layer)
handler_total_example =
    handler_total reaches (response_trans (vote_of (codes "q") commit)) layer (refl, inl refl)
      layer-IsWellFormed
