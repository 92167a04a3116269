-- ===== src/Tran/Layer/Opening.antt =====
-- contrib/tranlayer/coordinator.go: initTrans opens a transaction.
use airline_booking.Prelude.{
  ℕ, ◌≡◌, refl, sym, subst, ◌∙◌, inl, inr, false, some, List, [], ◌∷◌, arith, nat_eq, Bool-cases,
  All, Text, text_beq, text_beq_iff, text_eq, elem, ◌≢◌, true,
}
use airline_booking.Prelude.Assoc.{
  Assoc, lookup, insert, lookup-insert, All-insert, lookup-insert_other,
}
use airline_booking.Airline.Types.{not_decided, commit, abort}
use airline_booking.Tran.Types.{ActiveTrans, TranOrder, TranLayer, Effect}
use airline_booking.Tran.Layer.{Result, connections, electorate, on_init}
use airline_booking.Tran.Layer.Tally.{votes_in, has_vote, IsEntry, IsTallied}
use airline_booking.Tran.Layer.Verdict.{IsConnected, IsOpen}

-- Every active transaction is open, and no two transactions have the same client.
pub record IsWellFormed (tl : TranLayer) : Type 0 where
  pub opened :
      (t : Text) (a : ActiveTrans)
      → lookup t tl.active_trans_map ≡ some a
      → (client : ℕ) × IsOpen tl t client a
  pub apart :
      (t u : Text) (c : ℕ)
      → lookup t tl.defer_trans_map ≡ some c
      → lookup u tl.defer_trans_map ≡ some c
      → t ≡ u

-- A reply channel that is new.
pub record IsFresh (c : ℕ) (tl : TranLayer) : Type 0 where
  pub silent : elem c tl.answered ≡ false
  pub unused : (u : Text) → lookup u tl.defer_trans_map ≢ some c

abbrev pub Handled : Result → Type 0
Handled r = (tl : TranLayer) × (es : List Effect) × (r ≡ some (tl, es)) × IsWellFormed tl

-- A new transaction has a connection to every participant.
IsConnected-insert :
    (conns : Assoc Text ℕ) (p : Text) (c : ℕ) (m : Assoc Text ℕ)
    → All (IsConnected conns) m
    → All (IsConnected (insert p c conns)) m
IsConnected-insert conns p c [] a = tt
IsConnected-insert conns p c (e ∷ m) a = (
  elim (Bool-cases (text_beq p e.0)) [
    | inl same ↦ (c, ground (arith, lookup-insert p e.0 c conns, same))
    | inr other ↦ (a.0.0, ground (arith, lookup-insert p e.0 c conns, other) ∙ a.0.1)
  ],
  IsConnected-insert conns p c m a.1,
)

electorate-IsConnected :
    (orders : List TranOrder) (conns m : Assoc Text ℕ)
    → All (IsConnected conns) m
    → All (IsConnected (connections orders conns)) (electorate orders m)
unfolding connections electorate
electorate-IsConnected [] conns m a = a
electorate-IsConnected (o ∷ os) conns m a =
    electorate-IsConnected os (insert o.ppt_id o.conn conns) (insert o.ppt_id not_decided m) (
      All-insert (IsConnected (insert o.ppt_id o.conn conns)) o.ppt_id not_decided m
        (
          o.conn,
          ground
              (arith, lookup-insert o.ppt_id o.ppt_id o.conn conns, text_beq_iff o.ppt_id o.ppt_id),
        )
        (IsConnected-insert conns o.ppt_id o.conn m a))

abbrev IsBlank : Text × ℕ → Type 0
IsBlank e = e.1 ≡ not_decided

electorate-IsBlank :
    (orders : List TranOrder) (m : Assoc Text ℕ) → All IsBlank m → All IsBlank (electorate orders m)
unfolding electorate
electorate-IsBlank [] m a = a
electorate-IsBlank (o ∷ os) m a =
    electorate-IsBlank os (insert o.ppt_id not_decided m)
      (All-insert IsBlank o.ppt_id not_decided m refl a)

blank_votes :
    (m : Assoc Text ℕ)
    → All IsBlank m
    → All IsEntry m × (votes_in m ≡ 0) × (has_vote abort m ≡ false) × (has_vote commit m ≡ false)
blank_votes [] a = (tt, refl, refl, refl)
blank_votes ((p, v) ∷ m) a =
    let (all, none_in, no_abort, no_commit) = blank_votes m a.1 in
    (
      (inl a.0, all),
      ground (arith, a.0, none_in),
      ground (arith, a.0, no_abort),
      ground (arith, a.0, no_commit),
    )

pub on_init-Handled :
    (t : Text) (orders : List TranOrder) (replyc : ℕ) (tl : TranLayer)
    → IsFresh replyc tl
    → IsWellFormed tl
    → Handled (on_init t orders replyc tl)
unfolding on_init
on_init-Handled t orders replyc tl fresh w = (
  _,
  _,
  refl,
  record {
    opened = λ u a e. elim (Bool-cases (text_beq t u)) [
      | inl same ↦
          let votes = electorate orders [] in
          let (all, none_in, no_abort, no_commit) =
            blank_votes votes (electorate-IsBlank orders [] tt) in
          let here : new ≡ a = ground (arith, lookup-insert t u new tl.active_trans_map, same, e) in
          (
            replyc,
            record {
              tallied = subst IsTallied here (record {
                valid = all;
                counted = sym none_in;
                decided = ground (arith, no_abort, no_commit);
              });
              connected =
                  subst (λ b. All (IsConnected b.ppt_map) b.commit_grp) here
                    (electorate-IsConnected orders [] [] tt);
              waits = ground (arith, lookup-insert t u replyc tl.defer_trans_map, same);
              unanswered = fresh.silent;
            },
          )
      | inr other ↦
          let (client, o) =
            w.opened u a (ground (arith, lookup-insert t u new tl.active_trans_map, other, e)) in
          (
            client,
            record {
              tallied = o.tallied;
              connected = o.connected;
              waits = ground (arith, lookup-insert t u replyc tl.defer_trans_map, other) ∙ o.waits;
              unanswered = o.unanswered;
            },
          )
    ];
    apart = λ u v c eu ev. elim (Bool-cases (text_beq t u)) [
      | inl here ↦ elim (Bool-cases (text_beq t v)) [
        | inl there ↦ sym ((text_beq_iff t u).0 here) ∙ (text_beq_iff t v).0 there
        | inr other ↦ absurd (fresh.unused v (old v other ∙ ev ∙ sym eu ∙ sym (now u here)))
      ]
      | inr elsewhere ↦ elim (Bool-cases (text_beq t v)) [
        | inl there ↦ absurd (fresh.unused u (old u elsewhere ∙ eu ∙ sym ev ∙ sym (now v there)))
        | inr other ↦ w.apart u v c (old u elsewhere ∙ eu) (old v other ∙ ev)
      ]
    ];
  },
)
  where
    new : ActiveTrans
    new = record {
      decision = not_decided;
      finished = 0;
      ppt_map = connections orders [];
      commit_grp = electorate orders [];
    }

    old :
        (u : Text)
        → text_beq t u ≡ false
        → lookup u tl.defer_trans_map ≡ lookup u (insert t replyc tl.defer_trans_map)
    old u n = sym (lookup-insert_other t u replyc tl.defer_trans_map n)

    now :
        (u : Text)
        → text_beq t u ≡ true
        → some replyc ≡ lookup u (insert t replyc tl.defer_trans_map)
    now u same = ground (arith, lookup-insert t u replyc tl.defer_trans_map, same)
