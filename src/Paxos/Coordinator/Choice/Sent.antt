-- ===== src/Paxos/Coordinator/Choice/Sent.antt =====
-- contrib/libpaxos/coordinator.go: phase 2 sends one value, and it is the right one.
use mathlib.Core.List.{append_assoc, append-nil}
use airline_booking.Prelude.{
  ℕ, ◌≤◌, ◌<◌, ◌≡◌, refl, sym, ap, subst, ◌∙◌, ◌≢◌, ◌⊎◌, inl, inr, Bool, true, false, Option, none,
  some, List, [], ◌∷◌, ◌++◌, arith, ltb, leb, if◌then◌else◌, ltb→lt, leb→le, nat_eq, Bool-cases,
  length, All, All-append, Any, Distinct, Text, text_beq_iff, text_eq,
}
use airline_booking.Paxos.Coordinator.{
  CoordinatorProtocol, next_value, prepared, note_response, hear, msg, prepare_ok, decide, Msg,
  accept, init_protocol,
}
use airline_booking.Paxos.Coordinator.Choice.{Reply, answers, cons_some, sends_once}
use airline_booking.Paxos.Coordinator.Choice.Evidence.{
  Electorate, Highest, hear-Highest, record_response-Electorate, recorded_bound,
}

-- The round is open: nothing has been sent, and the replies `hs` have been heard.
record IsOpen (own : Text) (n : ℕ) (hs : List Reply) (e : CoordinatorProtocol) : Type 0 where
  fresh : e.nvalue ≡ []
  mine : e.pvalue ≡ own
  number : e.proposal ≡ n
  electorate : Electorate hs e.responses
  highest : Highest hs e.aproposal e.avalue

-- The value of the highest accepted proposal among the replies, or the coordinator's own value where
-- no reply names one.
pub record IsRightValue (own : Text) (hs : List Reply) (v : Text) : Type 0 where
  pub top : ℕ
  pub bound : All (λ r. r.number ≤ top) hs
  pub origin :
      ((top ≡ 0) × (v ≡ own)) ⊎ ((0 < top) × Any (λ r. (r.number ≡ top) × (r.value ≡ v)) hs)

-- At least `quorum` different replicas are among the senders of the replies.
pub record HasQuorum (quorum : ℕ) (hs : List Reply) : Type 0 where
  pub voters : List Text
  pub distinct : Distinct voters
  pub enough : quorum ≤ length voters
  pub heard : All (λ w. Any (λ r. r.from ≡ w) hs) voters

-- An accepted proposal has a value.
abbrev pub HasValue : Reply → Type 0
HasValue r = 0 < r.number → r.value ≢ []

next_value-IsRightValue :
    (own : Text) (n : ℕ) (hs : List Reply) (e : CoordinatorProtocol)
    → IsOpen own n hs e
    → IsRightValue own hs (next_value e)
next_value-IsRightValue own n hs e o = elim (Bool-cases (ltb 0 e.aproposal)) [
  | inl up ↦
      let positive : 0 < e.aproposal = ltb→lt 0 e.aproposal up in
      let source : Any (λ r. (r.number ≡ e.aproposal) × (r.value ≡ e.avalue)) hs =
        elim o.highest.source [ inl z ↦ absurd (omega arith) | inr s ↦ s ] in
      rw up (record { top = e.aproposal; bound = o.highest.bound; origin = inr (positive, source) })
  | inr none_yet ↦
      rw none_yet
        (record { top = e.aproposal; bound = o.highest.bound; origin = inl (ground arith, o.mine) })
]

has_value :
    (n : ℕ) (v : Text) (hs : List Reply)
    → 0 < n
    → All HasValue hs
    → Any (λ r. (r.number ≡ n) × (r.value ≡ v)) hs
    → v ≢ []
has_value n v [] pos all h = elim h [ ]
has_value n v (r ∷ hs) pos all (inl (e, f)) = λ z. all.0 (rw e pos) (f ∙ z)
has_value n v (r ∷ hs) pos all (inr h) = has_value n v hs pos all.1 h

value-ne-nil :
    (own : Text) (hs : List Reply) (v : Text)
    → own ≢ []
    → All HasValue hs
    → IsRightValue own hs v
    → v ≢ []
value-ne-nil own hs v own_value all r = elim r.origin [
  | inl (z, e) ↦ rw e own_value
  | inr (pos, s) ↦ has_value r.top v hs pos all s
]

module _ (quorum i : ℕ) where
  abbrev heard_of : Reply → CoordinatorProtocol → CoordinatorProtocol
  heard_of r e = note_response r.from (hear (msg prepare_ok r.number r.value i) e)

  hear-responses :
      (r : Reply) (e : CoordinatorProtocol)
      → (hear (msg prepare_ok r.number r.value i) e).responses ≡ e.responses
  unfolding hear
  hear-responses r e = ground arith

  heard_of-IsOpen :
      (own : Text) (n : ℕ) (hs : List Reply) (r : Reply) (e : CoordinatorProtocol)
      → IsOpen own n hs e
      → IsOpen own n (hs ++ r ∷ []) (heard_of r e)
  unfolding note_response
  heard_of-IsOpen own n hs r e o = record {
    fresh = unfold hear in ground (arith, o.fresh);
    mine = unfold hear in ground (arith, o.mine);
    number = unfold hear in ground (arith, o.number);
    electorate =
        record_response-Electorate hs r _
          (subst (Electorate hs) (sym (hear-responses r e)) o.electorate);
    highest = hear-Highest hs r i e o.highest;
  }

  prepared_open :
      (r : Reply) (e : CoordinatorProtocol)
      → e.nvalue ≡ []
      → prepared quorum (msg prepare_ok r.number r.value i) r.from e
        ≡ decide quorum i (heard_of r e)
  unfolding prepared
  prepared_open r e h =
      ap (λ b. if b then decide quorum i (heard_of r e) else (e, none))
        ((text_beq_iff e.nvalue []).1 h)

  abbrev go_on : List Reply → CoordinatorProtocol × Option Msg → CoordinatorProtocol × List Msg
  go_on rs (e, out) = let (e', ms) = answers quorum i e rs in (e', cons_some out ms)

  abbrev closed : CoordinatorProtocol → CoordinatorProtocol
  closed e = record e { nvalue = next_value e }

  abbrev proposal_of : CoordinatorProtocol → Msg
  proposal_of e = msg accept e.proposal (next_value e) i

  -- What the end of `prepared` returns, by the outcome of its test.
  abbrev decided : CoordinatorProtocol → Bool → CoordinatorProtocol × Option Msg
  decided e b = if b then (closed e, some (proposal_of e)) else (e, none)

  prepared-decided :
      (r : Reply) (e : CoordinatorProtocol) (b : Bool)
      → e.nvalue ≡ []
      → leb quorum (length (heard_of r e).responses) ≡ b
      → prepared quorum (msg prepare_ok r.number r.value i) r.from e ≡ decided (heard_of r e) b
  unfolding decide
  prepared-decided r e b fresh h = prepared_open r e fresh ∙ ap (decided (heard_of r e)) h

  answers_wait :
      (r : Reply) (rs : List Reply) (e : CoordinatorProtocol)
      → e.nvalue ≡ []
      → leb quorum (length (heard_of r e).responses) ≡ false
      → answers quorum i e (r ∷ rs) ≡ answers quorum i (heard_of r e) rs
  unfolding answers
  answers_wait r rs e fresh few = ap (go_on rs) (prepared-decided r e false fresh few)

  answers_send :
      (r : Reply) (rs : List Reply) (e : CoordinatorProtocol)
      → e.nvalue ≡ []
      → leb quorum (length (heard_of r e).responses) ≡ true
      → next_value (heard_of r e) ≢ []
      → answers quorum i e (r ∷ rs) ≡ (closed (heard_of r e), proposal_of (heard_of r e) ∷ [])
  unfolding answers
  answers_send r rs e fresh enough value =
      ap (go_on rs) (prepared-decided r e true fresh enough)
      ∙ ap (λ x. (x.0, proposal_of (heard_of r e) ∷ x.1))
          (sends_once quorum i (closed (heard_of r e)) rs value)

  -- What a round has sent after the replies `rs`: nothing, for want of a quorum among them, or one
  -- ACCEPT with the reply `r` that completes the quorum.
  abbrev pub Verdict : Text → ℕ → List Reply → CoordinatorProtocol × List Msg → Type 0
  Verdict own n rs (e, ms) =
      ((ms ≡ []) × (¬ HasQuorum quorum rs))
      ⊎ ((v : Text) × (hs : List Reply) × (r : Reply) × (later : List Reply) × (ms
            ≡ msg accept n v i ∷ [])
          × (rs ≡ hs ++ r ∷ later)
          × (¬ HasQuorum quorum hs)
          × HasQuorum quorum (hs ++ r ∷ [])
          × IsRightValue own (hs ++ r ∷ []) v)

  no_quorum :
      (own : Text) (n : ℕ) (hs : List Reply) (e : CoordinatorProtocol)
      → IsOpen own n hs e
      → length e.responses < quorum
      → ¬ HasQuorum quorum hs
  no_quorum own n hs e o few q = absurd (
      omega (
        arith,
        few,
        q.enough,
        recorded_bound hs e.responses q.voters o.electorate q.distinct q.heard,
      ))

  answers-Verdict :
      (own : Text) (n : ℕ) (hs : List Reply) (e : CoordinatorProtocol) (rs : List Reply)
      → own ≢ []
      → All HasValue hs
      → All HasValue rs
      → IsOpen own n hs e
      → length e.responses < quorum
      → Verdict own n (hs ++ rs) (answers quorum i e rs)
  unfolding answers
  answers-Verdict own n hs e [] own_value ah ar o few =
      inl
        (refl, subst (λ l. ¬ HasQuorum quorum l) (sym (append-nil hs)) (no_quorum own n hs e o few))
  answers-Verdict own n hs e (r ∷ rs) own_value ah ar o few =
      elim (Bool-cases (leb quorum (length e'.responses))) [
        | inl enough ↦
            let right : IsRightValue own (hs ++ r ∷ []) (next_value e') =
              next_value-IsRightValue own n (hs ++ r ∷ []) e' o' in
            let v = o'.electorate in
            subst (Verdict own n (hs ++ r ∷ rs))
              (sym (
                answers_send r rs e o.fresh enough
                  (value-ne-nil own (hs ++ r ∷ []) (next_value e') own_value ah' right)))
              (inr (
                next_value e',
                hs,
                r,
                rs,
                rw o'.number refl,
                refl,
                no_quorum own n hs e o few,
                record {
                  voters = v.voters;
                  distinct = v.distinct;
                  enough = omega (arith, leb→le quorum (length e'.responses) enough, v.size);
                  heard = v.heard;
                },
                right,
              ))
        | inr still ↦
            subst (Verdict own n (hs ++ r ∷ rs)) (sym (answers_wait r rs e o.fresh still)) (
              subst (λ l. Verdict own n l (answers quorum i e' rs)) (append_assoc hs (r ∷ []) rs)
                (answers-Verdict own n (hs ++ r ∷ []) e' rs own_value ah' ar.1 o' (ground arith)))
      ]
    where
      e' : CoordinatorProtocol
      e' = heard_of r e

      o' : IsOpen own n (hs ++ r ∷ []) e'
      o' = heard_of-IsOpen own n hs r e o

      ah' : All HasValue (hs ++ r ∷ [])
      ah' = All-append HasValue hs (r ∷ []) ah (ar.0, tt)

  -- A round for the value `own` under the proposal n, over PREPARE_OKs of which those with an accepted
  -- proposal have a value: it has sent nothing, and then fewer different replicas than a quorum are
  -- among the senders; or it has sent one ACCEPT, with the reply that completed a quorum of different
  -- senders, and its value is that of the highest accepted proposal among the replies up to it, or `own`
  -- where there is none.
  pub phase_two :
      (own : Text) (n : ℕ) (rs : List Reply)
      → own ≢ []
      → 0 < quorum
      → All HasValue rs
      → Verdict own n rs (answers quorum i (record init_protocol { pvalue = own; proposal = n }) rs)
  phase_two own n rs own_value pos all =
      answers-Verdict own n [] (record init_protocol { pvalue = own; proposal = n }) rs own_value tt
        all
        (record {
          fresh = refl;
          mine = refl;
          number = refl;
          electorate = record {
            voters = [];
            distinct = tt;
            size = refl;
            known = tt;
            heard = tt;
            complete = tt;
          };
          highest = record { bound = tt; source = inl refl };
        })
        pos
