-- ===== src/Paxos/Learner/Quorum.antt =====
-- contrib/libpaxos/learner.go: a value is learnt only when a quorum of replicas voted for it.
use airline_booking.Prelude.{
  ℕ, ◌≤◌, ◌≡◌, refl, sym, ap, subst, ◌∙◌, inl, inr, Bool, true, false, Option, none, some, List, [],
  ◌∷◌, arith, ltb, leb, nat_beq, if◌then◌else◌, leb→le, nat_beq_iff, nat_eq, Bool-cases,
  Option-cases, length, All, Distinct, Text, text_beq, text_beq_iff, text_eq,
}
use airline_booking.Prelude.Assoc.{lookup, lookup-insert}
use airline_booking.Paxos.Types.{accept_ok, Packet, packet, nop}
use airline_booking.Paxos.Learner.Votes.{
  Answered, elem-Answered, Answered-add_vote, count-add_vote, vote_repeat, vote_fresh,
  committed-add_vote, respond_done, respond_fresh,
}
use airline_booking.Paxos.Learner.{
  LearnerProtocol, count, catch_up, add_vote, Msg, Outcome, vote, commit, nothing_learnt, respond,
  respond_committed, respond_open, msg, MsgType, Learner, init, protocol, operate, run,
}
use airline_booking.Paxos.Learner.Stable.{protocol-operate, reply-operate, outcome}

-- The packets of the history, the quorum and the instance that the section is about.
module _ (Sent : Packet → Type 0) (quorum slot : ℕ) where
  abbrev Backed : ℕ → Text → List Text → Type 0
  Backed n v = All (λ w. Sent (packet accept_ok n v slot w))

  -- A quorum of different replicas has sent ACCEPT_OK for the value, under one proposal number.
  abbrev pub Chosen : Text → Type 0
  Chosen v = (n : ℕ) × (ws : List Text) × Distinct ws × (quorum ≤ length ws) × Backed n v ws

  -- Who stands behind the count of one value.
  record Tally (e : LearnerProtocol) (v : Text) : Type 0 where
    voters : List Text
    distinct : Distinct voters
    size : length voters ≡ count v e.value_counts
    known : All (Answered e) voters
    backed : Backed e.proposal v voters

  abbrev IsBacked : LearnerProtocol → Type 0
  IsBacked e =
      (e.committed ≡ false → (v : Text) → Tally e v) × (e.committed ≡ true → Chosen e.value)

  Tally-init : (e : LearnerProtocol) (v : Text) → e.value_counts ≡ [] → Tally e v
  unfolding count lookup
  Tally-init e v h = record { voters = []; distinct = tt; size = rw h; known = tt; backed = tt }

  Tally-catch_up : (n : ℕ) (e : LearnerProtocol) (v : Text) → Tally e v → Tally (catch_up n e) v
  unfolding catch_up
  Tally-catch_up n e v t = elim (Bool-cases (ltb e.proposal n)) [
    | inl up ↦ rw up (Tally-init _ v refl)
    | inr same ↦ rw same t
  ]

  Tally-add_vote :
      (e : LearnerProtocol) (from v u : Text)
      → lookup from e.responses ≡ none
      → Sent (packet accept_ok e.proposal v slot from)
      → Tally e u
      → Tally (add_vote from v e) u
  Tally-add_vote e from v u new sent t = elim (Bool-cases (text_beq v u)) [
    | inl same ↦ record {
      voters = from ∷ t.voters;
      distinct = (elem-Answered e from t.voters new t.known, t.distinct);
      size = ground (arith, count-add_vote e from v u, t.size);
      known = (
        unfold add_vote in
            ground (arith, lookup-insert from from true e.responses, text_beq_iff from from),
        Answered-add_vote e from v t.voters t.known,
      );
      backed =
          unfold add_vote in
          (
            subst (λ x. Sent (packet accept_ok e.proposal x slot from)) ((text_beq_iff v u).0 same)
                sent,
            t.backed,
          );
    }
    | inr other ↦ record {
      voters = t.voters;
      distinct = t.distinct;
      size = ground (arith, count-add_vote e from v u, t.size);
      known = Answered-add_vote e from v t.voters t.known;
      backed = unfold add_vote in t.backed;
    }
  ]

  -- A COMMIT that is sent names a chosen value.
  abbrev pub IsTrue : Option Msg → Type 0
  IsTrue none = Unit
  IsTrue (some m) = m.msg_type ≡ commit → Chosen m.value

  abbrev IsJustified : Outcome → Type 0
  IsJustified r = IsBacked r.0 × IsTrue r.1

  vote-IsJustified :
      (m : Msg) (from : Text) (e : LearnerProtocol)
      → e.committed ≡ false
      → m.proposal ≡ e.proposal
      → Sent (packet accept_ok m.proposal m.value slot from)
      → ((u : Text) → Tally e u)
      → IsJustified (vote quorum m from e)
  vote-IsJustified m from e fresh same sent t = elim (Option-cases (lookup from e.responses)) [
    | inr (b, old) ↦ rw (vote_repeat quorum m from e b old) ((λ _. t, λ c. cc), tt)
    | inl new ↦
        let e' = add_vote from m.value e in
        let t' : (u : Text) → Tally e' u = λ u.
          Tally-add_vote e from m.value u new
            (subst (λ n. Sent (packet accept_ok n m.value slot from)) same sent) (t u) in
        elim (Bool-cases (leb quorum (count m.value e'.value_counts))) [
          | inl enough ↦
              let w = t' m.value in
              let chosen : Chosen m.value = (
                e'.proposal,
                w.voters,
                w.distinct,
                (omega (arith, leb→le quorum (count m.value e'.value_counts), w.size)),
                w.backed,
              ) in
              rw (vote_fresh quorum m from e new, enough) ((λ c. cc, λ _. chosen), λ _. chosen)
          | inr few ↦
              rw (vote_fresh quorum m from e new, few)
                ((λ _. t', λ c. cc (committed-add_vote from m.value e)), tt)
        ]
  ]

  catch_up-committed : (n : ℕ) (e : LearnerProtocol) → (catch_up n e).committed ≡ e.committed
  unfolding catch_up
  catch_up-committed n e = ground arith

  catch_up-proposal : (n : ℕ) (e : LearnerProtocol) → e.proposal ≤ n → n ≡ (catch_up n e).proposal
  unfolding catch_up
  catch_up-proposal n e h = ground arith

  -- A packet that was sent, with a COMMIT for the instance only of a chosen value.
  abbrev pub IsHonest : Packet → Type 0
  IsHonest p =
      Sent p
      × (p.packet_msg.msg_type ≡ commit → p.packet_msg.slot ≡ slot → Chosen p.packet_msg.value)

  idle-IsJustified : (e : LearnerProtocol) → IsBacked e → IsJustified (nothing_learnt e none)
  idle-IsJustified e b = (b, tt)

  respond_open-IsJustified :
      (t : MsgType) (n : ℕ) (v from : Text) (e : LearnerProtocol)
      → e.committed ≡ false
      → IsBacked e
      → IsHonest (packet t n v slot from)
      → IsJustified (respond_open quorum t (msg t n v slot) from e)
  unfolding respond_open
  respond_open-IsJustified accept_ok n v from e fresh b h = elim (Bool-cases (leb e.proposal n)) [
    | inl up ↦ rw up (
        vote-IsJustified (msg accept_ok n v slot) from (catch_up n e)
          (catch_up-committed n e ∙ fresh) (catch_up-proposal n e (leb→le e.proposal n up)) h.0
          (λ u. Tally-catch_up n e u (b.0 fresh u)))
    | inr old ↦ rw old (b, tt)
  ]
  respond_open-IsJustified commit n v from e fresh b h =
      let chosen : Chosen v = h.1 refl refl in ((λ c. cc, λ _. chosen), tt)
  respond_open-IsJustified _ n v from e fresh b h = (b, tt)

  respond_committed-IsJustified :
      (t : MsgType) (m : Msg) (e : LearnerProtocol)
      → e.committed ≡ true
      → IsBacked e
      → IsJustified (respond_committed t m e)
  unfolding respond_committed
  respond_committed-IsJustified nop m e done b = (b, λ _. b.1 done)
  respond_committed-IsJustified _ m e done b = (b, tt)

  respond-IsJustified :
      (t : MsgType) (n : ℕ) (v from : Text) (e : LearnerProtocol)
      → IsBacked e
      → IsHonest (packet t n v slot from)
      → IsJustified (respond quorum (msg t n v slot) from e)
  unfolding respond
  respond-IsJustified t n v from e b h = elim (Bool-cases e.committed) [
    | inl done ↦
        subst IsJustified (sym (respond_done quorum (msg t n v slot) from e done))
          (respond_committed-IsJustified t (msg t n v slot) e done b)
    | inr fresh ↦
        subst IsJustified (sym (respond_fresh quorum (msg t n v slot) from e fresh))
          (respond_open-IsJustified t n v from e fresh b h)
  ]

  IsJustified-at :
      (q i : ℕ) (t : MsgType) (n : ℕ) (v from : Text) (e : LearnerProtocol)
      → q ≡ quorum
      → i ≡ slot
      → IsBacked e
      → IsHonest (packet t n v i from)
      → IsJustified (respond q (msg t n v i) from e)
  IsJustified-at q i t n v from e eq at b =
      subst (λ r. IsHonest (packet t n v i from) → IsJustified (respond r (msg t n v i) from e))
        (sym eq)
        (subst
          (λ j. IsHonest (packet t n v j from) → IsJustified (respond quorum (msg t n v j) from e))
          (sym at) (respond-IsJustified t n v from e b))

  outcome-IsJustified :
      (lr : Learner) (p : Packet)
      → lr.quorum ≡ quorum
      → p.packet_msg.slot ≡ slot
      → IsBacked (protocol lr slot)
      → IsHonest p
      → IsJustified (outcome lr p)
  outcome-IsJustified lr p eq at b =
      IsJustified-at lr.quorum m.slot m.msg_type m.proposal m.value p.packet_from
        (protocol lr m.slot) eq at (subst (λ i. IsBacked (protocol lr i)) (sym at) b)
    where
      m : Msg
      m = p.packet_msg

  operate-IsBacked :
      (lr : Learner) (p : Packet)
      → lr.quorum ≡ quorum
      → IsBacked (protocol lr slot)
      → IsHonest p
      → IsBacked (protocol (operate lr p).0 slot)
  operate-IsBacked lr p eq b h = elim (Bool-cases (nat_beq p.packet_msg.slot slot)) [
    | inl here ↦
        subst IsBacked (sym (protocol-operate lr p slot ∙ ap choose here))
          (outcome-IsJustified lr p eq ((nat_beq_iff p.packet_msg.slot slot).0 here) b h).0
    | inr away ↦ subst IsBacked (sym (protocol-operate lr p slot ∙ ap choose away)) b
  ]
    where
      choose : Bool → LearnerProtocol
      choose b = if b then (outcome lr p).0 else protocol lr slot

  run-IsBacked :
      (lr : Learner) (ps : List Packet)
      → lr.quorum ≡ quorum
      → IsBacked (protocol lr slot)
      → All IsHonest ps
      → IsBacked (protocol (run lr ps) slot) × ((run lr ps).quorum ≡ quorum)
  unfolding run
  run-IsBacked lr [] eq b h = (b, eq)
  run-IsBacked lr (p ∷ ps) eq b h =
      run-IsBacked (operate lr p).0 ps ((reply-operate lr p).3 ∙ eq)
        (operate-IsBacked lr p eq b h.0) h.1

  init-IsBacked : IsBacked (protocol (init quorum) slot)
  unfolding protocol lookup
  init-IsBacked = (λ _ v. Tally-init _ v refl, λ c. cc)

  -- From the empty learner, over packets that were sent and whose COMMITs for the instance name
  -- chosen values: a value that the learner holds as committed is chosen, that is a quorum of
  -- different replicas has sent ACCEPT_OK for it under one proposal number.
  pub learnt_has_quorum :
      (ps : List Packet)
      → All IsHonest ps
      → (protocol (run (init quorum) ps) slot).committed ≡ true
      → Chosen (protocol (run (init quorum) ps) slot).value
  learnt_has_quorum ps h = (run-IsBacked (init quorum) ps refl init-IsBacked h).0.1

  -- Over such packets, the COMMITs that the learner itself broadcasts for the instance name chosen
  -- values too.
  pub sent_commit_has_quorum :
      (ps : List Packet) (p : Packet)
      → All IsHonest ps
      → IsHonest p
      → p.packet_msg.slot ≡ slot
      → IsTrue (operate (run (init quorum) ps) p).1
  sent_commit_has_quorum ps p hs h at =
      let (b, q) = run-IsBacked (init quorum) ps refl init-IsBacked hs in
      subst IsTrue (sym (reply-operate (run (init quorum) ps) p).0)
        (outcome-IsJustified (run (init quorum) ps) p q at b h).1
