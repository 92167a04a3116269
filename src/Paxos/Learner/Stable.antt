-- ===== src/Paxos/Learner/Stable.antt =====
-- contrib/libpaxos/learner.go: what one packet changes, and that a learnt value stays.
use airline_booking.Prelude.{
  ℕ, ◌≡◌, refl, ap, ◌∙◌, inl, inr, true, some, List, [], ◌∷◌, arith, nat_beq, if◌then◌else◌,
  nat_beq_iff, nat_eq, Bool-cases, Text, text_eq,
}
use airline_booking.Prelude.Assoc.{lookup-insert}
use airline_booking.Paxos.Types.{MsgType, nop, commit, Msg, Packet, msg, packet}
use airline_booking.Paxos.Learner.Votes.{respond_done}
use airline_booking.Paxos.Learner.{
  Learner, LearnerProtocol, Outcome, protocol, respond, respond_committed, operate, run,
}

module _ (lr : Learner) (p : Packet) where
  open p.packet_msg use {slot}

  abbrev pub outcome : Outcome
  outcome = respond lr.quorum p.packet_msg p.packet_from (protocol lr slot)

  pub protocol-operate :
      (i : ℕ) → protocol (operate lr p).0 i ≡ (if nat_beq slot i then outcome.0 else protocol lr i)
  unfolding protocol operate
  protocol-operate i = ground (arith, lookup-insert slot i outcome.0 lr.proto)

  -- What `operate` answers is the answer of the entry that it finds.
  pub reply-operate :
      ((operate lr p).1 ≡ outcome.1)
      × ((operate lr p).2 ≡ outcome.2)
      × ((operate lr p).3 ≡ outcome.3)
      × ((operate lr p).0.quorum ≡ lr.quorum)
  unfolding operate
  reply-operate = (refl, refl, refl, refl)

respond_committed_stable :
    (t : MsgType) (m : Msg) (e : LearnerProtocol) → (respond_committed t m e).0 ≡ e
unfolding respond_committed
respond_committed_stable nop m e = refl
respond_committed_stable _ m e = refl

pub operate_stable :
    (lr : Learner) (p : Packet) (i : ℕ)
    → (protocol lr i).committed ≡ true
    → protocol (operate lr p).0 i ≡ protocol lr i
operate_stable lr p i h = elim (Bool-cases (nat_beq m.slot i)) [
  | inl here ↦
      let at : m.slot ≡ i = (nat_beq_iff m.slot i).0 here in
      let done : (protocol lr m.slot).committed ≡ true = rw at h in
      rw (protocol-operate lr p i, here)
        (ap (λ r. r.0) (respond_done lr.quorum m p.packet_from (protocol lr m.slot) done)
          ∙ respond_committed_stable m.msg_type m (protocol lr m.slot)
          ∙ ap (protocol lr) at)
  | inr away ↦ rw (protocol-operate lr p i, away) refl
]
  where
    m : Msg
    m = p.packet_msg

-- A learner that has committed an instance keeps its entry unchanged, whatever packets arrive.
pub learnt_stable :
    (lr : Learner) (ps : List Packet) (i : ℕ)
    → (protocol lr i).committed ≡ true
    → protocol (run lr ps) i ≡ protocol lr i
unfolding run
learnt_stable lr [] i h = refl
learnt_stable lr (p ∷ ps) i h =
    let same = operate_stable lr p i h in learnt_stable (operate lr p).0 ps i (rw same h) ∙ same

-- A committed learner answers NOP, the request of a replica that recovers, by a COMMIT of the value
-- it holds, and reports no instance as newly learnt.
pub aids_recovery :
    (lr : Learner) (i n : ℕ) (v from : Text)
    → (protocol lr i).committed ≡ true
    → ((operate lr (packet nop n v i from)).1
        ≡ some (msg commit (protocol lr i).proposal (protocol lr i).value i))
      × ((operate lr (packet nop n v i from)).2 ≡ 0)
unfolding operate respond_committed
aids_recovery lr i n v from h =
    let answer = respond_done lr.quorum (msg nop n v i) from (protocol lr i) h in
    (ap (λ r. r.1) answer, ap (λ r. r.2) answer)
