-- ===== src/Paxos/Learner/Votes.antt =====
-- contrib/libpaxos/learner.go: what a vote changes, one lemma for each thing it may touch.
use airline_booking.Prelude.{
  ℕ, ◌+◌, ◌≡◌, refl, Bool, true, false, none, some, List, [], ◌∷◌, arith, leb, if◌then◌else◌,
  nat_eq, All, elem, Text, text_beq, text_beq_iff, text_eq,
}
use airline_booking.Prelude.Assoc.{elem-missing, lookup, lookup-insert}
use airline_booking.Paxos.Types.{commit, Msg, msg}
use airline_booking.Paxos.Learner.{
  LearnerProtocol, nothing_learnt, count, add_vote, vote, respond, respond_open, respond_committed,
}

abbrev pub Answered : LearnerProtocol → Text → Type 0
Answered e w = lookup w e.responses ≡ some true

-- A replica that has not answered is none of those that have.
pub elem-Answered :
    (e : LearnerProtocol) (from : Text) (ws : List Text)
    → lookup from e.responses ≡ none
    → All (Answered e) ws
    → elem from ws ≡ false
elem-Answered e from ws h a = elem-missing from true e.responses ws h a

pub Answered-add_vote :
    (e : LearnerProtocol) (from v : Text) (ws : List Text)
    → All (Answered e) ws
    → All (Answered (add_vote from v e)) ws
unfolding add_vote
Answered-add_vote e from v [] a = tt
Answered-add_vote e from v (w ∷ ws) a =
    (ground (arith, lookup-insert from w true e.responses), Answered-add_vote e from v ws a.1)

pub count-add_vote :
    (e : LearnerProtocol) (from v u : Text)
    → count u (add_vote from v e).value_counts
      ≡ (if text_beq v u then count u e.value_counts + 1 else count u e.value_counts)
unfolding add_vote count
count-add_vote e from v u =
    ground (arith, lookup-insert v u (count v e.value_counts + 1) e.value_counts, text_beq_iff v u)

-- The two outcomes of a vote: the replica has voted before, or it has not.
pub vote_repeat :
    (q : ℕ) (m : Msg) (from : Text) (e : LearnerProtocol) (b : Bool)
    → lookup from e.responses ≡ some b
    → vote q m from e ≡ nothing_learnt e none
unfolding vote
vote_repeat q m from e b h = rw (h, vote)

pub vote_fresh :
    (q : ℕ) (m : Msg) (from : Text) (e : LearnerProtocol)
    → lookup from e.responses ≡ none
    → vote q m from e ≡ (
        if leb q (count m.value (add_vote from m.value e).value_counts)
        then (
          record (add_vote from m.value e) { committed = true; value = m.value },
          some (msg commit m.proposal m.value m.slot),
          m.slot,
          m.value,
        )
        else nothing_learnt (add_vote from m.value e) none)
unfolding vote
vote_fresh q m from e h = rw (h, vote)

pub committed-add_vote :
    (from v : Text) (e : LearnerProtocol) → (add_vote from v e).committed ≡ e.committed
unfolding add_vote
committed-add_vote from v e = refl

-- The two cases of a packet for one instance.
pub respond_done :
    (q : ℕ) (m : Msg) (from : Text) (e : LearnerProtocol)
    → e.committed ≡ true
    → respond q m from e ≡ respond_committed m.msg_type m e
unfolding respond
respond_done q m from e h = rw h

pub respond_fresh :
    (q : ℕ) (m : Msg) (from : Text) (e : LearnerProtocol)
    → e.committed ≡ false
    → respond q m from e ≡ respond_open q m.msg_type m from e
unfolding respond
respond_fresh q m from e h = rw h
