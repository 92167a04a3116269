-- ===== src/Paxos/Learner.antt =====
-- contrib/libpaxos/learner.go: counting votes and learning values.
mod Votes
pub mod Stable
pub mod Quorum
use airline_booking.Prelude.{
  ℕ, zero, suc, ◌+◌, ◌-◌, ◌*◌, ◌/◌, ◌%◌, ◌≤◌, ◌<◌, ◌≡◌, refl, sym, ap, subst, ◌∙◌, ◌≢◌, ◌↔◌, ◌⊎◌,
  inl, inr, Bool, true, false, not, ◌&&◌, ◌||◌, Option, none, some, List, [], ◌∷◌, ◌++◌, map, arith,
  ltb, leb, nat_beq, if◌then◌else◌, ltb→lt, leb→le, nat_beq_iff, Eq, ◌==◌, nat_eq, Bool-cases,
  Option-cases, beq_self, beq_ne, length, get_elem?, length-append, All, All-append, elem, Distinct,
  Text, codes, text_beq, text_beq_iff, text_eq,
}
use airline_booking.Prelude.Assoc.{Assoc, lookup, insert, delete, lookup-insert, lookup-delete}
use airline_booking.Paxos.Types.{MsgType, nop, accept_ok, commit, Msg, Packet, msg}

-- What the learner holds of one instance.
pub record LearnerProtocol : Type 0 where
  pub responses : Assoc Text Bool
  pub value_counts : Assoc Text ℕ
  pub proposal : ℕ
  pub value : Text
  pub committed : Bool

abbrev pub init_protocol : LearnerProtocol
init_protocol = record {
  responses = [];
  value_counts = [];
  proposal = 0;
  value = [];
  committed = false;
}

pub record Learner : Type 0 where
  pub quorum : ℕ
  pub proto : Assoc ℕ LearnerProtocol

abbrev pub init : ℕ → Learner
init q = record { quorum = q; proto = [] }

abbrev or_init : Option LearnerProtocol → LearnerProtocol
or_init none = init_protocol
or_init (some lp) = lp

unfoldable pub protocol : Learner → ℕ → LearnerProtocol
protocol lr i = or_init (lookup i lr.proto)

abbrev or_zero : Option ℕ → ℕ
or_zero none = 0
or_zero (some n) = n

-- valueCounts[v], which is 0 for a value with no entry.
unfoldable pub count : Text → Assoc Text ℕ → ℕ
count v counts = or_zero (lookup v counts)

-- A new entry, the message to broadcast, the instance learnt (0: none) and its value.
abbrev pub Outcome : Type 0
Outcome = LearnerProtocol × Option Msg × ℕ × Text

abbrev pub nothing_learnt : LearnerProtocol → Option Msg → Outcome
nothing_learnt e m = (e, m, 0, [])

-- A higher proposal number drops the votes for the lower ones.
unfoldable pub catch_up : ℕ → LearnerProtocol → LearnerProtocol
catch_up n e =
    if ltb e.proposal n then record e { proposal = n; responses = []; value_counts = [] } else e

-- The first vote of a replica in a round is counted.
unfoldable pub add_vote : Text → Text → LearnerProtocol → LearnerProtocol
add_vote from v e = record e {
  value_counts = insert v (count v e.value_counts + 1) e.value_counts;
  responses = insert from true e.responses;
}

unfoldable pub vote : ℕ → Msg → Text → LearnerProtocol → Outcome
unfolding add_vote
vote quorum m from e = elim (lookup from e.responses) [
  | some _ ↦ nothing_learnt e none
  | none ↦
      let e' = add_vote from m.value e in
      if leb quorum (count m.value e'.value_counts)
      then (
        record e' { committed = true; value = m.value },
        some (msg commit m.proposal m.value m.slot),
        m.slot,
        m.value,
      )
      else nothing_learnt e' none
]

-- The switch on the message's type, for an instance with no committed value.
unfoldable pub respond_open : ℕ → MsgType → Msg → Text → LearnerProtocol → Outcome
unfolding catch_up vote
respond_open quorum accept_ok m from e =
    if leb e.proposal m.proposal
    then vote quorum m from (catch_up m.proposal e)
    else nothing_learnt e none
respond_open quorum commit m from e =
    (record e { committed = true; value = m.value }, none, m.slot, m.value)
respond_open quorum _ m from e = nothing_learnt e none

-- A committed instance only helps others to recover.
unfoldable pub respond_committed : MsgType → Msg → LearnerProtocol → Outcome
respond_committed nop m e = nothing_learnt e (some (msg commit e.proposal e.value m.slot))
respond_committed _ m e = nothing_learnt e none

unfoldable pub respond : ℕ → Msg → Text → LearnerProtocol → Outcome
unfolding respond_open respond_committed
respond quorum m from e =
    if e.committed
    then respond_committed m.msg_type m e
    else respond_open quorum m.msg_type m from e

unfoldable pub operate : Learner → Packet → Learner × Option Msg × ℕ × Text
operate lr p =
    let m = p.packet_msg in
    let (e, out, learnt, v) = respond lr.quorum m p.packet_from (protocol lr m.slot) in
    (record lr { proto = insert m.slot e lr.proto }, out, learnt, v)

unfoldable pub run : Learner → List Packet → Learner
run lr [] = lr
run lr (p ∷ ps) = run (operate lr p).0 ps

-- getHistory: the committed instances and their values.
unfoldable pub committed_of : Assoc ℕ LearnerProtocol → Assoc ℕ Text
committed_of [] = []
committed_of ((i, e) ∷ m) =
    let rest = committed_of m in if e.committed then (i, e.value) ∷ rest else rest

unfoldable pub get_history : Learner → Assoc ℕ Text
unfolding committed_of
get_history lr = committed_of lr.proto
