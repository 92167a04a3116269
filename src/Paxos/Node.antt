-- ===== src/Paxos/Node.antt =====
-- contrib/libpaxos/libpaxos.go: one replica. The operate loop takes one packet after another from
-- its channel; what a packet makes the replica do comes back as a list of effects.
pub mod Log
pub mod Replay
mod Execution
pub mod Consistency
use airline_booking.Prelude.{
  ℕ, zero, suc, ◌+◌, ◌-◌, ◌*◌, ◌/◌, ◌%◌, ◌≤◌, ◌<◌, ◌≡◌, refl, sym, ap, subst, ◌∙◌, ◌≢◌, ◌↔◌, ◌⊎◌,
  inl, inr, Bool, true, false, not, ◌&&◌, ◌||◌, Option, none, some, List, [], ◌∷◌, ◌++◌, map, arith,
  ltb, leb, nat_beq, if◌then◌else◌, ltb→lt, leb→le, nat_beq_iff, Eq, ◌==◌, nat_eq, Bool-cases,
  Option-cases, beq_self, beq_ne, length, get_elem?, length-append, All, All-append, All-mono, Any,
  Any-append_left, Any-append_right, elem, Distinct, Text, codes, text_beq, text_beq_iff, text_eq,
}
use airline_booking.Prelude.Assoc.{
  Assoc, lookup, insert, lookup-insert, lookup-delete, length-insert_new, elem-missing,
}
use airline_booking.Prelude.Assoc
use airline_booking.Paxos.Types.{MsgType, propose, learn, epoch, Msg, Packet, msg, packet}
use airline_booking.Paxos.Wire.{get_modified_value, get_from_modified_value}
use airline_booking.Paxos.Coordinator.{Coordinator}
use airline_booking.Paxos.Coordinator
use airline_booking.Paxos.Learner.{Learner, get_history}
use airline_booking.Paxos.Learner
use airline_booking.Paxos.Acceptor.{Acceptor}
use airline_booking.Paxos.Acceptor

pub record Libpaxos : Type 0 where
  pub replicas : List Text
  pub self : Text
  pub c : Coordinator
  pub l : Learner
  pub a : Acceptor
  pub highest_learnt : ℕ
  pub last_command_executed : ℕ
  pub unsent_values : Assoc Text Packet
  pub execute_history : Assoc Text Bool
  pub propose_counter : ℕ
  pub nodepos : ℕ

-- NewLibpaxos, less the goroutines that it starts.
abbrev pub init : Text → List Text → ℕ → ℕ → Libpaxos
init self replicas q nodepos = record {
  replicas = replicas;
  self = self;
  c = Coordinator.init nodepos (length replicas) q;
  l = Learner.init q;
  a = Acceptor.init;
  highest_learnt = 0;
  last_command_executed = 0;
  unsent_values = [];
  execute_history = [];
  propose_counter = 0;
  nodepos = nodepos;
}

-- A message to every replica, a packet put on the own channel, a command handed to the client.
pub data Effect : Type 0 where
  broadcast : Msg → Effect
  enqueue : Packet → Effect
  paxos_response : Text → Effect

-- `none` is a panic, or a loop that does not end.
abbrev pub Step : Type 0
Step = Libpaxos → Option (Libpaxos × List Effect)

unfoldable pub after :
    List Effect → Option (Libpaxos × List Effect) → Option (Libpaxos × List Effect)
after es none = none
after es (some (lp, fs)) = some (lp, es ++ fs)

infixl 5 ◌then_do◌
unfoldable pub ◌then_do◌ : Step → Step → Step
unfolding after
◌then_do◌ m k lp = elim (m lp) [ none ↦ none | some (lp', es) ↦ after es (k lp') ]

unfoldable pub sends : Option Msg → List Effect
sends none = []
sends (some m) = broadcast m ∷ []

-- EPOCH proposes every unsent value once more.
unfoldable pub retries : Assoc Text Packet → List Effect
retries [] = []
retries ((v, p) ∷ m) = enqueue p ∷ retries m

unfoldable pub note_packet : MsgType → Packet → Step
unfolding retries
note_packet propose p lp =
    some (record lp { unsent_values = insert p.packet_msg.value p lp.unsent_values }, [])
note_packet epoch p lp = some (lp, retries lp.unsent_values)
note_packet _ p lp = some (lp, [])

unfoldable pub run_coordinator : Packet → Step
unfolding sends
run_coordinator p lp = elim (Coordinator.operate lp.c p) [
  | none ↦ none
  | some (c, out) ↦ some (record lp { c = c }, sends out)
]

-- A value is executed the first time only; `split[2]` panics on a value without its tag.
unfoldable pub execute : Text → Step
execute v lp = elim (lookup v lp.execute_history) [
  | some _ ↦ some (lp, [])
  | none ↦ elim (get_from_modified_value v) [
    | none ↦ none
    | some cmd ↦
        some (
          record lp { execute_history = insert v true lp.execute_history },
          paxos_response cmd ∷ [],
        )
  ]
]

-- history[i], which is "" for an instance that is not there.
unfoldable pub value_of : Option Text → Text
value_of none = []
value_of (some v) = v

-- `for i := …; i <= …; i += 1 { execute(history[i]) }` over `rounds` instances from `i` on.
unfoldable pub execute_from : ℕ → ℕ → Assoc ℕ Text → Step
unfolding ◌then_do◌ value_of
execute_from zero i history = λ lp. some (lp, [])
execute_from (suc rounds) i history =
    execute (value_of (lookup i history)) then_do execute_from rounds (i + 1) history

unfoldable pub is_known {ℓ} : {A : Type ℓ} → Option A → Bool
is_known none = false
is_known (some _) = true

-- A LEARN for each of `rounds` instances from `i` on that the history lacks.
unfoldable pub recover : Text → ℕ → ℕ → Assoc ℕ Text → List Effect
unfolding is_known
recover self zero i history = []
recover self (suc rounds) i history =
    let rest = recover self rounds (i + 1) history in
    if is_known (lookup i history) then rest else enqueue (packet learn 0 [] i self) ∷ rest

-- The highest instance learnt is also the one that the coordinator goes on from.
unfoldable pub raise_highest : ℕ → Libpaxos → Libpaxos
raise_highest learnt lp =
    if ltb lp.highest_learnt learnt
    then record lp { highest_learnt = learnt; c = record lp.c { highest_instance = learnt } }
    else lp

unfoldable pub mark_executed : Step
mark_executed lp = some (record lp { last_command_executed = lp.highest_learnt }, [])

-- Executes what is due if the history has no gap, and asks for what is missing otherwise.
unfoldable pub catch_up : Step
unfolding ◌then_do◌ execute_from recover mark_executed get_history
catch_up lp =
    let history = get_history lp.l in
    if nat_beq (length history) lp.highest_learnt
    then (execute_from (lp.highest_learnt - lp.last_command_executed) (lp.last_command_executed + 1)
            history
          then_do mark_executed)
        lp
    else some (lp, recover lp.self (lp.highest_learnt - 1) 1 history)

unfoldable pub forget_unsent : Text → Step
forget_unsent v lp = some (record lp { unsent_values = Assoc.delete v lp.unsent_values }, [])

unfoldable pub on_learnt : ℕ → Text → Step
unfolding ◌then_do◌ raise_highest catch_up forget_unsent
on_learnt zero v lp = some (lp, [])
on_learnt (suc learnt) v lp = (catch_up then_do forget_unsent v) (raise_highest (suc learnt) lp)

unfoldable pub run_learner : Packet → Step
unfolding sends on_learnt after
run_learner p lp =
    let (l, out, learnt, v) = Learner.operate lp.l p in
    after (sends out) (on_learnt learnt v (record lp { l = l }))

unfoldable pub run_acceptor : Packet → Step
unfolding sends
run_acceptor p lp = let (a, out) = Acceptor.operate lp.a p in some (record lp { a = a }, sends out)

unfoldable pub handle_operate : Packet → Step
unfolding ◌then_do◌
handle_operate p =
    note_packet p.packet_msg.msg_type p
    then_do run_coordinator p
    then_do run_learner p
    then_do run_acceptor p

-- ProposeCommand, up to the packet that it puts on the channel.
unfoldable pub propose_command : Text → Step
propose_command v lp = some (
  record lp { propose_counter = lp.propose_counter + 1 },
  enqueue (packet propose 0 (get_modified_value lp.nodepos lp.propose_counter v) 0 lp.self) ∷ [],
)

-- The replica over a sequence of packets.
unfoldable pub run : List Packet → Step
unfolding ◌then_do◌ handle_operate
run [] lp = some (lp, [])
run (p ∷ ps) lp = (handle_operate p then_do run ps) lp
