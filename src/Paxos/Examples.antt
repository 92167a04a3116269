-- ===== src/Paxos/Examples.antt =====
-- contrib/libpaxos at concrete inputs: three replicas, the proposal 4 of replica 1, one value.
use airline_booking.Prelude.Strings.{occurs}
use airline_booking.Paxos.Types.{
  prepare, accept, accept_ok, accept_reject, commit, propose, Msg, Packet, msg, packet,
}
use airline_booking.Paxos.Learner
use airline_booking.Paxos.Learner.Quorum.{Chosen, learnt_has_quorum}
use airline_booking.Paxos.Coordinator
use airline_booking.Paxos.Coordinator.Numbers.{Issued, init-IsNumbered, new_proposal_number_total}
use airline_booking.Paxos.Coordinator.Fresh.{proposals_unique}
use airline_booking.Paxos.Coordinator.Choice.{Reply, answers}
use airline_booking.Paxos.Coordinator.Choice.Sent.{Verdict, phase_two}
use airline_booking.Paxos.Wire.{get_modified_value, get_from_modified_value, value_roundtrip}
use airline_booking.Paxos.Node
use airline_booking.Paxos.Node.Log.{commands, fresh, entries, IsComplete}
use airline_booking.Paxos.Node.Replay.{responses}
use airline_booking.Paxos.Node.Consistency.{executes_log, replicas_consistent}
use airline_booking.Paxos.Node.{Libpaxos, Effect}
use airline_booking.Prelude.{
  none, ℕ, ◌≤◌, ◌≡◌, refl, inl, inr, true, some, List, [], ◌∷◌, ◌++◌, arith, nat_eq, All, Any, Text,
  codes, text_beq, text_eq, elem, false, ap, Distinct, subst,
}
use airline_booking.Prelude.Assoc.{lookup, insert}
use airline_booking.Paxos.Acceptor
use airline_booking.Paxos.Acceptor.{respond}
use airline_booking.Paxos.Acceptor.Promise.{promise_kept}
use airline_booking.Paxos.Acceptor.Ballot.{Later, accepted_stable}

abbrev hosts : List Text
hosts = codes "a" ∷ codes "b" ∷ codes "c" ∷ []

abbrev book : Text
book = codes "1$$0$$0@a@GF@{}"

-- The acceptor

abbrev granting : Packet
granting = packet prepare 4 [] 1 (codes "b")

promise_kept_example :
    let later =
      Acceptor.run
        (Acceptor.operate Acceptor.init granting).0
        (packet accept 4 book 1 (codes "b") ∷ []) in
    ((Acceptor.operate later (packet accept 3 [] 1 (codes "a"))).1
      ≡ some (msg accept_reject 0 [] 0))
    × ((j : ℕ)
        → Acceptor.protocol (Acceptor.operate later (packet accept 3 [] 1 (codes "a"))).0 j
          ≡ Acceptor.protocol later j)
unfolding Acceptor.operate respond Acceptor.protocol lookup
promise_kept_example =
    promise_kept Acceptor.init 1 4 [] (codes "b") 0 [] (packet accept 4 book 1 (codes "b") ∷ []) 3
      [] (codes "a") refl (omega arith)

accepted_stable_example : Later (Acceptor.protocol (Acceptor.run Acceptor.init (granting ∷ [])) 1) (
    Acceptor.protocol
      (Acceptor.run
        (Acceptor.run Acceptor.init (granting ∷ []))
        (packet accept 4 book 1 (codes "b") ∷ []))
      1)
accepted_stable_example =
    accepted_stable (granting ∷ []) (packet accept 4 book 1 (codes "b") ∷ []) 1

-- The learner, over two votes for `book`

abbrev votes : List Packet
votes = packet accept_ok 4 book 1 (codes "a") ∷ packet accept_ok 4 book 1 (codes "b") ∷ []

abbrev learnt : Learner.Learner
learnt = Learner.run (Learner.init 2) votes

learnt_committed : (Learner.protocol learnt 1).committed ≡ true
unfolding Learner.run Learner.operate Learner.protocol Learner.respond Learner.count lookup insert
    text_beq
learnt_committed = refl

-- What the two replicas have sent.
abbrev Sent : Packet → Type 0
Sent p = Any (λ v. p ≡ v) votes

learnt_has_quorum_example : Chosen Sent 2 1 (Learner.protocol learnt 1).value
learnt_has_quorum_example =
    learnt_has_quorum Sent 2 1 votes ((inl refl, λ e _. cc), ((inr (inl refl), λ e _. cc), tt))
      learnt_committed

-- The coordinator

new_proposal_number_total_example :
    (n : ℕ) × (c : Coordinator.Coordinator) × (Coordinator.new_proposal_number
        (Coordinator.init 1 3 2)
      ≡ some (n, c))
    × Issued (Coordinator.init 1 3 2) n c
new_proposal_number_total_example =
    new_proposal_number_total (Coordinator.init 1 3 2) (init-IsNumbered 1 3 2 (omega arith))

abbrev replies : List Reply
replies =
    record { number = 0; value = []; from = codes "a" }
    ∷ record { number = 2; value = book; from = codes "c" }
    ∷ record { number = 0; value = []; from = codes "b" }
    ∷ []

phase_two_example : Verdict 2 1 (codes "1$$1$$x") 4 replies (
    answers 2 1
      (record Coordinator.init_protocol { pvalue = codes "1$$1$$x"; proposal = 4 })
      replies)
phase_two_example =
    phase_two 2 1 (codes "1$$1$$x") 4 replies (λ e. cc) (omega arith)
      (λ pos. absurd (omega arith), (λ _ e. cc, (λ pos. absurd (omega arith), tt)))

-- Values

value_roundtrip_example :
    get_from_modified_value (get_modified_value 1 0 (codes "0@a")) ≡ some (codes "0@a")
unfolding occurs
value_roundtrip_example = value_roundtrip 1 0 (codes "0@a") refl

-- Replica b learns the value from a COMMIT, and executes it.

abbrev commits : List Packet
commits = packet commit 4 book 1 (codes "a") ∷ []

-- The replica `self` after `commits`, with what it has sent.
abbrev replica : Text → ℕ → Libpaxos × List Effect
replica self pos = elim (Node.run commits (Node.init self hosts 2 pos)) [
  | none ↦ (Node.init self hosts 2 pos, [])
  | some r ↦ r
]

ran :
    Node.run commits (Node.init (codes "b") hosts 2 1)
    ≡ some ((replica (codes "b") 1).0, (replica (codes "b") 1).1)
unfolding Node.run Node.handle_operate Node.◌then_do◌ Node.after Node.note_packet
    Node.run_coordinator Node.run_learner Node.run_acceptor Node.sends Node.on_learnt
    Node.raise_highest Node.catch_up Node.execute_from Node.execute Node.value_of Node.mark_executed
    Node.forget_unsent Learner.operate Learner.respond Learner.protocol Learner.get_history
    Coordinator.operate Coordinator.dispatch Acceptor.operate respond lookup insert
    get_from_modified_value
ran = refl

peer_ran :
    Node.run commits (Node.init (codes "c") hosts 2 2)
    ≡ some ((replica (codes "c") 2).0, (replica (codes "c") 2).1)
unfolding Node.run Node.handle_operate Node.◌then_do◌ Node.after Node.note_packet
    Node.run_coordinator Node.run_learner Node.run_acceptor Node.sends Node.on_learnt
    Node.raise_highest Node.catch_up Node.execute_from Node.execute Node.value_of Node.mark_executed
    Node.forget_unsent Learner.operate Learner.respond Learner.protocol Learner.get_history
    Coordinator.operate Coordinator.dispatch Acceptor.operate respond lookup insert
    get_from_modified_value
peer_ran = refl

same_learner : (replica (codes "b") 1).0.l ≡ (replica (codes "c") 2).0.l
unfolding Node.run Node.handle_operate Node.◌then_do◌ Node.after Node.note_packet
    Node.run_coordinator Node.run_learner Node.run_acceptor Node.sends Node.on_learnt
    Node.raise_highest Node.catch_up Node.execute_from Node.execute Node.value_of Node.mark_executed
    Node.forget_unsent Learner.operate Learner.respond Learner.protocol Learner.get_history
    Coordinator.operate Coordinator.dispatch Acceptor.operate respond lookup insert
    get_from_modified_value
same_learner = refl

same_progress :
    (replica (codes "b") 1).0.last_command_executed
    ≡ (replica (codes "c") 2).0.last_command_executed
unfolding Node.run Node.handle_operate Node.◌then_do◌ Node.after Node.note_packet
    Node.run_coordinator Node.run_learner Node.run_acceptor Node.sends Node.on_learnt
    Node.raise_highest Node.catch_up Node.execute_from Node.execute Node.value_of Node.mark_executed
    Node.forget_unsent Learner.operate Learner.respond Learner.protocol Learner.get_history
    Coordinator.operate Coordinator.dispatch Acceptor.operate respond lookup insert
    get_from_modified_value
same_progress = refl

executes_log_example :
    (responses (replica (codes "b") 1).1
      ≡ commands (
          fresh []
            (entries (replica (codes "b") 1).0.l (replica (codes "b") 1).0.last_command_executed)))
    × Distinct (
        fresh []
          (entries (replica (codes "b") 1).0.l (replica (codes "b") 1).0.last_command_executed))
    × IsComplete (replica (codes "b") 1).0.l (replica (codes "b") 1).0.last_command_executed
executes_log_example =
    executes_log (codes "b") hosts 2 1 commits (replica (codes "b") 1).0 (replica (codes "b") 1).1
      ran

replicas_consistent_example :
    (later : List Text) × (responses (replica (codes "c") 2).1
      ≡ responses (replica (codes "b") 1).1 ++ later)
replicas_consistent_example =
    replicas_consistent (codes "b") (codes "c") hosts hosts 2 2 1 2 commits commits
      (replica (codes "b") 1).0 (replica (codes "c") 2).0 (replica (codes "b") 1).1
      (replica (codes "c") 2).1 ran peer_ran
      (λ i _ _. ap (λ m. (Learner.protocol m i).value) same_learner)
      (subst (λ n. (replica (codes "b") 1).0.last_command_executed ≤ n) same_progress (omega arith))

-- The coordinators of the replicas b and c, each asked to propose twice.
abbrev proposals : List Packet
proposals = packet propose 0 book 0 (codes "b") ∷ packet propose 0 book 0 (codes "b") ∷ []

abbrev proposer : ℕ → Coordinator.Coordinator × List Msg
proposer pos = elim (Coordinator.run (Coordinator.init pos 3 2) proposals) [
  | none ↦ (Coordinator.init pos 3 2, [])
  | some r ↦ r
]

b_proposed :
    Coordinator.run (Coordinator.init 1 3 2) proposals ≡ some ((proposer 1).0, (proposer 1).1)
unfolding Coordinator.run Coordinator.collect Coordinator.operate Coordinator.dispatch
    Coordinator.start Coordinator.new_proposal_number Coordinator.new_instance_number
    Coordinator.raise
b_proposed = refl

c_proposed :
    Coordinator.run (Coordinator.init 2 3 2) proposals ≡ some ((proposer 2).0, (proposer 2).1)
unfolding Coordinator.run Coordinator.collect Coordinator.operate Coordinator.dispatch
    Coordinator.start Coordinator.new_proposal_number Coordinator.new_instance_number
    Coordinator.raise
c_proposed = refl

proposals_unique_example :
    All
      (λ n. elem n (Coordinator.prepare_numbers (proposer 2).1) ≡ false)
      (Coordinator.prepare_numbers (proposer 1).1)
proposals_unique_example =
    proposals_unique 1 2 3 2 2 proposals proposals (proposer 1).0 (proposer 2).0 (proposer 1).1
      (proposer 2).1 (λ e. absurd (omega arith)) (omega arith) (omega arith) b_proposed c_proposed
