-- ===== src/Paxos/Node/Execution.antt =====
-- contrib/libpaxos/libpaxos.go: a replica executes the log in order, and each value once.
use mathlib.Core.List.{append-nil}
use airline_booking.Paxos.Learner.{get_history}
use airline_booking.Paxos.Node.Log.{IsUnique, lookup-get_history}
use airline_booking.Prelude.{
  ℕ, zero, suc, ◌+◌, ◌-◌, ◌≤◌, ◌≡◌, refl, sym, ap, subst, ◌∙◌, inl, inr, Option, none, some, List,
  [], ◌∷◌, ◌++◌, arith, ltb, nat_beq, nat_eq, Bool-cases, Option-cases, length, Text, text_eq,
}
use airline_booking.Prelude.Assoc.{Assoc}
use airline_booking.Paxos.Types.{MsgType, propose, epoch, Packet, Msg}
use airline_booking.Paxos.Coordinator
use airline_booking.Paxos.Acceptor
use airline_booking.Paxos.Node.{
  Libpaxos, Effect, Step, ◌then_do◌, value_of, sends, retries, note_packet, run_coordinator,
  recover, raise_highest, mark_executed, catch_up, forget_unsent, on_learnt, run_acceptor,
  execute_from,
}
use airline_booking.Paxos.Node.Replay.{
  responses, Replay, Replay-cast, regroup, Post, Post-map, Post-then, Executes,
  execute_from-Executes,
}

-- The commands handed to the client so far are those of the log up to the last one executed.
pub record IsFaithful (lp : Libpaxos) (cmds : List Text) : Type 0 where
  pub replay : Replay lp.l lp.execute_history lp.last_command_executed cmds
  pub behind : lp.last_command_executed ≤ lp.highest_learnt
  pub unique : IsUnique lp.l

-- A step that ends without a panic goes on from a faithful state to a faithful one.
pub record Keeps (m : Step) : Type 0 where
  pub at :
      (lp : Libpaxos) (cmds : List Text)
      → IsFaithful lp cmds
      → Post (λ lp' es. IsFaithful lp' (cmds ++ responses es)) (m lp)

pub IsFaithful-cast :
    {lp : Libpaxos} {cs ds : List Text} → cs ≡ ds → IsFaithful lp cs → IsFaithful lp ds
IsFaithful-cast {lp} p h = subst (IsFaithful lp) p h

pub Keeps-then : (m k : Step) → Keeps m → Keeps k → Keeps (m then_do k)
Keeps-then m k hm hk = record {
  at = λ lp cmds h.
      Post-then (λ lp' es. IsFaithful lp' (cmds ++ responses es)) _ m k lp (hm.at lp cmds h)
        λ lp' es h'.
          Post-map _ _ (k lp') (λ lp'' fs h''. IsFaithful-cast (regroup cmds es fs) h'')
            (hk.at lp' (cmds ++ responses es) h');
}

-- A step that touches none of what the log rests on.
pub record IsQuiet (lp lp' : Libpaxos) (es : List Effect) : Type 0 where
  pub learner : lp'.l ≡ lp.l
  pub history : lp'.execute_history ≡ lp.execute_history
  pub last : lp'.last_command_executed ≡ lp.last_command_executed
  pub highest : lp.highest_learnt ≤ lp'.highest_learnt
  pub silent : responses es ≡ []

IsQuiet-IsFaithful :
    (cmds : List Text) {lp lp' : Libpaxos} {es : List Effect}
    → IsQuiet lp lp' es
    → IsFaithful lp cmds
    → IsFaithful lp' (cmds ++ responses es)
IsQuiet-IsFaithful cmds {lp} {lp'} {es} q h = record {
  replay = rw (q.learner, q.history, q.last, q.silent, append-nil) h.replay;
  behind = omega (arith, q.last, q.highest, h.behind);
  unique = rw q.learner h.unique;
}

pub Keeps-quiet : (m : Step) → ((lp : Libpaxos) → Post (IsQuiet lp) (m lp)) → Keeps m
Keeps-quiet m quiet = record {
  at = λ lp cmds h.
      Post-map (IsQuiet lp) _ (m lp) (λ lp' es q. IsQuiet-IsFaithful cmds q h) (quiet lp);
}

pub responses-sends : (out : Option Msg) → responses (sends out) ≡ []
unfolding responses sends
responses-sends none = refl
responses-sends (some m) = refl

responses-retries : (m : Assoc Text Packet) → responses (retries m) ≡ []
unfolding responses retries
responses-retries [] = refl
responses-retries ((v, p) ∷ m) = responses-retries m

responses-recover :
    (self : Text) (rounds i : ℕ) (history : Assoc ℕ Text)
    → responses (recover self rounds i history) ≡ []
unfolding responses recover
responses-recover self zero i history = refl
responses-recover self (suc rounds) i history =
    ground (arith, responses-recover self rounds (i + 1) history)

pub note_packet-Keeps : (t : MsgType) (p : Packet) → Keeps (note_packet t p)
unfolding note_packet responses
note_packet-Keeps propose p = Keeps-quiet _ λ lp. ground arith
note_packet-Keeps epoch p = Keeps-quiet _ λ lp. ground (arith, responses-retries lp.unsent_values)
note_packet-Keeps _ p = Keeps-quiet _ λ lp. ground arith

pub run_coordinator-Keeps : (p : Packet) → Keeps (run_coordinator p)
unfolding run_coordinator
run_coordinator-Keeps p = Keeps-quiet _ λ lp. elim (Option-cases (Coordinator.operate lp.c p)) [
  | inl e ↦ rw (e, run_coordinator) tt
  | inr ((c, out), e) ↦ rw (e, run_coordinator) (ground (arith, responses-sends out))
]

pub run_acceptor-Keeps : (p : Packet) → Keeps (run_acceptor p)
unfolding run_acceptor
run_acceptor-Keeps p =
    Keeps-quiet _ λ lp. ground (arith, responses-sends (Acceptor.operate lp.a p).1)

forget_unsent-Keeps : (v : Text) → Keeps (forget_unsent v)
unfolding forget_unsent responses
forget_unsent-Keeps v = Keeps-quiet _ λ lp. ground arith

mark_executed-IsFaithful :
    (lp : Libpaxos) (n : ℕ) (cmds : List Text) (lp' : Libpaxos) (es : List Effect)
    → IsUnique lp.l
    → n ≡ lp.highest_learnt
    → Executes lp.l lp n cmds lp' es
    → Post (λ lp'' fs. IsFaithful lp'' (cmds ++ responses (es ++ fs))) (mark_executed lp')
unfolding mark_executed
mark_executed-IsFaithful lp n cmds lp' es unique at (r, same) = record {
  replay =
      rw same.learner (
        Replay-cast (at ∙ sym same.highest) (ap (λ x. cmds ++ responses x) (sym (append-nil es)))
          r);
  behind = omega arith;
  unique = rw same.learner unique;
}

catch_up-Keeps : Keeps catch_up
unfolding catch_up
catch_up-Keeps = record {
  at = λ lp cmds h. elim (Bool-cases (nat_beq (length (get_history lp.l)) lp.highest_learnt)) [
    | inl full ↦ rw full (
        Post-then
          (Executes lp.l lp
            (lp.last_command_executed + (lp.highest_learnt - lp.last_command_executed)) cmds)
          (λ lp' es. IsFaithful lp' (cmds ++ responses es))
          (execute_from (lp.highest_learnt - lp.last_command_executed)
            (lp.last_command_executed + 1) (get_history lp.l))
          mark_executed lp
          (execute_from-Executes lp.l (get_history lp.l)
            (λ i. ap value_of (lookup-get_history lp.l i h.unique))
            (lp.highest_learnt - lp.last_command_executed) lp lp.last_command_executed cmds
            h.replay)
          (λ lp' es x.
            mark_executed-IsFaithful lp _ cmds lp' es h.unique (omega (arith, h.behind)) x))
    | inr gap ↦ rw gap (
        IsQuiet-IsFaithful cmds
          (record {
            learner = refl;
            history = refl;
            last = refl;
            highest = omega arith;
            silent = responses-recover lp.self (lp.highest_learnt - 1) 1 (get_history lp.l);
          })
          h)
  ];
}

raise_highest-IsFaithful :
    (learnt : ℕ) (lp : Libpaxos) (cmds : List Text)
    → IsFaithful lp cmds
    → IsFaithful (raise_highest learnt lp) cmds
unfolding raise_highest
raise_highest-IsFaithful learnt lp cmds h = elim (Bool-cases (ltb lp.highest_learnt learnt)) [
  | inl up ↦
      rw up (record { replay = h.replay; behind = ground (arith, h.behind); unique = h.unique })
  | inr same ↦ rw same h
]

pub on_learnt-Keeps : (learnt : ℕ) (v : Text) → Keeps (on_learnt learnt v)
unfolding on_learnt responses
on_learnt-Keeps zero v = Keeps-quiet _ λ lp. ground arith
on_learnt-Keeps (suc learnt) v = record {
  at = λ lp cmds h.
      (Keeps-then catch_up (forget_unsent v) catch_up-Keeps (forget_unsent-Keeps v)).at
        (raise_highest (suc learnt) lp) cmds (raise_highest-IsFaithful (suc learnt) lp cmds h);
}
