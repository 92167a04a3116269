-- ===== src/Paxos/Node/Consistency.antt =====
-- contrib/libpaxos/libpaxos.go: replicas whose logs agree execute the same commands.
use mathlib.Core.List.{append-nil}
use airline_booking.Prelude.{
  ℕ, ◌-◌, ◌≤◌, ◌<◌, ◌≡◌, refl, sym, ap, subst, ◌∙◌, true, some, List, [], ◌∷◌, ◌++◌, arith, nat_eq,
  elem, Distinct, Text, text_eq,
}
use airline_booking.Prelude.Assoc.{lookup}
use airline_booking.Paxos.Types.{Packet}
use airline_booking.Paxos.Learner.{Learner, protocol}
use airline_booking.Paxos.Learner
use airline_booking.Paxos.Learner.Stable.{operate_stable}
use airline_booking.Paxos.Node.{
  Libpaxos, Effect, init, note_packet, run_coordinator, sends, value_of, on_learnt, run_learner,
  run_acceptor, handle_operate, run, is_known,
}
use airline_booking.Paxos.Node.Log.{
  operate-IsUnique, committed_value, entries, entries_agree, IsComplete, fresh, fresh-append,
  commands, commands-append, fresh-Distinct, entries-append,
}
use airline_booking.Paxos.Node.Replay.{responses, responses-append, Post, Post-map, Post-after}
use airline_booking.Paxos.Node.Execution.{
  IsFaithful, IsFaithful-cast, Keeps, Keeps-then, note_packet-Keeps, run_coordinator-Keeps,
  on_learnt-Keeps, run_acceptor-Keeps, responses-sends,
}

-- A packet changes nothing of the instances that are committed.
learner-IsFaithful :
    (lp : Libpaxos) (p : Packet) (cmds : List Text)
    → IsFaithful lp cmds
    → IsFaithful (record lp { l = (Learner.operate lp.l p).0 }) cmds
learner-IsFaithful lp p cmds h = record {
  replay = record {
    executed = h.replay.executed ∙ ap (λ es. commands (fresh [] es)) (sym same);
    known = λ v. h.replay.known v ∙ ap (elem v) (sym same);
    complete = λ i pos le. ap (λ e. e.committed) (kept i pos le) ∙ h.replay.complete i pos le;
    tagged = λ v m. h.replay.tagged v (ap (elem v) (sym same) ∙ m);
  };
  behind = h.behind;
  unique = operate-IsUnique lp.l p h.unique;
}
  where
    l' : Learner
    l' = (Learner.operate lp.l p).0

    kept : (i : ℕ) → 0 < i → i ≤ lp.last_command_executed → protocol l' i ≡ protocol lp.l i
    kept i pos le = operate_stable lp.l p i (h.replay.complete i pos le)

    same : entries l' lp.last_command_executed ≡ entries lp.l lp.last_command_executed
    same =
        entries_agree l' lp.l lp.last_command_executed
          (λ i pos le. ap (λ e. value_of (committed_value e)) (kept i pos le))

run_learner-Keeps : (p : Packet) → Keeps (run_learner p)
unfolding run_learner
run_learner-Keeps p = record {
  at = λ lp cmds h.
      let (l, out, learnt, v) = Learner.operate lp.l p in
      Post-after _ (sends out) (on_learnt learnt v (record lp { l = l })) (
        Post-map _ _ (on_learnt learnt v (record lp { l = l }))
          (λ lp' es h'.
            IsFaithful-cast
              (ap (◌++◌ cmds) (
                sym (
                  responses-append (sends out) es
                  ∙ ap (λ x. x ++ responses es) (responses-sends out))))
              h')
          ((on_learnt-Keeps learnt v).at (record lp { l = l }) cmds
            (learner-IsFaithful lp p cmds h)));
}

handle_operate-Keeps : (p : Packet) → Keeps (handle_operate p)
unfolding handle_operate
handle_operate-Keeps p =
    Keeps-then _ (run_acceptor p)
      (Keeps-then _ (run_learner p)
        (Keeps-then (note_packet p.packet_msg.msg_type p) (run_coordinator p)
          (note_packet-Keeps p.packet_msg.msg_type p) (run_coordinator-Keeps p))
        (run_learner-Keeps p))
      (run_acceptor-Keeps p)

run-Keeps : (ps : List Packet) → Keeps (run ps)
unfolding run responses
run-Keeps [] = record { at = λ lp cmds h. IsFaithful-cast (sym (append-nil cmds)) h }
run-Keeps (p ∷ ps) = record {
  at = (Keeps-then (handle_operate p) (run ps) (handle_operate-Keeps p) (run-Keeps ps)).at;
}

init-IsFaithful :
    (self : Text) (replicas : List Text) (q nodepos : ℕ)
    → IsFaithful (init self replicas q nodepos) []
unfolding entries fresh commands lookup is_known
init-IsFaithful self replicas q nodepos = record {
  replay = record {
    executed = refl;
    known = λ v. refl;
    complete = λ i pos le. absurd (omega arith);
    tagged = λ v m. cc;
  };
  behind = omega arith;
  unique = tt;
}

module _ (self : Text) (replicas : List Text) (q nodepos : ℕ) (ps : List Packet) (lp : Libpaxos)
    (es : List Effect) (ran : run ps (init self replicas q nodepos) ≡ some (lp, es)) where
  ran-IsFaithful : IsFaithful lp (responses es)
  ran-IsFaithful = subst (Post (λ lp' es'. IsFaithful lp' (responses es'))) ran (
      (run-Keeps ps).at (init self replicas q nodepos) [] (init-IsFaithful self replicas q nodepos))

  -- A replica that has handled any packets without a panic has handed its client exactly the commands
  -- of the instances 1 up to the last one executed, in the order of the instances and each value once,
  -- and all these instances are committed.
  pub executes_log :
      (responses es ≡ commands (fresh [] (entries lp.l lp.last_command_executed)))
      × Distinct (fresh [] (entries lp.l lp.last_command_executed))
      × IsComplete lp.l lp.last_command_executed
  executes_log =
      (ran-IsFaithful.replay.executed, fresh-Distinct [] _, ran-IsFaithful.replay.complete)

-- The instances that two learners have both committed have the same value in both.
abbrev pub Agree : Learner → Learner → Type 0
Agree l m =
    (i : ℕ)
    → (protocol l i).committed ≡ true
    → (protocol m i).committed ≡ true
    → (protocol l i).value ≡ (protocol m i).value

Agree-entries :
    (l m : Learner) (n k : ℕ)
    → n ≤ k
    → Agree l m
    → IsComplete l n
    → IsComplete m k
    → (ys : List Text) × (entries m k ≡ entries l n ++ ys)
Agree-entries l m n k le agree cl cm =
    let (ys, e) = entries-append m n (k - n) in
    (
      ys,
      ap (entries m) (omega arith)
          ∙ e
          ∙ ap (λ xs. xs ++ ys)
              (entries_agree m l n
                λ i pos lt. ground (arith, cl i pos lt, cm i pos (omega arith), agree i)),
    )

-- Two replicas, each after any packets of its own and without a panic, whose learners agree: the
-- commands of the one that is behind are the beginning of the commands of the other.
pub replicas_consistent :
    (self peer : Text) (replicas group : List Text) (q r a b : ℕ) (ps qs : List Packet)
    (lp mp : Libpaxos) (es fs : List Effect)
    → run ps (init self replicas q a) ≡ some (lp, es)
    → run qs (init peer group r b) ≡ some (mp, fs)
    → Agree lp.l mp.l
    → lp.last_command_executed ≤ mp.last_command_executed
    → (later : List Text) × (responses fs ≡ responses es ++ later)
replicas_consistent self peer replicas group q r a b ps qs lp mp es fs ran ran' agree le =
    let (e, _, cl) = executes_log self replicas q a ps lp es ran in
    let (f, _, cm) = executes_log peer group r b qs mp fs ran' in
    let (ys, g) = Agree-entries lp.l mp.l _ _ le agree cl cm in
    let (zs, h) = fresh-append [] (entries lp.l lp.last_command_executed) ys in
    (
      commands zs,
      f
          ∙ ap (λ x. commands (fresh [] x)) g
          ∙ ap commands h
          ∙ commands-append (fresh [] (entries lp.l lp.last_command_executed)) zs
          ∙ ap (λ x. x ++ commands zs) (sym e),
    )
