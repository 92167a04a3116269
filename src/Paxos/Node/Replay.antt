-- ===== src/Paxos/Node/Replay.antt =====
-- contrib/libpaxos/libpaxos.go: executing the log, one instance after another.
use mathlib.Core.List.{append_assoc, append-nil}
use mathlib.Core.Path.{subst₂}
use airline_booking.Prelude.{
  ℕ, zero, suc, ◌+◌, ◌≡◌, refl, sym, ap, subst, ◌∙◌, inl, inr, Bool, true, false, ◌||◌, Option,
  none, some, List, [], ◌∷◌, ◌++◌, arith, if◌then◌else◌, nat_eq, Bool-cases, Option-cases, elem,
  Text, text_beq, text_beq_iff, text_eq,
}
use airline_booking.Prelude.Assoc.{Assoc, lookup, insert, lookup-insert}
use airline_booking.Paxos.Wire.{get_from_modified_value}
use airline_booking.Paxos.Learner.{Learner}
use airline_booking.Paxos.Node.{
  Libpaxos, Effect, broadcast, enqueue, paxos_response, Step, after, ◌then_do◌, execute,
  execute_from, is_known, value_of,
}
use airline_booking.Paxos.Node.Log.{
  value_at, entries, entries-suc, IsComplete, fresh, fresh-snoc, commands, commands-append,
  commands-one, elem-snoc, committed_of_tagged, IsComplete-suc,
}

-- The commands handed to the client, in order.
unfoldable pub responses : List Effect → List Text
responses [] = []
responses (paxos_response cmd ∷ es) = cmd ∷ responses es
responses (broadcast m ∷ es) = responses es
responses (enqueue p ∷ es) = responses es

pub responses-append : (es fs : List Effect) → responses (es ++ fs) ≡ responses es ++ responses fs
unfolding responses
responses-append [] fs = refl
responses-append (paxos_response cmd ∷ es) fs = ap (◌∷◌ cmd) (responses-append es fs)
responses-append (broadcast m ∷ es) fs = responses-append es fs
responses-append (enqueue p ∷ es) fs = responses-append es fs

abbrev pub IsTagged : Text → Type 0
IsTagged v = (cmd : Text) × (get_from_modified_value v ≡ some cmd)

-- The commands `cmds` are those of the first n instances, each value once; the history of executed
-- values holds these values; and the instances are committed, with tagged values.
pub record Replay (l : Learner) (history : Assoc Text Bool) (n : ℕ) (cmds : List Text)
    : Type 0 where
  pub executed : cmds ≡ commands (fresh [] (entries l n))
  pub known : (v : Text) → is_known (lookup v history) ≡ elem v (entries l n)
  pub complete : IsComplete l n
  pub tagged : (v : Text) → elem v (entries l n) ≡ true → IsTagged v

pub Replay-cast :
    {l : Learner} {h : Assoc Text Bool} {m n : ℕ} {cs ds : List Text}
    → m ≡ n
    → cs ≡ ds
    → Replay l h m cs
    → Replay l h n ds
Replay-cast {l} {h} {m} {n} {cs} {ds} p q r = subst₂ (Replay l h) p q r

pub regroup :
    (cmds : List Text) (es fs : List Effect)
    → (cmds ++ responses es) ++ responses fs ≡ cmds ++ responses (es ++ fs)
regroup cmds es fs =
    append_assoc cmds (responses es) (responses fs) ∙ ap (◌++◌ cmds) (sym (responses-append es fs))

-- What holds of the outcome of a step, if there is one.
abbrev pub Post : (Libpaxos → List Effect → Type 0) → Option (Libpaxos × List Effect) → Type 0
Post Q none = Unit
Post Q (some (lp, es)) = Q lp es

pub Post-map :
    (Q R : Libpaxos → List Effect → Type 0) (r : Option (Libpaxos × List Effect))
    → ((lp : Libpaxos) (es : List Effect) → Q lp es → R lp es)
    → Post Q r
    → Post R r
Post-map Q R none f h = tt
Post-map Q R (some (lp, es)) f h = f lp es h

pub Post-after :
    (R : Libpaxos → List Effect → Type 0) (es : List Effect) (r : Option (Libpaxos × List Effect))
    → Post (λ lp fs. R lp (es ++ fs)) r
    → Post R (after es r)
unfolding after
Post-after R es none h = tt
Post-after R es (some (lp, fs)) h = h

pub Post-then :
    (Q R : Libpaxos → List Effect → Type 0) (m k : Step) (lp : Libpaxos)
    → Post Q (m lp)
    → ((lp' : Libpaxos) (es : List Effect) → Q lp' es → Post (λ lp'' fs. R lp'' (es ++ fs)) (k lp'))
    → Post R ((m then_do k) lp)
unfolding ◌then_do◌
Post-then Q R m k lp h next = elim (Option-cases (m lp)) [
  | inl e ↦ rw (e, ◌then_do◌) tt
  | inr ((lp', es), e) ↦
      rw (e, ◌then_do◌) (Post-after R es (k lp') (next lp' es (subst (Post Q) e h)))
]

module _ (l : Learner) (history : Assoc Text Bool) (n : ℕ) (cmds : List Text)
    (r : Replay l history n cmds) where
  abbrev v : Text
  v = value_at l (suc n)

  fresh-suc :
      (b : Bool)
      → elem v (entries l n) ≡ b
      → fresh [] (entries l (suc n))
        ≡ (if b then fresh [] (entries l n) else fresh [] (entries l n) ++ v ∷ [])
  fresh-suc b h = rw (entries-suc l n) (ground (arith, fresh-snoc [] (entries l n) v))

  elem-suc : (w : Text) → elem w (entries l (suc n)) ≡ (elem w (entries l n) || text_beq v w)
  elem-suc w = rw (entries-suc l n) (elem-snoc w v (entries l n))

  IsTagged-suc : IsTagged v → (w : Text) → elem w (entries l (suc n)) ≡ true → IsTagged w
  IsTagged-suc t w m = elim (Bool-cases (elem w (entries l n))) [
    | inl old ↦ r.tagged w old
    | inr new ↦ subst IsTagged ((text_beq_iff v w).0 (ground (arith, elem-suc w))) t
  ]

  -- The value has been executed for an earlier instance.
  Replay-old : (b : Bool) → lookup v history ≡ some b → Replay l history (suc n) cmds
  unfolding is_known
  Replay-old b h =
      let here : elem v (entries l n) ≡ true = ground (arith, r.known v) in
      let t : IsTagged v = r.tagged v here in
      record {
        executed = r.executed ∙ ap commands (sym (fresh-suc true here));
        known = λ w. ground (arith, elem-suc w, r.known w, text_beq_iff v w);
        complete = IsComplete-suc l n r.complete (committed_of_tagged l (suc n) t.0 t.1);
        tagged = IsTagged-suc t;
      }

  -- The value is new, and its command follows.
  Replay-new :
      (cmd : Text)
      → lookup v history ≡ none
      → get_from_modified_value v ≡ some cmd
      → Replay l (insert v true history) (suc n) (cmds ++ cmd ∷ [])
  unfolding is_known
  Replay-new cmd h tag =
      let away : elem v (entries l n) ≡ false = ground (arith, r.known v) in
      record {
        executed =
            ap (λ x. x ++ cmd ∷ []) r.executed
            ∙ ap (◌++◌ (commands (fresh [] (entries l n)))) (sym (commands-one v cmd tag))
            ∙ sym (commands-append (fresh [] (entries l n)) (v ∷ []))
            ∙ ap commands (sym (fresh-suc false away));
        known = λ w.
            ground (arith, elem-suc w, lookup-insert v w true history, r.known w, text_beq_iff v w);
        complete = IsComplete-suc l n r.complete (committed_of_tagged l (suc n) cmd tag);
        tagged = IsTagged-suc (cmd, tag);
      }

-- Nothing but the history of executed values is touched.
pub record IsSame (lp lp' : Libpaxos) : Type 0 where
  pub learner : lp'.l ≡ lp.l
  pub highest : lp'.highest_learnt ≡ lp.highest_learnt
  pub last : lp'.last_command_executed ≡ lp.last_command_executed

IsSame-trans : {a b c : Libpaxos} → IsSame a b → IsSame b c → IsSame a c
IsSame-trans p q = record {
  learner = q.learner ∙ p.learner;
  highest = q.highest ∙ p.highest;
  last = q.last ∙ p.last;
}

IsSame-history :
    (lp : Libpaxos) (h : Assoc Text Bool) → IsSame lp (record lp { execute_history = h })
IsSame-history lp h = record { learner = refl; highest = refl; last = refl }

module _ (l : Learner) where
  abbrev pub Executes : Libpaxos → ℕ → List Text → Libpaxos → List Effect → Type 0
  Executes lp n cmds lp' es = Replay l lp'.execute_history n (cmds ++ responses es) × IsSame lp lp'

  execute-Executes :
      (lp : Libpaxos) (n : ℕ) (cmds : List Text)
      → Replay l lp.execute_history n cmds
      → Post (Executes lp (suc n) cmds) (execute (value_at l (suc n)) lp)
  unfolding execute responses
  execute-Executes lp n cmds r = elim (Option-cases (lookup v lp.execute_history)) [
    | inr (b, old) ↦
        rw (old, execute)
          (
            subst (Replay l lp.execute_history (suc n)) (sym (append-nil cmds))
                (Replay-old l lp.execute_history n cmds r b old),
            IsSame-history lp lp.execute_history,
          )
    | inl new ↦ elim (Option-cases (get_from_modified_value v)) [
      | inl e ↦ rw (new, execute) (rw e tt)
      | inr (cmd, e) ↦
          rw (new, execute)
            (rw e (
              Replay-new l lp.execute_history n cmds r cmd new e,
              IsSame-history lp (insert v true lp.execute_history),
            ))
    ]
  ]
    where
      v : Text
      v = value_at l (suc n)

  -- The loop executes the instances from n + 1 on.
  pub execute_from-Executes :
      (history : Assoc ℕ Text)
      → ((i : ℕ) → value_of (lookup i history) ≡ value_at l i)
      → (rounds : ℕ) (lp : Libpaxos) (n : ℕ) (cmds : List Text) → Replay l lp.execute_history n cmds
      → Post (Executes lp (n + rounds) cmds) (execute_from rounds (n + 1) history lp)
  unfolding execute_from responses
  execute_from-Executes history agree zero lp n cmds r = (
    subst (λ k. Replay l lp.execute_history k (cmds ++ [])) (omega arith)
        (subst (Replay l lp.execute_history n) (sym (append-nil cmds)) r),
    IsSame-history lp lp.execute_history,
  )
  execute_from-Executes history agree (suc rounds) lp n cmds r =
      Post-then (Executes lp (suc n) cmds) (Executes lp (n + suc rounds) cmds)
        (execute (value_of (lookup (n + 1) history))) (execute_from rounds (n + 1 + 1) history) lp
        (subst (λ v. Post (Executes lp (suc n) cmds) (execute v lp)) (sym at)
          (execute-Executes lp n cmds r))
        λ lp' es (r', same).
          subst
            (λ k.
              Post (λ lp'' fs. Executes lp (n + suc rounds) cmds lp'' (es ++ fs))
                (execute_from rounds k history lp'))
            (omega arith)
            (Post-map (Executes lp' (suc n + rounds) (cmds ++ responses es)) _ _
              (λ lp'' fs (r'', same').
                (Replay-cast (omega arith) (regroup cmds es fs) r'', IsSame-trans same same'))
              (execute_from-Executes history agree rounds lp' (suc n) (cmds ++ responses es) r'))
    where
      at : value_of (lookup (n + 1) history) ≡ value_at l (suc n)
      at = agree (n + 1) ∙ ap (value_at l) (omega arith)
