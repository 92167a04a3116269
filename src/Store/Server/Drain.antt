-- ===== src/Store/Server/Drain.antt =====
-- The loop of appHandler in contrib/storageimpl/storageimpl.go that processes the deferred requests
-- of a key.
use airline_booking.Prelude.{
  ℕ, zero, suc, ◌≤◌, ◌≡◌, refl, sym, subst, ◌∙◌, false, some, List, [], ◌∷◌, ◌++◌, arith, ◌==◌,
  nat_eq, length, All, Text, text_eq,
}
use airline_booking.Prelude.Assoc.{lookup}
use airline_booking.Store.Buffer.{Buf, empty, remove_first}
use airline_booking.Store.Buffer.Fifo.{Holds, empty-Holds, remove_first-Holds}
use airline_booking.Store.Server.{Request, Effect, State, drain, perform}
use airline_booking.Store.Server.Content.{Content, Shows, write_content, perform-Performs}
use airline_booking.Store.Server.View.{write_all, IsWait}

-- The step that the loop takes.
pub record Drained (k : Text) (s : State) (w : Content × List Effect) (b : Buf Request) (s' : State)
    (es : List Effect) : Type 0 where
  pub emptied : Holds b []
  pub shown : Shows (lookup k s'.cache) w.0
  pub others : (j : Text) → (k == j) ≡ false → lookup j s'.cache ≡ lookup j s.cache
  pub kept :
      (s'.leases ≡ s.leases)
      × (s'.deferred ≡ s.deferred)
      × (s'.bans ≡ s.bans)
      × (s'.channels ≡ s.channels)
  pub answered : es ≡ w.1

nothing :
    (k : Text) (b : Buf Request) (s : State) (c : Content)
    → Holds b []
    → Shows (lookup k s.cache) c
    → Drained k s (c, []) b s []
nothing k b s c h v = record {
  emptied = h;
  shown = v;
  others = λ j n. refl;
  kept = (refl, refl, refl, refl);
  answered = refl;
}

drain_round :
    (fuel : ℕ) (b b' b'' : Buf Request) (r : Request) (s s' s'' : State) (es es' : List Effect)
    → empty b ≡ false
    → remove_first b ≡ some (some r, b')
    → perform r s ≡ some (s', es)
    → drain fuel b' s' ≡ some (b'', s'', es')
    → drain (suc fuel) b s ≡ some (b'', s'', es ++ es')
unfolding drain
drain_round fuel b b' b'' r s s' s'' es es' full took ran went = rw (full, took, ran, went) refl

-- With fuel for every request the loop empties the buffer and performs the writes in their order.
pub drain-Drained :
    (fuel : ℕ) (k : Text) (b : Buf Request) (rs : List Request) (s : State) (c : Content)
    → Holds b rs
    → length rs ≤ fuel
    → All (IsWait k) rs
    → Shows (lookup k s.cache) c
    → (b' : Buf Request) × (s' : State) × (es : List Effect) × (drain fuel b s ≡ some (b', s', es))
      × Drained k s (write_all rs c) b' s' es
unfolding drain write_all
drain-Drained zero k b [] s c h f w v =
    (b, s, [], rw (empty-Holds b [] h) refl, nothing k b s c h v)
drain-Drained zero k b (r ∷ rs) s c h f w v = absurd (omega arith)
drain-Drained (suc fuel) k b [] s c h f w v =
    (b, s, [], rw (empty-Holds b [] h) refl, nothing k b s c h v)
drain-Drained (suc fuel) k b (r ∷ rs) s c h f ((isw, at), w) v =
    let (b', took, h') = remove_first-Holds r b rs h in
    let (s', es, ran, p) =
      perform-Performs r s c isw (subst (λ j. Shows (lookup j s.cache) c) (sym at) v) in
    let v' : Shows (lookup k s'.cache) (write_content r.typ r.value c).0 =
      subst (λ j. Shows (lookup j s'.cache) (write_content r.typ r.value c).0) at p.shown in
    let (b'', s'', es', went, d) =
      drain-Drained fuel k b' rs s' (write_content r.typ r.value c).0 h' (omega arith) w v' in
    (
      b'',
      s'',
      es ++ es',
      drain_round fuel b b' b'' r s s' s'' es es' (empty-Holds b (r ∷ rs) h ∙ ground arith) took ran
          went,
      record {
        emptied = d.emptied;
        shown = d.shown;
        others = λ j n. d.others j n ∙ p.others j (rw at n);
        kept = (d.kept.0 ∙ p.kept.0, d.kept.1 ∙ p.kept.1, d.kept.2 ∙ p.kept.2, d.kept.3 ∙ p.kept.3);
        answered = rw (p.answered, d.answered) refl;
      },
    )
