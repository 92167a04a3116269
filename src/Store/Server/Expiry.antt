-- ===== src/Store/Server/Expiry.antt =====
-- A write to a leased key waits no longer than the timers of its leases: what appHandler in
-- contrib/storageimpl/storageimpl.go does when they have all run out.
use airline_booking.Prelude.{
  ℕ, ◌≡◌, refl, sym, ap, subst, ◌∙◌, inl, inr, true, false, none, some, List, [], ◌∷◌, arith, ◌==◌,
  nat_eq, Bool-cases, beq_self, elem, Text, text_eq,
}
use airline_booking.Prelude.Assoc.{lookup}
use airline_booking.Store.HashList.Sequence.{without}
use airline_booking.Store.Server.{remove_lease, Request, Effect, State, is_write, run}
use airline_booking.Store.Server.Content.{Shows}
use airline_booking.Store.Server.View.{
  View, write_all, view_step, view_other, view_end, refuses, is_empty, IsServer, ban_of, set_here,
}
use airline_booking.Store.Server.View.Parts.{empty_lem, not_empty}
use airline_booking.Store.Server.Refinement.{view_run, run-Runs}
use airline_booking.Store.Server.Guard.{clients_at}

-- What leaseTimer sends when the time of a lease has run out.
unfoldable pub expire_request : Text → ℕ → Text → Request
expire_request k c client = record { typ = remove_lease; key = k; value = client; replyc = c }

abbrev pub expire_all : Text → ℕ → List Text → List Request
expire_all k c [] = []
expire_all k c (client ∷ cs) = expire_request k c client ∷ expire_all k c cs

without_all : List Text → List Text → List Text
without_all [] hs = hs
without_all (c ∷ cs) hs = without_all cs (without c hs)

elem-without_self :
    (c d : Text) (hs : List Text)
    → elem d (without c hs) ≡ true
    → (elem d hs ≡ true) × ((c == d) ≡ false)
unfolding without
elem-without_self c d [] e = cc
elem-without_self c d (h ∷ hs) e =
    ground (
      arith,
      elem-without_self c d hs,
      text_eq.beq_iff h c,
      text_eq.beq_iff c d,
      text_eq.beq_iff h d,
    )

-- Nobody is left once everybody has been taken out.
without_all-everybody :
    (cs hs : List Text)
    → ((c : Text) → elem c hs ≡ true → elem c cs ≡ true)
    → without_all cs hs ≡ []
unfolding without_all
without_all-everybody [] [] f = refl
without_all-everybody [] (h ∷ hs) f = absurd (ground (arith, f h, beq_self h))
without_all-everybody (c ∷ cs) hs f =
    without_all-everybody cs (without c hs)
      (λ d e. let (old, other) = elem-without_self c d hs e in ground (arith, f d old))

without_all-nobody : (cs : List Text) → without_all cs [] ≡ []
unfolding without_all without
without_all-nobody [] = refl
without_all-nobody (c ∷ cs) = without_all-nobody cs

-- The key `k` after the leases of `cs` have ended: once nobody is left, its writes are done.
record Expired (k : Text) (cs : List Text) (a b : View) : Type 0 where
  left : b.holders k ≡ without_all cs (a.holders k)
  after :
      is_empty (without_all cs (a.holders k)) ≡ true
      → (b.contents k ≡ (write_all (a.pending k) (a.contents k)).0) × (b.pending k ≡ [])
  before :
      is_empty (without_all cs (a.holders k)) ≡ false
      → (b.contents k ≡ a.contents k) × (b.pending k ≡ a.pending k)

module _ (k : Text) (c : ℕ) where
  module _ (client : Text) (a : View) where
    abbrev rest : List Text
    rest = without client (a.holders k)

    -- Nobody has a lease.
    nobody-Expired : a.holders k ≡ [] → a.pending k ≡ [] → Expired k (client ∷ []) a a
    unfolding without_all write_all without
    nobody-Expired e p = record {
      left = rw e refl;
      after = λ _. (rw p refl, p);
      before = λ n. absurd (not_empty rest n (ap (without client) e));
    }

    last-Expired :
        is_empty rest ≡ true → Expired k (client ∷ []) a (view_end (expire_request k c client) a).0
    unfolding expire_request view_end without_all
    last-Expired e =
        rw (view_end, e)
          (record {
            left = set_here k rest a.holders;
            after = λ _. (set_here k _ a.contents, set_here k [] a.pending);
            before = λ n. cc;
          })

    other-Expired :
        is_empty rest ≡ false → Expired k (client ∷ []) a (view_end (expire_request k c client) a).0
    unfolding expire_request view_end without_all
    other-Expired e =
        rw (view_end, e)
          (record { left = set_here k rest a.holders; after = λ n. cc; before = λ _. (refl, refl) })

    step-Expired :
        (a.holders k ≡ [] → a.pending k ≡ [])
        → Expired k (client ∷ []) a (view_step (expire_request k c client) a).0
    unfolding expire_request view_step refuses view_other is_write
    step-Expired leased = elim (Bool-cases (is_empty (a.holders k))) [
      | inl e ↦ rw e (let h = empty_lem (a.holders k) e in nobody-Expired h (leased h))
      | inr n ↦
          rw n
            (elim (Bool-cases (is_empty rest)) [ inl e ↦ last-Expired e | inr m ↦ other-Expired m ])
    ]

  still_leased :
      (client : Text) (a b : View)
      → Expired k (client ∷ []) a b
      → b.holders k ≡ []
      → b.pending k ≡ []
  unfolding without_all
  still_leased client a b s e = (s.after (ap is_empty (sym s.left ∙ e))).1

  -- One end after the other.
  module _ (client : Text) (cs : List Text) (a b d : View) (s : Expired k (client ∷ []) a b)
      (t : Expired k cs b d) where
    left_lem : without_all cs (b.holders k) ≡ without_all (client ∷ cs) (a.holders k)
    unfolding without_all
    left_lem = ap (without_all cs) s.left

    emptied_Expired : is_empty (without client (a.holders k)) ≡ true → Expired k (client ∷ cs) a d
    unfolding without_all write_all
    emptied_Expired e =
        let (c, p) = s.after e in
        let nobody : without_all cs (b.holders k) ≡ [] =
          ap (without_all cs) (s.left ∙ empty_lem _ e) ∙ without_all-nobody cs in
        let (c', p') = t.after (ap is_empty nobody) in
        record {
          left = t.left ∙ left_lem;
          after = λ _. (c' ∙ ap (λ rs. (write_all rs (b.contents k)).0) p ∙ c, p');
          before = λ n. absurd (not_empty _ n (sym left_lem ∙ nobody));
        }

    still_Expired : is_empty (without client (a.holders k)) ≡ false → Expired k (client ∷ cs) a d
    unfolding without_all
    still_Expired n =
        let (c, p) = s.before n in
        record {
          left = t.left ∙ left_lem;
          after = λ e.
              let (c', p') = t.after (ap is_empty left_lem ∙ e) in
              (
                c'
                    ∙ ap (λ rs. (write_all rs (b.contents k)).0) p
                    ∙ ap (λ x. (write_all (a.pending k) x).0) c,
                p',
              );
          before = λ e. let (c', p') = t.before (ap is_empty left_lem ∙ e) in (c' ∙ c, p' ∙ p);
        }

  view_run-Expired :
      (cs : List Text) (a : View)
      → (a.holders k ≡ [] → a.pending k ≡ [])
      → Expired k cs a (view_run (expire_all k c cs) a).0
  unfolding view_run without_all write_all
  view_run-Expired [] a leased = record {
    left = refl;
    after = λ e. let p = leased (empty_lem (a.holders k) e) in (rw p refl, p);
    before = λ n. (refl, refl);
  }
  view_run-Expired (client ∷ cs) a leased =
      let b = (view_step (expire_request k c client) a).0 in
      let s = step-Expired client a leased in
      let t = view_run-Expired cs b (still_leased client a b s) in
      let d = (view_run (expire_all k c cs) b).0 in
      elim (Bool-cases (is_empty (without client (a.holders k)))) [
        | inl e ↦ emptied_Expired client cs a b d s t e
        | inr n ↦ still_Expired client cs a b d s t n
      ]

-- In a well-formed server, once the timers of all clients that have a lease of a key have reported,
-- the handler has returned from every report, nobody has a lease of the key, no write waits for it,
-- and it shows what the writes that waited make of its old content, in the order of their arrival.
pub run-expired :
    (k : Text) (c : ℕ) (s : State) (a : View)
    → IsServer s a
    → (s' : State) × (es : List Effect) × (run (expire_all k c (clients_at k s)) s ≡ some (s', es))
      × (clients_at k s' ≡ [])
      × (lookup k s'.bans ≡ none)
      × Shows (lookup k s'.cache) (write_all (a.pending k) (a.contents k)).0
run-expired k c s a i =
    let cs = clients_at k s in
    let (s', es, ran, j, same) = run-Runs (expire_all k c cs) s a i in
    let x = view_run-Expired k c cs a (i.leased k) in
    let nobody : without_all cs (a.holders k) ≡ [] =
      without_all-everybody cs (a.holders k) (λ d e. ap (elem d) (i.holders k) ∙ e) in
    let (shown, done) = x.after (ap is_empty nobody) in
    (
      s',
      es,
      ran,
      j.holders k ∙ x.left ∙ nobody,
      j.bans k ∙ ap ban_of done,
      subst (Shows (lookup k s'.cache)) shown (j.shows k),
    )
