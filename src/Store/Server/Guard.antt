-- ===== src/Store/Server/Guard.antt =====
-- What a lease of a storage server promises: appHandler in contrib/storageimpl/storageimpl.go does not
-- change a key while somebody has a lease of it, and grants no new one while a write waits.
use airline_booking.Prelude.{
  ◌≡◌, refl, sym, ap, subst, ◌∙◌, ◌≢◌, inl, inr, true, false, none, some, List, [], ◌∷◌, arith,
  nat_eq, Option-cases, beq_self, elem, Text, text_eq,
}
use airline_booking.Prelude.Assoc.{lookup, keys}
use airline_booking.Store.HashList.Sequence.{without}
use airline_booking.Store.Server.{Request, Effect, State, handle, clients_of}
use airline_booking.Store.Server.Content.{Shows, write_content}
use airline_booking.Store.Server.View.{
  View, Viewed, set, set-elim, write_all, view_step, add_client, is_empty, IsServer, ban_of,
}
use airline_booking.Store.Server.View.Parts.{holders_nonempty}
use airline_booking.Store.Server.Cases.{remaining, step_cases}
use airline_booking.Store.Server.Refinement.{handle-Steps}

-- The key `k` keeps what it holds in a step from `a` that leaves it leased.
abbrev Guarded : Text → View → Viewed → Type 0
Guarded k a w = is_empty (w.0.holders k) ≡ false → w.0.contents k ≡ a.contents k

step-Guarded : (r : Request) (a : View) (k : Text) → Guarded k a (view_step r a)
step-Guarded r a k = step_cases (Guarded k a) r a (record {
  answered = λ x e. refl;
  wrote = λ w free.
      set-elim (λ j c. is_empty (a.holders j) ≡ false → c ≡ a.contents j) r.key k
        (write_content r.typ r.value (a.contents r.key)).0 a.contents (λ e. cc) (λ n e. refl);
  waits = λ w had e. refl;
  grants = λ free e. refl;
  releases = λ gone.
      set-elim (λ j c. is_empty (set r.key (remaining r a) a.holders j) ≡ false → c ≡ a.contents j)
        r.key k (write_all (a.pending r.key) (a.contents r.key)).0 a.contents
        (λ e. ground (arith, beq_self r.key)) (λ n e. refl);
  shortens = λ some_left e. refl;
})

-- No client gets a lease of the key `k` in a step from `a` that leaves a write waiting.
abbrev NoneNew : Text → View → Viewed → Type 0
NoneNew k a w =
    is_empty (w.0.pending k) ≡ false
    → (c : Text) → elem c (w.0.holders k) ≡ true
    → elem c (a.holders k) ≡ true

elem-without : (c v : Text) (cs : List Text) → elem c (without v cs) ≡ true → elem c cs ≡ true
unfolding without
elem-without c v [] e = e
elem-without c v (d ∷ cs) e = ground (arith, elem-without c v cs)

step-NoneNew : (r : Request) (a : View) (k : Text) → NoneNew k a (view_step r a)
step-NoneNew r a k = step_cases (NoneNew k a) r a (record {
  answered = λ x p c e. e;
  wrote = λ w free p c e. e;
  waits = λ w had p c e. e;
  grants = λ free.
      set-elim
        (λ j hs.
          is_empty (a.pending j) ≡ false
          → (c : Text) → elem c hs ≡ true
          → elem c (a.holders j) ≡ true)
        r.key k (add_client r.value (a.holders r.key)) a.holders (λ p. cc) (λ n p c e. e);
  releases = λ gone p.
      set-elim (λ j hs. (c : Text) → elem c hs ≡ true → elem c (a.holders j) ≡ true) r.key k
        (remaining r a) a.holders (λ c. elem-without c r.value (a.holders r.key)) (λ n c e. e);
  shortens = λ some_left p.
      set-elim (λ j hs. (c : Text) → elem c hs ≡ true → elem c (a.holders j) ≡ true) r.key k
        (remaining r a) a.holders (λ c. elem-without c r.value (a.holders r.key)) (λ n c e. e);
})

-- In a well-formed server, a key that somebody has a lease of after a request shows what it showed
-- before, whatever the request was; and the handler returns.
pub handle-leased :
    (r : Request) (s : State) (a : View)
    → IsServer s a
    → (s' : State) × (es : List Effect) × (handle r s ≡ some (s', es))
      × ((k : Text) → lookup k s'.leases ≢ none → Shows (lookup k s'.cache) (a.contents k))
handle-leased r s a i =
    let (s', es, ran, step) = handle-Steps r s a i in
    (
      s',
      es,
      ran,
      λ k n. elim (Option-cases (lookup k s'.leases)) [
        | inl e ↦ absurd (n e)
        | inr (clients, had) ↦
            subst (Shows (lookup k s'.cache))
              (step-Guarded r a k (holders_nonempty s' (view_step r a).0 step.server k clients had))
              (step.server.shows k)
      ],
    )

banned : (rs : List Request) → ¬ (ban_of rs ≡ none) → is_empty rs ≡ false
banned [] n = absurd (n refl)
banned (r ∷ rs) n = refl

abbrev pub clients_at : Text → State → List Text
clients_at k s = keys (clients_of (lookup k s.leases))

-- In a well-formed server the handler returns, and where a write waits for the leases of a key after
-- a request, every client that then has a lease of the key had it before the request.
pub handle-waiting :
    (r : Request) (s : State) (a : View)
    → IsServer s a
    → (s' : State) × (es : List Effect) × (handle r s ≡ some (s', es))
      × ((k c : Text)
          → lookup k s'.bans ≢ none
          → elem c (clients_at k s') ≡ true
          → elem c (clients_at k s) ≡ true)
handle-waiting r s a i =
    let (s', es, ran, step) = handle-Steps r s a i in
    (
      s',
      es,
      ran,
      λ k c n e.
          let b = (view_step r a).0 in
          let p = banned (b.pending k) (λ q. n (step.server.bans k ∙ q)) in
          ap (elem c) (i.holders k)
          ∙ step-NoneNew r a k p c (sym (ap (elem c) (step.server.holders k)) ∙ e),
    )
