-- ===== src/Store/Server/Answers.antt =====
-- Every request to a storage server is answered once: appHandler in
-- contrib/storageimpl/storageimpl.go neither forgets a deferred write nor answers one twice.
use airline_booking.Prelude.{
  ℕ, ◌+◌, ◌≡◌, refl, ap, inl, inr, Bool, true, false, none, some, List, [], ◌∷◌, ◌++◌, arith,
  if◌then◌else◌, ◌==◌, nat_eq, Bool-cases, All, Text, text_eq,
}
use airline_booking.Prelude.Assoc.{lookup}
use airline_booking.Store.Server.{
  Request, Reply, bool_reply, Effect, answer, call_cache, start_timer, stop_timer, State, initial,
  run,
}
use airline_booking.Store.Server.Content.{Content, write_content}
use airline_booking.Store.Server.View.{View, Viewed, set, set-elim, write_all, view_step}
use airline_booking.Store.Server.View.Parts.{answers, holders-none}
use airline_booking.Store.Server.Cases.{step_cases, released}
use airline_booking.Store.Server.Refinement.{empty_view, initial-IsServer, view_run, run-Runs}

abbrev one_if : Bool → ℕ
one_if b = if b then 1 else 0

-- How many answers go to a reply channel.
unfoldable pub answered : ℕ → List Effect → ℕ
answered c [] = 0
answered c (answer d x ∷ es) = one_if (d == c) + answered c es
answered c (e ∷ es) = answered c es

-- How many requests expect their answer on it.
unfoldable pub expecting : ℕ → List Request → ℕ
expecting c [] = 0
expecting c (r ∷ rs) = one_if (r.replyc == c) + expecting c rs

answered-append :
    (c : ℕ) (es fs : List Effect) → answered c (es ++ fs) ≡ answered c es + answered c fs
unfolding answered
answered-append c [] fs = omega arith
answered-append c (answer d x ∷ es) fs = omega (arith, answered-append c es fs)
answered-append c (call_cache k d ∷ es) fs = answered-append c es fs
answered-append c (start_timer k d t n ∷ es) fs = answered-append c es fs
answered-append c (stop_timer n ∷ es) fs = answered-append c es fs

answered-answers : (c : ℕ) (es : List Effect) → answered c (answers es) ≡ answered c es
unfolding answered answers
answered-answers c [] = refl
answered-answers c (answer d x ∷ es) = ap (λ n. one_if (d == c) + n) (answered-answers c es)
answered-answers c (call_cache k d ∷ es) = answered-answers c es
answered-answers c (start_timer k d t n ∷ es) = answered-answers c es
answered-answers c (stop_timer n ∷ es) = answered-answers c es

expecting-append :
    (c : ℕ) (rs qs : List Request) → expecting c (rs ++ qs) ≡ expecting c rs + expecting c qs
unfolding expecting
expecting-append c [] qs = omega arith
expecting-append c (r ∷ rs) qs = omega (arith, expecting-append c rs qs)

answered-write_all :
    (c : ℕ) (rs : List Request) (x : Content) → answered c (write_all rs x).1 ≡ expecting c rs
unfolding answered expecting write_all
answered-write_all c [] x = refl
answered-write_all c (r ∷ rs) x =
    ap (λ n. one_if (r.replyc == c) + n) (answered-write_all c rs (write_content r.typ r.value x).0)

-- A reply channel belongs to requests for one key.
abbrev pub ForKey : ℕ → Text → Request → Type 0
ForKey c k r = (r.replyc == c) ≡ true → (r.key == k) ≡ true

module _ (c : ℕ) (k : Text) where
  -- No write to another key has the channel.
  abbrev Elsewhere : View → Type 0
  Elsewhere a = (j : Text) → (k == j) ≡ false → expecting c (a.pending j) ≡ 0

  -- The answers and the waiting writes after a step, against those before and the request.
  abbrev Balanced : Request → View → Viewed → Type 0
  Balanced r a w =
      Elsewhere w.0
      × (answered c w.1 + expecting c (w.0.pending k)
          ≡ one_if (r.replyc == c) + expecting c (a.pending k))

  answer_last :
      (r : Request) (x : Reply) → answered c (answer r.replyc x ∷ []) ≡ one_if (r.replyc == c)
  unfolding answered
  answer_last r x = omega arith

  waits-Balanced :
      (r : Request) (a : View)
      → ForKey c k r
      → Elsewhere a
      → Balanced r a (record a { pending = set r.key (a.pending r.key ++ r ∷ []) a.pending }, [])
  unfolding answered expecting
  waits-Balanced r a own else_ = (
    (λ j n. ground (
      arith,
      expecting-append c (a.pending r.key) (r ∷ []),
      else_ j n,
      else_ r.key,
      text_eq.beq_iff r.key j,
      text_eq.beq_iff k j,
      text_eq.beq_iff r.key k,
    )),
    ground (arith, expecting-append c (a.pending r.key) (r ∷ []), text_eq.beq_iff r.key k),
  )

  released_lem :
      (r : Request) (a : View)
      → Elsewhere a
      → expecting c (a.pending r.key) + expecting c (set r.key [] a.pending k)
        ≡ expecting c (a.pending k)
  unfolding expecting
  released_lem r a else_ = elim (Bool-cases (r.key == k)) [
    | inl e ↦
        rw e (omega (arith, ap (λ j. expecting c (a.pending j)) ((text_eq.beq_iff r.key k).0 e)))
    | inr n ↦ rw n (
        omega
          (arith, else_ r.key (ground (arith, text_eq.beq_iff r.key k, text_eq.beq_iff k r.key))))
  ]

  releases-Balanced : (r : Request) (a : View) → Elsewhere a → Balanced r a (released r a)
  unfolding expecting
  releases-Balanced r a else_ = (
    (λ j n.
        set-elim (λ l rs. (k == l) ≡ false → expecting c rs ≡ 0) r.key j [] a.pending (λ _. refl)
          (λ _. else_ j) n),
    omega (
      arith,
      answered-append c (write_all (a.pending r.key) (a.contents r.key)).1
          (answer r.replyc (bool_reply true) ∷ []),
      answered-write_all c (a.pending r.key) (a.contents r.key),
      answer_last r (bool_reply true),
      released_lem r a else_,
    ),
  )

  step-Balanced :
      (r : Request) (a : View) → ForKey c k r → Elsewhere a → Balanced r a (view_step r a)
  step-Balanced r a own else_ = step_cases (Balanced r a) r a (record {
    answered = λ x. (else_, ap (λ n. n + expecting c (a.pending k)) (answer_last r x));
    wrote = λ w free. (else_, ap (λ n. n + expecting c (a.pending k)) (answer_last r _));
    waits = λ w had. waits-Balanced r a own else_;
    grants =
        λ free. (else_, ap (λ n. n + expecting c (a.pending k)) (answer_last r (bool_reply true)));
    releases = λ gone. releases-Balanced r a else_;
    shortens =
        λ left. (else_, ap (λ n. n + expecting c (a.pending k)) (answer_last r (bool_reply true)));
  })

  pub view_run-Balanced :
      (rs : List Request) (a : View)
      → All (ForKey c k) rs
      → Elsewhere a
      → answered c (view_run rs a).1 + expecting c ((view_run rs a).0.pending k)
        ≡ expecting c rs + expecting c (a.pending k)
  unfolding view_run answered expecting
  view_run-Balanced [] a own else_ = refl
  view_run-Balanced (r ∷ rs) a (own, owns) else_ =
      let (else', balance) = step-Balanced r a own else_ in
      let b = (view_step r a).0 in
      omega (
        arith,
        balance,
        view_run-Balanced rs b owns else',
        answered-append c (view_step r a).1 (view_run rs b).1,
      )

-- Whatever requests come, the handler of a new server returns from every one of them; and if the
-- requests with the reply channel `c` are for the key `k`, then once nobody has a lease of `k` as many
-- answers have gone to `c` as there were such requests.
pub run-answered :
    (c : ℕ) (k : Text) (rs : List Request)
    → All (ForKey c k) rs
    → (s : State) × (es : List Effect) × (run rs initial ≡ some (s, es))
      × (lookup k s.leases ≡ none → answered c es ≡ expecting c rs)
unfolding expecting empty_view
run-answered c k rs own =
    let (s, es, ran, i, same) = run-Runs rs initial empty_view initial-IsServer in
    let b = (view_run rs empty_view).0 in
    let balance = view_run-Balanced c k rs empty_view own (λ j n. refl) in
    (
      s,
      es,
      ran,
      λ free.
          let none_left : expecting c (b.pending k) ≡ 0 =
            ap (expecting c) (i.leased k (holders-none s b i k free)) in
          omega (arith, balance, none_left, answered-answers c es, ap (answered c) same),
    )
