-- ===== src/Store/Server/Refinement.antt =====
-- appHandler of contrib/storageimpl/storageimpl.go implements the view: one request, and any sequence
-- of requests.
use airline_booking.Prelude.{
  ◌≡◌, refl, sym, ap, subst, ◌∙◌, inl, inr, true, false, none, some, List, [], ◌∷◌, ◌++◌, nat_eq,
  Bool-cases, Option-cases, text_eq,
}
use airline_booking.Prelude.Assoc.{lookup}
use airline_booking.Store.Server.{
  get, get_list, put_lease, remove_lease, revoke_lease, Request, State, Outcome, ◌>>=◌, reply_to,
  is_write, fetch, fetch_list, perform, defer, deferring, process, handle, Effect, initial, run,
}
use airline_booking.Store.Server.View.{
  View, refuses, view_write, view_other, view_step, answers_only, IsServer, read_content,
  read_sequence, Viewed,
}
use airline_booking.Store.Server.View.Parts.{pre_check-refuses, answers, answers-append, all_types}
use airline_booking.Store.Server.Steps.{
  Steps, reply_to-Steps, fetch-read_content, fetch_list-read_sequence, write-Steps, defer-Steps,
}
use airline_booking.Store.Server.Leases.{grant-Steps}
use airline_booking.Store.Server.Endings.{revoke-Steps, expire-Steps}
use airline_booking.Store.Server.Content.{missing}

process-perform : (r : Request) (s : State) → is_write r.typ ≡ true → process r s ≡ perform r s
unfolding process perform is_write
process-perform r s =
    all_types
      (λ t. is_write t ≡ true → process (record r { typ = t }) s ≡ perform (record r { typ = t }) s)
      r.typ (λ _. refl) (λ n. cc) (λ _. refl) (λ n. cc) (λ _. refl) (λ n. cc) (λ n. cc) (λ n. cc)

module _ (r : Request) (s : State) (a : View) (i : IsServer s a) where
  abbrev after_check : Outcome
  after_check = elim (lookup r.key s.leases) [
    | some clients ↦ defer r clients s
    | none ↦ process r s
  ]

  check_write : is_write r.typ ≡ true → Steps r s a (view_write r a) after_check
  check_write w = elim (Option-cases (lookup r.key s.leases)) [
    | inl free ↦
        rw (after_check, free)
          (subst (Steps r s a (view_write r a)) (sym (process-perform r s w))
            (write-Steps r s a i w free))
    | inr (clients, had) ↦ rw (after_check, had) (defer-Steps r s a i clients w had)
  ]

  get-Steps :
      Steps r s a
        (answers_only r (read_content (a.contents r.key)) a)
        (reply_to r (fetch (lookup r.key s.cache)) s)
  get-Steps =
      rw (fetch-read_content r s a i (lookup r.key s.cache) (a.contents r.key) (i.shows r.key))
        (reply_to-Steps r s a i (read_content (a.contents r.key)))

  get_list-Steps :
      Steps r s a
        (answers_only r (read_sequence (a.contents r.key)) a)
        (fetch_list (lookup r.key s.cache) >>= λ x. reply_to r x s)
  get_list-Steps =
      rw
        (fetch_list-read_sequence r s a i (lookup r.key s.cache) (a.contents r.key) (i.shows r.key))
        (reply_to-Steps r s a i (read_sequence (a.contents r.key)))

module _ (r : Request) (s : State) (a : View) (i : IsServer s a) where
  check_other : is_write r.typ ≡ false → Steps r s a (view_other r a) (process r s)
  unfolding process view_other is_write
  check_other =
      all_types
        (λ t.
          let q = record r { typ = t } in
          is_write t ≡ false → Steps q s a (view_other q a) (process q s))
        r.typ (λ n. cc) (λ _. get-Steps (record r { typ = get }) s a i) (λ n. cc)
        (λ _. get_list-Steps (record r { typ = get_list }) s a i) (λ n. cc)
        (λ _. grant-Steps (record r { typ = put_lease }) s a i)
        (λ _. expire-Steps (record r { typ = remove_lease }) s a i)
        (λ _. revoke-Steps (record r { typ = revoke_lease }) s a i)

  -- On a server whose maps stand for a view, whatever the request, the handler returns, and what it
  -- does to the maps and answers is the step of the view.
  pub handle-Steps : Steps r s a (view_step r a) (handle r s)
  unfolding handle view_step deferring
  handle-Steps =
      let pre = pre_check-refuses r (lookup r.key s.cache) (a.contents r.key) (i.shows r.key) in
      elim (Option-cases (refuses r.typ r.value (a.contents r.key))) [
        | inr (x, refused) ↦ rw (handle, view_step, pre, refused) (reply_to-Steps r s a i x)
        | inl open_to_it ↦ elim (Bool-cases (is_write r.typ)) [
          | inl w ↦ rw (handle, view_step, pre, open_to_it, w) (check_write r s a i w)
          | inr n ↦ rw (handle, view_step, pre, open_to_it, deferring, n) (check_other n)
        ]
      ]

-- Before the first request nothing is stored, leased or put off.
unfoldable pub empty_view : View
empty_view = record { contents = λ k. missing; holders = λ k. []; pending = λ k. [] }

pub initial-IsServer : IsServer initial empty_view
unfolding initial lookup empty_view
initial-IsServer = record {
  shows = λ k. tt;
  queues = λ k. tt;
  bans = λ k. refl;
  holders = λ k. refl;
  leased = λ k e. refl;
  held = λ k e. cc;
  writes = λ k. tt;
}

-- The steps of the view on a sequence of requests, and all answers.
unfoldable pub view_run : List Request → View → Viewed
view_run [] a = (a, [])
view_run (r ∷ rs) a = let (b, es) = view_step r a in let (c, fs) = view_run rs b in (c, es ++ fs)

-- A sequence of requests that the server takes as the view takes it.
abbrev pub Runs : List Request → State → View → Type 0
Runs rs s a =
    (s' : State) × (es : List Effect) × (run rs s ≡ some (s', es))
    × IsServer s' (view_run rs a).0
    × (answers es ≡ (view_run rs a).1)

pub run-Runs : (rs : List Request) (s : State) (a : View) → IsServer s a → Runs rs s a
unfolding run view_run answers
run-Runs [] s a i = (s, [], refl, i, refl)
run-Runs (r ∷ rs) s a i =
    let (s', es, ran, step) = handle-Steps r s a i in
    let (s'', fs, went, server, answered) = run-Runs rs s' (view_step r a).0 step.server in
    let ran' : run (r ∷ rs) s ≡ some (s'', es ++ fs) = rw (run, ran, went) refl in
    (
      s'',
      es ++ fs,
      ran',
      server,
      answers-append es fs
          ∙ ap (λ l. l ++ answers fs) step.answered
          ∙ ap (λ l. (view_step r a).1 ++ l) answered,
    )
