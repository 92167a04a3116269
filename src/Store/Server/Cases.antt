-- ===== src/Store/Server/Cases.antt =====
-- The outcomes that a step of appHandler in contrib/storageimpl/storageimpl.go has for the view, and the
-- proof by cases on them.
use airline_booking.Prelude.{
  ◌≡◌, inl, inr, Bool, true, false, List, [], ◌∷◌, ◌++◌, if◌then◌else◌, nat_eq, Bool-cases,
  Option-cases, elem, Text, text_eq,
}
use airline_booking.Store.HashList.Sequence.{without}
use airline_booking.Store.Server.{
  put_lease, remove_lease, revoke_lease, Request, Reply, bool_reply, answer, is_write,
}
use airline_booking.Store.Server.Content.{write_content}
use airline_booking.Store.Server.View.{
  View, Viewed, set, refuses, write_all, view_write, view_grant, view_end, view_other, view_step,
  add_client, answers_only, is_empty, read_content, read_sequence,
}
use airline_booking.Store.Server.View.Parts.{all_types}

module _ (r : Request) (a : View) where
  -- A write that is done at once.
  abbrev pub written : Viewed
  written =
      let (c, b) = write_content r.typ r.value (a.contents r.key) in
      (record a { contents = set r.key c a.contents }, answer r.replyc (bool_reply b) ∷ [])

  -- A write that waits.
  abbrev pub waiting : Viewed
  waiting = (record a { pending = set r.key (a.pending r.key ++ r ∷ []) a.pending }, [])

  -- A lease that is granted.
  abbrev pub granted : Viewed
  granted =
      answers_only r (bool_reply true)
        (record a { holders = set r.key (add_client r.value (a.holders r.key)) a.holders })

  -- The clients that keep a lease.
  abbrev pub remaining : List Text
  remaining = without r.value (a.holders r.key)

  -- The end of a key's last lease.
  abbrev pub released : Viewed
  released =
      let (c, es) = write_all (a.pending r.key) (a.contents r.key) in
      (
        record {
          contents = set r.key c a.contents;
          holders = set r.key remaining a.holders;
          pending = set r.key [] a.pending;
        },
        es ++ answer r.replyc (bool_reply true) ∷ [],
      )

  -- The end of another lease.
  abbrev pub shortened : Viewed
  shortened =
      answers_only r (bool_reply true) (record a { holders = set r.key remaining a.holders })

-- What holds of every outcome.
pub record Outcomes (P : Viewed → Type 0) (r : Request) (a : View) : Type 0 where
  pub answered : (x : Reply) → P (answers_only r x a)
  pub wrote : is_write r.typ ≡ true → is_empty (a.holders r.key) ≡ true → P (written r a)
  pub waits : is_write r.typ ≡ true → is_empty (a.holders r.key) ≡ false → P (waiting r a)
  pub grants : is_empty (a.pending r.key) ≡ true → P (granted r a)
  pub releases : is_empty (remaining r a) ≡ true → P (released r a)
  pub shortens : is_empty (remaining r a) ≡ false → P (shortened r a)

module _ (P : Viewed → Type 0) (r : Request) (a : View) (o : Outcomes P r a) where
  write_cases : is_write r.typ ≡ true → P (view_write r a)
  unfolding view_write
  write_cases w = elim (Bool-cases (is_empty (a.holders r.key))) [
    | inl free ↦ rw (view_write, free) (o.wrote w free)
    | inr had ↦ rw (view_write, had) (o.waits w had)
  ]

  grant_cases : P (view_grant r a)
  unfolding view_grant
  grant_cases = elim (Bool-cases (is_empty (a.pending r.key))) [
    | inl free ↦ rw (view_grant, free) (o.grants free)
    | inr had ↦ rw (view_grant, had) (o.answered (bool_reply false))
  ]

  end_cases : P (view_end r a)
  unfolding view_end
  end_cases = elim (Bool-cases (is_empty (remaining r a))) [
    | inl gone ↦ rw (view_end, gone) (o.releases gone)
    | inr some_left ↦ rw (view_end, some_left) (o.shortens some_left)
  ]

  if_cases : (b : Bool) (v w : Viewed) → P v → P w → P (if b then v else w)
  if_cases true v w p q = p
  if_cases false v w p q = q

-- The requests that are no writes.
other_cases :
    (P : Viewed → Type 0) (r : Request) (a : View)
    → Outcomes P r a
    → is_write r.typ ≡ false
    → P (view_other r a)
unfolding view_other is_write
other_cases P r a =
    all_types
      (λ t.
        let q = record r { typ = t } in Outcomes P q a → is_write t ≡ false → P (view_other q a))
      r.typ (λ o n. cc) (λ o n. o.answered (read_content (a.contents r.key))) (λ o n. cc)
      (λ o n. o.answered (read_sequence (a.contents r.key))) (λ o n. cc)
      (λ o n. grant_cases P (record r { typ = put_lease }) a o)
      (λ o n.
        let q = record r { typ = remove_lease } in
        if_cases P q a o (is_empty (a.holders r.key)) _ _ (o.answered (bool_reply true))
          (end_cases P q a o))
      (λ o n.
        let q = record r { typ = revoke_lease } in
        if_cases P q a o (elem r.value (a.holders r.key)) _ _ (end_cases P q a o)
          (o.answered (bool_reply true)))

pub step_cases : (P : Viewed → Type 0) (r : Request) (a : View) → Outcomes P r a → P (view_step r a)
unfolding view_step
step_cases P r a o = elim (Option-cases (refuses r.typ r.value (a.contents r.key))) [
  | inr (x, refused) ↦ rw (view_step, refused) (o.answered x)
  | inl taken ↦ elim (Bool-cases (is_write r.typ)) [
    | inl w ↦ rw (view_step, taken, w) (write_cases P r a o w)
    | inr n ↦ rw (view_step, taken, n) (other_cases P r a o n)
  ]
]
