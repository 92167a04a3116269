-- ===== src/Store/Rpc/Reads.antt =====
-- Get and GetList of contrib/storageimpl/storageimpl.go: what they return, and what the lease that they
-- return is worth.
pub mod Statuses
use airline_booking.Prelude.{
  ℕ, ◌≡◌, refl, sym, ap, subst, ◌∙◌, inl, inr, Bool, true, false, Option, some, List, [], ◌∷◌, ◌++◌,
  arith, if◌then◌else◌, ◌==◌, nat_eq, Bool-cases, beq_self, elem, Text, text_eq,
}
use airline_booking.Store.Server.{
  put_lease, Request, Reply, bool_reply, Effect, answer, call_cache, start_timer, stop_timer, State,
  is_write, RequestType, get, get_list, text_reply, list_reply, nil_reply, run,
}
use airline_booking.Store.Server.View.{
  View, set_here, view_step, view_other, view_grant, refuses, add_client, is_empty, IsServer,
  read_content, read_sequence, set,
}
use airline_booking.Store.Server.View.Parts.{answers}
use airline_booking.Store.Server.Refinement.{handle-Steps, view_run, run-Runs}
use airline_booking.Store.Server.Guard.{clients_at}
use airline_booking.Store.Rpc.{
  GetArgs, answer_on, ask, register_lease, plain, as_bool, as_text, as_list, is_nil, get_with,
  get_value, get_list_value, ok, key_not_found, item_not_found, GetReply, Status, lease_seconds,
}
use airline_booking.Store.Routing.{Node, is_key_in_range}
use airline_booking.Store.Server.Content.{Content, missing, string, sequence}

answer_on-answers : (c : ℕ) (es : List Effect) → answer_on c (answers es) ≡ answer_on c es
unfolding answer_on answers
answer_on-answers c [] = refl
answer_on-answers c (answer d x ∷ es) =
    ap (λ o. if d == c then some x else o) (answer_on-answers c es)
answer_on-answers c (call_cache k d ∷ es) = answer_on-answers c es
answer_on-answers c (start_timer k d t n ∷ es) = answer_on-answers c es
answer_on-answers c (stop_timer n ∷ es) = answer_on-answers c es

-- A request that the view answers at once.
pub ask_lem :
    (r : Request) (s : State) (a b : View) (x : Reply)
    → IsServer s a
    → view_step r a ≡ (b, answer r.replyc x ∷ [])
    → (s' : State) × (es : List Effect) × (ask r s ≡ some (s', es, x)) × IsServer s' b
unfolding ask answer_on
ask_lem r s a b x i e =
    let (s', es, ran, step) = handle-Steps r s a i in
    let found : answer_on r.replyc es ≡ some x =
      sym (answer_on-answers r.replyc es)
      ∙ ap (answer_on r.replyc) (step.answered ∙ ap (λ w. w.1) e)
      ∙ ground (arith, beq_self r.replyc) in
    let ran' : ask r s ≡ some (s', es, x) = rw (ask, ran, found) refl in
    (s', es, ran', subst (IsServer s') (ap (λ w. w.0) e) step.server)

pub elem-add_client : (c : Text) (hs : List Text) → elem c (add_client c hs) ≡ true
elem-add_client c hs = elim (Bool-cases (elem c hs)) [ inl e ↦ rw e e | inr n ↦ rw n (last c hs) ]
  where
    last : (d : Text) (ds : List Text) → elem d (ds ++ d ∷ []) ≡ true
    last d [] = ground (arith, beq_self d)
    last d (h ∷ ds) = ground (arith, last d ds)

abbrev pub lease_request : GetArgs → ℕ → Request
lease_request args c = record {
  typ = put_lease;
  key = args.key;
  value = args.lease_client;
  replyc = c;
}

-- A request for a lease says whether there is now one.
pub ask_lease :
    (args : GetArgs) (c : ℕ) (s : State) (a : View)
    → IsServer s a
    → (s' : State) × (es : List Effect) × (b : Bool) × (ask (lease_request args c) s
        ≡ some (s', es, bool_reply b))
      × (b ≡ true → elem args.lease_client (clients_at args.key s') ≡ true)
unfolding view_step view_other view_grant refuses is_write
ask_lease args c s a i = elim (Bool-cases (is_empty (a.pending args.key))) [
  | inl free ↦
      let (s', es, ran, j) =
        ask_lem (lease_request args c) s a
          (record a {
            holders = set args.key (add_client args.lease_client (a.holders args.key)) a.holders;
          })
          (bool_reply true) i (rw free refl) in
      (
        s',
        es,
        true,
        ran,
        λ _.
            ap (elem args.lease_client) (j.holders args.key ∙ set_here args.key _ a.holders)
            ∙ elem-add_client args.lease_client (a.holders args.key),
      )
  | inr busy ↦
      let (s', es, ran, j) =
        ask_lem (lease_request args c) s a a (bool_reply false) i (rw busy refl) in
      (s', es, false, ran, λ e. cc)
]
