-- ===== src/Store/Rpc/Reads/Statuses.antt =====
-- What Get and GetList of contrib/storageimpl/storageimpl.go return, by what their key holds.
use airline_booking.Prelude.{
  ℕ, ◌≡◌, refl, ap, ◌∙◌, inl, inr, Bool, true, false, Option, some, List, [], ◌∷◌, ◌++◌,
  if◌then◌else◌, nat_eq, Bool-cases, elem, Text, text_eq,
}
use airline_booking.Store.Server.{
  Request, Reply, bool_reply, Effect, answer, State, is_write, RequestType, get, get_list,
  text_reply, list_reply, nil_reply, run,
}
use airline_booking.Store.Server.View.{
  View, view_step, view_other, refuses, IsServer, read_content, read_sequence,
}
use airline_booking.Store.Server.Refinement.{view_run, run-Runs}
use airline_booking.Store.Server.Guard.{clients_at}
use airline_booking.Store.Rpc.{
  GetArgs, ask, register_lease, plain, as_bool, as_text, as_list, is_nil, get_with, get_value,
  get_list_value, ok, key_not_found, item_not_found, GetReply, Status, lease_seconds,
}
use airline_booking.Store.Routing.{Node, is_key_in_range}
use airline_booking.Store.Server.Content.{Content, missing, string, sequence}
use airline_booking.Store.Rpc.Reads.{ask_lem, lease_request, ask_lease}

-- What Get and GetList return, given what they read and whether they found it.
abbrev Returned : {A : Type 0} → GetArgs → Status → A → State → GetReply A → Type 0
Returned args status v s reply =
    (reply.status ≡ status)
    × (reply.value ≡ v)
    × (reply.granted ≡ true → elem args.lease_client (clients_at args.key s) ≡ true)

module _ {A : Type 0} (args : GetArgs) (d : ℕ) (between : List Request) where
  abbrev pub granted_if : Bool → A → GetReply A
  granted_if b v =
      if b
      then record { status = ok; value = v; granted = true; valid_seconds = lease_seconds }
      else plain ok v

  pub register_lease-run :
      (v : A) (s s' s'' : State) (es es' es'' : List Effect) (b : Bool)
      → args.want_lease ≡ true
      → run between s ≡ some (s', es')
      → ask (lease_request args d) s' ≡ some (s'', es'', bool_reply b)
      → register_lease args d between v s es ≡ some (s'', es ++ (es' ++ es''), granted_if b v)
  unfolding register_lease as_bool
  register_lease-run v s s' s'' es es' es'' b lease ran asked =
      rw (register_lease, lease, ran, asked) refl

  granted_if-Returned :
      (b : Bool) (s : State) (v : A)
      → (b ≡ true → elem args.lease_client (clients_at args.key s) ≡ true)
      → Returned args ok v s (granted_if b v)
  granted_if-Returned true s v h = (refl, refl, h)
  granted_if-Returned false s v h = (refl, refl, λ e. cc)

  register_lease_lem :
      (v : A) (s : State) (a : View) (es : List Effect)
      → IsServer s a
      → (s' : State) × (es' : List Effect) × (reply : GetReply A) × (register_lease args d between v
            s es
          ≡ some (s', es', reply))
        × Returned args ok v s' reply
  unfolding register_lease
  register_lease_lem v s a es i = elim (Bool-cases args.want_lease) [
    | inr no_lease ↦
        let ran : register_lease args d between v s es ≡ some (s, es, plain ok v) =
          rw (register_lease, no_lease) refl in
        (s, es, plain ok v, ran, (refl, refl, λ e. cc))
    | inl lease ↦
        let (s', es', ran, j, same) = run-Runs between s a i in
        let (s'', es'', b, asked, holds) = ask_lease args d s' (view_run between a).0 j in
        (
          s'',
          es ++ (es' ++ es''),
          granted_if b v,
          register_lease-run v s s' s'' es es' es'' b lease ran asked,
          granted_if-Returned b s'' v holds,
        )
  ]

-- The status and the value of Get and of GetList, by what the key holds.
unfoldable pub found_text : Content → Status × Text
found_text (string t) = (ok, t)
found_text c = (key_not_found, [])

unfoldable pub found_list : Content → Status × List Text
found_list missing = (item_not_found, [])
found_list (string t) = (ok, [])
found_list (sequence vs) = (ok, vs)

module _ (servers : List Node) (nodeid : ℕ) (args : GetArgs) (c d : ℕ) (between : List Request)
    (s : State) (a : View) (i : IsServer s a)
    (here : is_key_in_range args.key servers nodeid ≡ true) where
  abbrev Gets : {A : Type 0} → Status × A → Option (State × List Effect × GetReply A) → Type 0
  Gets {A} f o =
      (s' : State) × (es : List Effect) × (reply : GetReply A) × (o ≡ some (s', es, reply))
      × Returned args f.0 f.1 s' reply

  module _ {A : Type 0} (typ : RequestType) (cast : Reply → Option A) (zero_value : A)
      (absent : Status) where
    abbrev pub request : Request
    request = record { typ = typ; key = args.key; value = []; replyc = c }

    abbrev pub got : Option (State × List Effect × GetReply A)
    got = get_with typ cast zero_value absent servers nodeid args c d between s

    absent_run :
        (s' : State) (es : List Effect) (x : Reply)
        → ask request s ≡ some (s', es, x)
        → is_nil x ≡ true
        → got ≡ some (s', es, plain absent zero_value)
    unfolding get_with
    absent_run s' es x asked n = rw (get_with, here, asked, n) refl

    get_with_absent :
        (x : Reply)
        → view_step request a ≡ (a, answer c x ∷ [])
        → is_nil x ≡ true
        → Gets (absent, zero_value) got
    get_with_absent x e n =
        let (s', es, asked, j) = ask_lem request s a a x i e in
        (s', es, plain absent zero_value, absent_run s' es x asked n, (refl, refl, λ p. cc))

    pub present_run :
        (s' : State) (es : List Effect) (x : Reply) (v : A)
        → ask request s ≡ some (s', es, x)
        → is_nil x ≡ false
        → cast x ≡ some v
        → got ≡ register_lease args d between v s' es
    unfolding get_with
    present_run s' es x v asked n is = rw (get_with, here, asked, n, is) refl

    get_with_present :
        (x : Reply) (v : A)
        → view_step request a ≡ (a, answer c x ∷ [])
        → is_nil x ≡ false
        → cast x ≡ some v
        → Gets (ok, v) got
    get_with_present x v e n is =
        let (s', es, asked, j) = ask_lem request s a a x i e in
        let (s'', fs, reply, ran, returned) = register_lease_lem args d between v s' a es j in
        (s'', fs, reply, present_run s' es x v asked n is ∙ ran, returned)

  get_value_by :
      (x : Content)
      → a.contents args.key ≡ x
      → Gets (found_text x) (get_value servers nodeid args c d between s)
  unfolding get_value found_text read_content as_text is_nil view_step view_other refuses is_write
  get_value_by missing e =
      get_with_absent get as_text [] key_not_found nil_reply
        (ap (λ y. (a, answer c (read_content y) ∷ [])) e) refl
  get_value_by (string t) e =
      get_with_present get as_text [] key_not_found (text_reply t) t
        (ap (λ y. (a, answer c (read_content y) ∷ [])) e) refl refl
  get_value_by (sequence vs) e =
      get_with_absent get as_text [] key_not_found nil_reply
        (ap (λ y. (a, answer c (read_content y) ∷ [])) e) refl

  get_list_value_by :
      (x : Content)
      → a.contents args.key ≡ x
      → Gets (found_list x) (get_list_value servers nodeid args c d between s)
  unfolding get_list_value found_list read_sequence as_list is_nil view_step view_other refuses
      is_write
  get_list_value_by missing e =
      get_with_absent get_list as_list [] item_not_found nil_reply
        (ap (λ y. (a, answer c (read_sequence y) ∷ [])) e) refl
  get_list_value_by (string t) e =
      get_with_present get_list as_list [] item_not_found (list_reply []) []
        (ap (λ y. (a, answer c (read_sequence y) ∷ [])) e) refl refl
  get_list_value_by (sequence vs) e =
      get_with_present get_list as_list [] item_not_found (list_reply vs) vs
        (ap (λ y. (a, answer c (read_sequence y) ∷ [])) e) refl refl

  -- A well-formed server that is responsible for the key returns from Get, with the string that the
  -- key holds or with the status for none, whatever requests come before that for the lease; and a
  -- lease that it reports is one that the client then has.
  pub get_value-found_text :
      Gets (found_text (a.contents args.key)) (get_value servers nodeid args c d between s)
  get_value-found_text = get_value_by (a.contents args.key) refl

  -- The same of GetList and the values of a list, of which a string has none.
  pub get_list_value-found_list :
      Gets (found_list (a.contents args.key)) (get_list_value servers nodeid args c d between s)
  get_list_value-found_list = get_list_value_by (a.contents args.key) refl
