-- ===== src/Store/Rpc/Stale.antt =====
-- A race in Get of contrib/storageimpl/storageimpl.go: the value is read by one request to appHandler
-- and the lease taken by another, and a Put may come in between.
use airline_booking.Prelude.{
  ℕ, ◌≡◌, refl, ap, subst, ◌∙◌, true, false, none, some, List, [], ◌∷◌, ◌++◌, ◌==◌, nat_eq, Text,
  text_eq,
}
use airline_booking.Prelude.Assoc.{lookup}
use airline_booking.Store.Routing.{Node, is_key_in_range}
use airline_booking.Store.Server.{
  put, get, Request, bool_reply, text_reply, Effect, answer, State, is_write,
}
use airline_booking.Store.Server.Content.{string, Shows, write_content}
use airline_booking.Store.Server.View.{
  View, set, set_here, view_step, view_other, view_write, view_grant, refuses, add_client, IsServer,
  read_content,
}
use airline_booking.Store.Server.Refinement.{view_run, run-Runs}
use airline_booking.Store.Rpc.{ok, key_not_found, GetArgs, as_text, is_nil, get_with, get_value}
use airline_booking.Store.Rpc.Reads.{ask_lem, lease_request}
use airline_booking.Store.Rpc.Reads.Statuses.{register_lease-run, present_run}

abbrev put_request : Text → Text → ℕ → Request
put_request k w c = record { typ = put; key = k; value = w; replyc = c }

-- The view after the Put of a key that nobody has a lease of.
put_view :
    (k v w : Text) (c : ℕ) (a : View)
    → a.contents k ≡ string v
    → (v == w) ≡ false
    → a.holders k ≡ []
    → (view_run (put_request k w c ∷ []) a).0 ≡ record a { contents = set k (string w) a.contents }
unfolding view_run view_step refuses view_write is_write write_content
put_view k v w c a e n free =
    let taken : refuses put w (a.contents k) ≡ none = ap (refuses put w) e ∙ rw n refl in
    rw (view_step, taken, view_write, free) refl

-- On a well-formed server that is responsible for a key which holds the string `v` and which nobody
-- has a lease of, a Put of another string `w` may come between the two requests of a Get that wants
-- a lease: then Get returns `v` with a lease that is granted, while the key holds `w`.
pub get_value-stale :
    (servers : List Node) (nodeid : ℕ) (args : GetArgs) (c d e : ℕ) (v w : Text) (s : State)
    (a : View)
    → IsServer s a
    → is_key_in_range args.key servers nodeid ≡ true
    → args.want_lease ≡ true
    → a.contents args.key ≡ string v
    → (v == w) ≡ false
    → a.holders args.key ≡ []
    → (s' : State) × (es : List Effect) × (get_value servers nodeid args c d
          (put_request args.key w e ∷ [])
          s
        ≡ some (s', es, record { status = ok; value = v; granted = true; valid_seconds = 10 }))
      × Shows (lookup args.key s'.cache) (string w)
unfolding get_value get_with as_text is_nil view_step view_other view_grant refuses read_content
    is_write
get_value-stale servers nodeid args c d e v w s a i here lease holds n free =
    let k = args.key in
    let queue = put_request k w e ∷ [] in
    let (s1, es1, asked1, i1) =
      ask_lem (record { typ = get; key = k; value = []; replyc = c }) s a a (text_reply v) i
        (ap (λ y. (a, answer c (read_content y) ∷ [])) holds) in
    let (s2, es2, ran, i2, same) = run-Runs queue s1 a i1 in
    let b : View = record a { contents = set k (string w) a.contents } in
    let i2' : IsServer s2 b = subst (IsServer s2) (put_view k v w e a holds n free) i2 in
    let idle : a.pending k ≡ [] = i.leased k free in
    let (s3, es3, asked3, i3) =
      ask_lem (lease_request args d) s2 b
        (record b { holders = set k (add_client args.lease_client (a.holders k)) a.holders })
        (bool_reply true) i2' (rw idle refl) in
    (
      s3,
      es1 ++ (es2 ++ es3),
      present_run servers nodeid args c d queue s a i here get as_text [] key_not_found s1 es1
            (text_reply v) v asked1 refl refl
          ∙ register_lease-run args d queue v s1 s2 s3 es1 es2 es3 true lease ran asked3,
      subst (Shows (lookup k s3.cache)) (set_here k (string w) a.contents) (i3.shows k),
    )
