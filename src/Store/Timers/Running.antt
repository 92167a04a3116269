-- ===== src/Store/Timers/Running.antt =====
-- The handler, timers and revocations of contrib/storageimpl/storageimpl.go together: they neither
-- block nor panic, every lease has its timer, and so every write that waits has a timer that will let
-- it through.
use airline_booking.Prelude.{
  ℕ, ◌≡◌, refl, sym, subst, ◌∙◌, ◌≢◌, ◌↔◌, inl, inr, true, false, Option, none, some, List, [], ◌∷◌,
  arith, if◌then◌else◌, nat_eq, Bool-cases, Option-cases, All, Text, text_eq,
}
use airline_booking.Prelude.Assoc.{Assoc, lookup, insert, delete, keys}
use airline_booking.Store.Server.{remove_lease, Request, handle, initial, clients_of}
use airline_booking.Store.Server.View.{View, IsServer, view_step, Queued}
use airline_booking.Store.Server.Refinement.{handle-Steps, initial-IsServer, empty_view}
use airline_booking.Store.Rpc.{Status, ok}
use airline_booking.Store.Timers.{
  on_reply, Timer, World, Event, arrives, elapses, submits, returns, receive, world_step, world_run,
  start, expiry, call_cache_rpc, on_reply, connect,
}
use airline_booking.Store.Timers.Matched.{
  owner, IsMatched, set_lease, IsMatched-due, IsMatched-delete,
}
use airline_booking.Store.Timers.Quiet.{lease}
use airline_booking.Store.Timers.Ends.{Timely, expire-Timely}
use airline_booking.Store.Timers.Steps.{handle-Timely, handle-expiry}
use airline_booking.Store.Buffer.{Buf, empty}
use airline_booking.Store.Buffer.Fifo.{Holds, empty-Holds}

-- Timers are the only ones to send REMOVE_LEASE.
abbrev pub IsSent : Event → Type 0
IsSent (arrives r) = r.typ ≢ remove_lease
IsSent e = Unit

-- The maps stand for a view, and the timers go with the leases.
record IsWorld (w : World) : Type 0 where
  view : View
  server : IsServer w.server view
  matched : IsMatched (lease w.server) w.timers w.server.channels

abbrev Next : Option World → Type 0
Next o = (w' : World) × (o ≡ some w') × IsWorld w'

receive-IsWorld :
    (r : Request) (w : World) (a : View)
    → IsServer w.server a
    → Timely w.timers (handle r w.server)
    → Next (receive r w)
unfolding receive Timely
receive-IsWorld r w a i t =
    let (s, es, ran, step) = handle-Steps r w.server a i in
    let (ts, reacted, m) = subst (Timely w.timers) ran t in
    let w' : World = record w { server = s; timers = ts } in
    let ran' : receive r w ≡ some w' = rw (receive, ran, reacted) refl in
    (w', ran', record { view = (view_step r a).0; server = step.server; matched = m })

abbrev NoExpiry : Option Request → Type 0
NoExpiry none = Unit
NoExpiry (some r) = r.typ ≢ remove_lease

on_reply-NoExpiry :
    (key client : Text) (c : ℕ) (reply : Option Status) → NoExpiry (on_reply key client c reply)
unfolding on_reply
on_reply-NoExpiry key client c none = tt
on_reply-NoExpiry key client c (some status) =
    elim status as (λ x. NoExpiry (on_reply key client c (some x))) [ ok ↦ λ e. cc | _ ↦ tt ]

call_cache_rpc-NoExpiry :
    (call : ℕ → Text → Option Status) (key client : Text) (dialled : Option ℕ) (c : ℕ)
    (conns : Assoc Text ℕ)
    → NoExpiry (call_cache_rpc call key client dialled c conns).0
unfolding call_cache_rpc
call_cache_rpc-NoExpiry call key client dialled c conns =
    elim (Option-cases (connect client dialled conns).0) [
      | inl failed ↦ rw (call_cache_rpc, failed) tt
      | inr (cli, got) ↦ rw (call_cache_rpc, got) (on_reply-NoExpiry key client c (call cli key))
    ]

-- The handler takes what a call sends, if it sends anything.
returned :
    (o : Option Request) (w : World)
    → NoExpiry o
    → IsWorld w
    → Next (elim o [ none ↦ some w | some r ↦ receive r w ])
returned none w n i = (w, refl, i)
returned (some r) w n i =
    receive-IsWorld r w i.view i.server (handle-Timely r w.server w.timers i.matched n)

-- The leases without that of a timer whose time is up.
ended :
    (n c : ℕ) (t : Timer) (w : World)
    → IsWorld w
    → lookup n w.timers ≡ some t
    → IsMatched
        (set_lease (expiry t c).key (expiry t c).value none (lease w.server))
        (delete n w.timers)
        w.server.channels
unfolding expiry owner
ended n c t w i found =
    let mine : owner n w.timers ≡ some (t.key, t.client) = rw (owner, found) refl in
    IsMatched-delete (lease w.server) w.timers w.server.channels t.key t.client n
      (i.matched.leased t.key t.client n mine) i.matched

world_step-IsWorld : (e : Event) (w : World) → IsSent e → IsWorld w → Next (world_step e w)
unfolding world_step
world_step-IsWorld (arrives r) w sent i =
    receive-IsWorld r w i.view i.server (handle-Timely r w.server w.timers i.matched sent)
world_step-IsWorld (elapses n) w sent i = elim (Option-cases (lookup n w.timers)) [
  | inl absent ↦ rw (world_step, absent) (w, refl, i)
  | inr (t, found) ↦
      rw (world_step, found)
        (
          record w { timers = insert n (record t { due = true }) w.timers },
          refl,
          record {
            view = i.view;
            server = i.server;
            matched = IsMatched-due (lease w.server) w.timers w.server.channels n t found i.matched;
          },
        )
]
world_step-IsWorld (submits n c) w sent i = elim (Option-cases (lookup n w.timers)) [
  | inl absent ↦ rw (world_step, absent) (w, refl, i)
  | inr (t, found) ↦ elim (Bool-cases t.due) [
    | inr early ↦
        rw (world_step, found)
          (subst (λ b. Next (if b then taken t else some w)) (sym early) (w, refl, i))
    | inl due ↦
        rw (world_step, found)
          (subst (λ b. Next (if b then taken t else some w)) (sym due)
            (receive-IsWorld (expiry t c) (record w { timers = delete n w.timers }) i.view i.server
              (subst (Timely (delete n w.timers)) (sym (handle-expiry t c w.server))
                (expire-Timely (expiry t c) w.server (delete n w.timers) (ended n c t w i found)))))
  ]
]
  where
    taken : Timer → Option World
    taken t = receive (expiry t c) (record w { timers = delete n w.timers })
world_step-IsWorld (returns call key client dialled c) w sent i =
    let (o, conns) = call_cache_rpc call key client dialled c w.conns in
    returned o (record w { conns = conns })
      (call_cache_rpc-NoExpiry call key client dialled c w.conns)
      (record { view = i.view; server = i.server; matched = i.matched })

world_run-IsWorld :
    (es : List Event) (w : World) → All IsSent es → IsWorld w → Next (world_run es w)
unfolding world_run
world_run-IsWorld [] w sent i = (w, refl, i)
world_run-IsWorld (e ∷ es) w (sent, rest) i =
    let (w', ran, j) = world_step-IsWorld e w sent i in
    let (w'', went, k) = world_run-IsWorld es w' rest j in
    let ran' : world_run (e ∷ es) w ≡ some w'' = rw (world_run, ran) went in (w'', ran', k)

start-IsWorld : IsWorld start
unfolding start initial lookup lease owner
start-IsWorld = record {
  view = empty_view;
  server = initial-IsServer;
  matched = record {
    timed = λ k c n e. cc;
    leased = λ k c n e. cc;
    known = λ k c n e. ground arith;
  };
}

-- Each lease has a timer of its own, each timer that runs has its lease, and a key for which a write
-- waits has such a timer.
pub record IsTimed (w : World) : Type 0 where
  pub leased :
      (k c : Text) (n : ℕ) → (lease w.server k c ≡ some n) ↔ (owner n w.timers ≡ some (k, c))
  pub waiting :
      (k : Text) (b : Buf Request)
      → lookup k w.server.deferred ≡ some b
      → empty b ≡ false
      → (c : Text) × (n : ℕ) × (owner n w.timers ≡ some (k, c))

-- A map with a key has its first entry.
first_entry : (m : Assoc Text ℕ) → keys m ≢ [] → (c : Text) × (n : ℕ) × (lookup c m ≡ some n)
unfolding lookup
first_entry [] e = absurd (e refl)
first_entry ((c, n) ∷ m) e = (c, n, ground (arith, text_eq.beq_iff c c))

IsWorld-IsTimed : (w : World) → IsWorld w → IsTimed w
unfolding lease
IsWorld-IsTimed w i = record {
  leased = λ k c n. (i.matched.timed k c n, i.matched.leased k c n);
  waiting = λ k b found full.
      let holds : Holds b (i.view.pending k) =
        subst (λ o. Queued o (i.view.pending k)) found (i.server.queues k) in
      let some_lease : keys (clients_of (lookup k w.server.leases)) ≢ [] = λ e.
        busy b (i.view.pending k) holds full (i.server.leased k (sym (i.server.holders k) ∙ e)) in
      let (c, n, held) = first_entry (clients_of (lookup k w.server.leases)) some_lease in
      (c, n, i.matched.timed k c n held);
}
  where
    busy : (b : Buf Request) (rs : List Request) → Holds b rs → empty b ≡ false → rs ≢ []
    busy b [] h full e = absurd (ground (arith, empty-Holds b [] h))
    busy b (r ∷ rs) h full e = cc

-- On a new server, let RPC requests arrive, timers run down and be taken by the handler, and
-- revocations return, in any order, with no RPC request of the type REMOVE_LEASE. Then the handler
-- neither panics nor blocks on the channel of a timer; after it a lease of a key by a client has a
-- timer exactly while the timer runs for that key and client, and for a key with a write in its buffer
-- at least one timer runs.
pub world_run-IsTimed :
    (es : List Event) → All IsSent es → (w : World) × (world_run es start ≡ some w) × IsTimed w
world_run-IsTimed es sent =
    let (w, ran, i) = world_run-IsWorld es start sent start-IsWorld in (w, ran, IsWorld-IsTimed w i)
