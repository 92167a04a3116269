-- ===== src/Store/Timers.antt =====
-- contrib/storageimpl/storageimpl.go: the goroutines that appHandler starts, leaseTimer for each lease
-- and callCacheRPC for each revocation, beside the handler. Channels have no buffer, so a send to a
-- timer that has left its select never ends, which is `none` as a panic is.
pub mod Matched
pub mod Quiet
pub mod Ends
pub mod Steps
pub mod Running
use airline_booking.Prelude.{
  ℕ, Bool, true, false, Option, none, some, List, [], ◌∷◌, if◌then◌else◌, nat_eq, Text, text_eq,
}
use airline_booking.Prelude.Assoc.{Assoc, lookup, insert, delete}
use airline_booking.Store.Server.{
  remove_lease, revoke_lease, Request, Effect, answer, call_cache, start_timer, stop_timer, State,
  ◌>>=◌, initial, handle,
}
use airline_booking.Store.Rpc.{Status, ok}

-- A leaseTimer that waits at a select: the inner one when its time is up.
pub record Timer : Type 0 where
  pub key : Text
  pub client : Text
  pub duration : ℕ
  pub due : Bool

-- The request of a timer whose time is up.
unfoldable pub expiry : Timer → (replyc : ℕ) → Request
expiry t c = record { typ = remove_lease; key = t.key; value = t.client; replyc = c }

-- What the effects of a step of the handler do to the timers.
unfoldable pub react : List Effect → Assoc ℕ Timer → Option (Assoc ℕ Timer)
react [] ts = some ts
react (answer c x ∷ es) ts = react es ts
react (call_cache k c ∷ es) ts = react es ts
react (start_timer k c d n ∷ es) ts =
    react es (insert n (record { key = k; client = c; duration = d; due = false }) ts)
react (stop_timer n ∷ es) ts = elim (lookup n ts) [ none ↦ none | some t ↦ react es (delete n ts) ]

-- The connection of callCacheRPC: that in connMap, or else what dialling gives; none is an error.
unfoldable pub connect : Text → (dialled : Option ℕ) → Assoc Text ℕ → Option ℕ × Assoc Text ℕ
connect client dialled conns = elim (lookup client conns) [
  | some cli ↦ (some cli, conns)
  | none ↦ elim dialled [ none ↦ (none, conns) | some cli ↦ (some cli, insert client cli conns) ]
]

-- What callCacheRPC sends to the handler after the reply of the client; an error is none.
unfoldable pub on_reply : (key client : Text) (replyc : ℕ) → Option Status → Option Request
on_reply key client c (some ok) =
    some (record { typ = revoke_lease; key = key; value = client; replyc = c })
on_reply key client c reply = none

-- callCacheRPC: the request that it sends, if any. The call on a connection is a parameter.
unfoldable pub call_cache_rpc :
    (call : ℕ → Text → Option Status) (key client : Text) (dialled : Option ℕ) (replyc : ℕ)
    → Assoc Text ℕ
    → Option Request × Assoc Text ℕ
call_cache_rpc call key client dialled c conns =
    let (connection, conns') = connect client dialled conns in
    elim connection [
      | none ↦ (none, conns')
      | some cli ↦ (on_reply key client c (call cli key), conns')
    ]

-- The handler with its goroutines; connMap is shared by the calls, under a lock.
pub record World : Type 0 where
  pub server : State
  pub timers : Assoc ℕ Timer
  pub conns : Assoc Text ℕ

unfoldable pub start : World
start = record { server = initial; timers = []; conns = [] }

-- What happens next: a request of an RPC arrives, a timer runs down, the handler takes the request of
-- a timer, or a call of callCacheRPC runs, with what dialling and the client answer it.
pub data Event : Type 0 where
  arrives : Request → Event
  elapses : ℕ → Event
  submits : (timer replyc : ℕ) → Event
  returns :
      (call : ℕ → Text → Option Status) (key client : Text) (dialled : Option ℕ) (replyc : ℕ)
      → Event

-- The handler takes a request.
unfoldable pub receive : Request → World → Option World
receive r w = do
  (s, es) ← handle r w.server
  ts ← react es w.timers
  some (record w { server = s; timers = ts })

unfoldable pub world_step : Event → World → Option World
world_step (arrives r) w = receive r w
world_step (elapses n) w = elim (lookup n w.timers) [
  | none ↦ some w
  | some t ↦ some (record w { timers = insert n (record t { due = true }) w.timers })
]
world_step (submits n c) w = elim (lookup n w.timers) [
  | none ↦ some w
  | some t ↦
      if t.due then receive (expiry t c) (record w { timers = delete n w.timers }) else some w
]
world_step (returns call key client dialled c) w =
    let (sent, conns) = call_cache_rpc call key client dialled c w.conns in
    elim sent [
      | none ↦ some (record w { conns = conns })
      | some r ↦ receive r (record w { conns = conns })
    ]

unfoldable pub world_run : List Event → World → Option World
world_run [] w = some w
world_run (e ∷ es) w = do w' ← world_step e w; world_run es w'
