-- ===== src/Store/Server.antt =====
-- contrib/storageimpl/storageimpl.go, appHandler: the goroutine that owns the values and leases of a
-- storage server. It takes one request at a time, so a request is one step on its local maps. What
-- it sends and the goroutines it starts are the effects of the step, in their order. A panic is
-- `none`.
pub mod Content
pub mod View
pub mod Drain
pub mod Steps
pub mod Leases
pub mod Release
pub mod Endings
pub mod Refinement
pub mod Cases
pub mod Guard
pub mod Answers
pub mod Expiry
use airline_booking.Prelude.{
  ℕ, zero, suc, ◌+◌, Bool, true, false, Option, none, some, List, [], ◌∷◌, ◌++◌, map, if◌then◌else◌,
  ◌==◌, nat_eq, length, Text, text_eq,
}
use airline_booking.Prelude.Assoc.{Assoc, lookup, insert, delete}
use airline_booking.Store.HashList.{
  HashList, new_hash_list, insert_value, remove_value, exist, list_values,
}
use airline_booking.Store.Buffer.{Buf, new_buf, insert_last, remove_first, empty}

-- The constants PUT_VALUE to REVOKE_LEASE, of which typ is one.
pub data RequestType : Type 0 where
  put get append_list get_list remove_list put_lease remove_lease revoke_lease : RequestType

-- Request with its cacheReq. Every caller passes a string as the value. A reply channel is a number.
pub record Request : Type 0 where
  pub typ : RequestType
  pub key : Text
  pub value : Text
  pub replyc : ℕ

-- What cacheMap holds.
pub data Value : Type 0 where
  text_value : Text → Value
  list_value : HashList → Value

-- What is sent on a reply channel.
pub data Reply : Type 0 where
  bool_reply : Bool → Reply
  text_reply : Text → Reply
  list_reply : List Text → Reply
  nil_reply : Reply

pub data Effect : Type 0 where
  -- request.replyc <- reply
  answer : ℕ → Reply → Effect
  -- go ss.callCacheRPC(key, client)
  call_cache : (key client : Text) → Effect
  -- go ss.leaseTimer(key, client, duration, leaseTimerChan)
  start_timer : (key client : Text) (duration timer : ℕ) → Effect
  -- oldTimerChan <- true
  stop_timer : ℕ → Effect

pub record State : Type 0 where
  pub cache : Assoc Text Value
  -- leaseMap: per key the clients, each with the channel of its timer
  pub leases : Assoc Text (Assoc Text ℕ)
  -- defReqMap
  pub deferred : Assoc Text (Buf Request)
  -- banLeaseMap
  pub bans : Assoc Text ℕ
  -- the number of timer channels made so far
  pub channels : ℕ

unfoldable pub initial : State
initial = record { cache = []; leases = []; deferred = []; bans = []; channels = 0 }

abbrev pub Outcome : Type 0
Outcome = Option (State × List Effect)

infixl 5 ◌>>=◌
abbrev pub ◌>>=◌ : {A B : Type 0} → Option A → (A → Option B) → Option B
m >>= k = elim m [ none ↦ none | some a ↦ k a ]

abbrev pub reply_to : Request → Reply → State → Outcome
reply_to r x s = some (s, answer r.replyc x ∷ [])

abbrev pub store_at : Text → Value → State → State
store_at k v s = record s { cache = insert k v s.cache }

unfoldable pub is_write : RequestType → Bool
is_write put = true
is_write append_list = true
is_write remove_list = true
is_write typ = false

-- PUT_VALUE
unfoldable pub store_value : Request → State → Outcome
store_value r s = reply_to r (bool_reply true) (store_at r.key (text_value r.value) s)

-- A new list with one value.
unfoldable pub append_new : Request → State → Outcome
append_new r s = do
  hl ← insert_value r.value new_hash_list
  reply_to r (bool_reply true) (store_at r.key (list_value hl) s)

-- APPEND_LIST_VALUE, by what the key holds
unfoldable pub append_to : Option Value → Request → State → Outcome
append_to none r s = append_new r s
append_to (some (text_value t)) r s = append_new r s
append_to (some (list_value hl)) r s =
    if exist r.value hl then reply_to r (bool_reply false) s else (do
      hl' ← insert_value r.value hl
      reply_to r (bool_reply true) (store_at r.key (list_value hl') s))

-- REMOVE_LIST_VALUE, by what the key holds
unfoldable pub remove_from : Option Value → Request → State → Outcome
remove_from none r s = reply_to r (bool_reply false) s
remove_from (some (text_value t)) r s = reply_to r (bool_reply false) s
remove_from (some (list_value hl)) r s =
    if exist r.value hl
    then (do
      hl' ← remove_value r.value hl
      reply_to r (bool_reply true) (store_at r.key (list_value hl') s))
    else reply_to r (bool_reply false) s

-- GET_VALUE, by what the key holds; a map[string]string is never stored
unfoldable pub fetch : Option Value → Reply
fetch (some (text_value t)) = text_reply t
fetch v = nil_reply

-- GET_LIST_VALUE, by what the key holds
unfoldable pub fetch_list : Option Value → Option Reply
fetch_list none = some nil_reply
fetch_list (some (text_value t)) = some (list_reply [])
fetch_list (some (list_value hl)) = do vs ← list_values hl; some (list_reply vs)

-- The switch over the type of a deferred request; the first three cases of the main switch are the
-- same code.
unfoldable pub perform : Request → State → Outcome
perform r s = elim r.typ [
  | put ↦ store_value r s
  | append_list ↦ append_to (lookup r.key s.cache) r s
  | remove_list ↦ remove_from (lookup r.key s.cache) r s
  | _ ↦ some (s, [])
]

-- The loop that processes deferred requests, at most `fuel` of them.
unfoldable pub drain : (fuel : ℕ) → Buf Request → State → Option (Buf Request × State × List Effect)
drain zero b s = if empty b then some (b, s, []) else none
drain (suc fuel) b s = if empty b then some (b, s, []) else (do
  (front, b') ← remove_first b
  r ← front
  (s', es) ← perform r s
  (b'', s'', es') ← drain fuel b' s'
  some (b'', s'', es ++ es'))

-- What follows the end of a key's last lease.
unfoldable pub run_deferred : Text → State → Outcome
run_deferred k s = elim (lookup k s.deferred) [
  | none ↦ some (s, [])
  | some b ↦ do
    (b', s', es) ← drain b.allocated b (record s { bans = delete k s.bans })
    some (record s' { deferred = insert k b' s'.deferred }, es)
]

-- delete(leaseList, client) and what it entails; `clients` is the key's entry in leaseMap.
unfoldable pub end_lease : Request → Assoc Text ℕ → State → Outcome
end_lease r clients s =
    let rest = delete r.value clients in
    if length rest == 0
    then run_deferred r.key (record s { leases = delete r.key s.leases })
    else some (record s { leases = insert r.key rest s.leases }, [])

-- REVOKE_LEASE
unfoldable pub revoke : Request → State → Outcome
revoke r s = elim (lookup r.key s.leases) [
  | none ↦ reply_to r (bool_reply true) s
  | some clients ↦ elim (lookup r.value clients) [
    | none ↦ reply_to r (bool_reply true) s
    | some timer ↦ do
      (s', es) ← end_lease r clients s
      some (s', stop_timer timer ∷ es ++ answer r.replyc (bool_reply true) ∷ [])
  ]
]

-- REMOVE_LEASE
unfoldable pub expire : Request → State → Outcome
expire r s = elim (lookup r.key s.leases) [
  | none ↦ reply_to r (bool_reply true) s
  | some clients ↦ do
    (s', es) ← end_lease r clients s
    some (s', es ++ answer r.replyc (bool_reply true) ∷ [])
]

-- LEASE_SECONDS + LEASE_GUARD_SECONDS
abbrev pub lease_time : ℕ
lease_time = 12

abbrev pub clients_of : Option (Assoc Text ℕ) → Assoc Text ℕ
clients_of none = []
clients_of (some clients) = clients

abbrev pub stop_old : Option ℕ → List Effect
stop_old none = []
stop_old (some timer) = stop_timer timer ∷ []

-- PUT_LEASE
unfoldable pub grant : Request → State → Outcome
grant r s = elim (lookup r.key s.bans) [
  | some n ↦ reply_to r (bool_reply false) s
  | none ↦
      let clients = clients_of (lookup r.key s.leases) in
      some (
        record s {
          leases = insert r.key (insert r.value s.channels clients) s.leases;
          channels = s.channels + 1;
        },
        stop_old (lookup r.value clients)
            ++ start_timer r.key r.value lease_time s.channels
              ∷ answer r.replyc (bool_reply true)
              ∷ [],
      )
]

-- The pre-check: the reply to a request that would change nothing.
unfoldable pub pre_check : Option Value → Request → Option Reply
pre_check held r = elim r.typ [
  | put ↦ elim held [
    | some v ↦ elim v [
      | text_value t ↦ if t == r.value then some (bool_reply true) else none
      | list_value hl ↦ none
    ]
    | none ↦ none
  ]
  | append_list ↦ elim held [
    | some v ↦ elim v [
      | list_value hl ↦ if exist r.value hl then some (bool_reply false) else none
      | text_value t ↦ none
    ]
    | none ↦ none
  ]
  | remove_list ↦ elim held [
    | some v ↦ elim v [
      | list_value hl ↦ if exist r.value hl then none else some (bool_reply false)
      | text_value t ↦ some (bool_reply false)
    ]
    | none ↦ some (bool_reply false)
  ]
  | _ ↦ none
]

abbrev pub buffer_of : Option (Buf Request) → Buf Request
buffer_of none = new_buf
buffer_of (some b) = b

abbrev pub count_of : Option ℕ → ℕ
count_of none = 0
count_of (some n) = n

-- The deferral of a write to a leased key: its clients are asked to give their leases up.
unfoldable pub defer : Request → Assoc Text ℕ → State → Outcome
defer r clients s = do
  b ← insert_last r (buffer_of (lookup r.key s.deferred))
  some (
    record s {
      bans = insert r.key (count_of (lookup r.key s.bans) + 1) s.bans;
      deferred = insert r.key b s.deferred;
    },
    map (λ c. call_cache r.key c.0) clients,
  )

-- The lease list that defers a request.
unfoldable pub deferring : Request → State → Option (Assoc Text ℕ)
deferring r s = if is_write r.typ then lookup r.key s.leases else none

-- The main switch.
unfoldable pub process : Request → State → Outcome
process r s = elim r.typ [
  | put ↦ store_value r s
  | get ↦ reply_to r (fetch (lookup r.key s.cache)) s
  | append_list ↦ append_to (lookup r.key s.cache) r s
  | get_list ↦ do x ← fetch_list (lookup r.key s.cache); reply_to r x s
  | remove_list ↦ remove_from (lookup r.key s.cache) r s
  | put_lease ↦ grant r s
  | revoke_lease ↦ revoke r s
  | remove_lease ↦ expire r s
]

-- One round of the loop.
unfoldable pub handle : Request → State → Outcome
handle r s = elim (pre_check (lookup r.key s.cache) r) [
  | some x ↦ reply_to r x s
  | none ↦ elim (deferring r s) [ some clients ↦ defer r clients s | none ↦ process r s ]
]

-- The loop over the requests that arrive.
unfoldable pub run : List Request → State → Outcome
run [] s = some (s, [])
run (r ∷ rs) s = do (s', es) ← handle r s; (s'', es') ← run rs s'; some (s'', es ++ es')
