-- ===== src/Store/Rpc.antt =====
-- The methods of a storage server that clients call, contrib/storageimpl/storageimpl.go, over the
-- requests that its appHandler takes. A method that makes two requests lets others come in between;
-- they are a parameter, as are those that arrive while a deferred write waits.
pub mod Reads
pub mod Stale
use airline_booking.Prelude.{
  ℕ, Bool, true, false, Option, none, some, List, [], ◌∷◌, ◌++◌, if◌then◌else◌, ◌==◌, nat_eq, Text,
  text_eq,
}
use airline_booking.Store.Routing.{Node, is_key_in_range}
use airline_booking.Store.Server.{
  RequestType, put, get, append_list, get_list, remove_list, put_lease, Request, Reply, bool_reply,
  text_reply, list_reply, nil_reply, Effect, answer, State, ◌>>=◌, handle, run,
}

-- The status codes of official/storageproto/storageproto.go.
pub data Status : Type 0 where
  ok key_not_found item_not_found wrong_server put_failed item_exists : Status

-- GetArgs
pub record GetArgs : Type 0 where
  pub key : Text
  pub want_lease : Bool
  pub lease_client : Text

-- GetReply and GetListReply with their LeaseStruct
pub record GetReply (A : Type 0) : Type 0 where
  pub status : Status
  pub value : A
  pub granted : Bool
  pub valid_seconds : ℕ

-- PutArgs
pub record PutArgs : Type 0 where
  pub key : Text
  pub value : Text

-- LEASE_SECONDS
abbrev pub lease_seconds : ℕ
lease_seconds = 10

-- value := <- replyc
unfoldable pub answer_on : ℕ → List Effect → Option Reply
answer_on c [] = none
answer_on c (answer d x ∷ es) = if d == c then some x else answer_on c es
answer_on c (e ∷ es) = answer_on c es

-- The type assertions on what an interface value holds; a wrong one is a panic.
unfoldable pub as_bool : Reply → Option Bool
as_bool (bool_reply b) = some b
as_bool x = none

unfoldable pub as_text : Reply → Option Text
as_text (text_reply t) = some t
as_text x = none

unfoldable pub as_list : Reply → Option (List Text)
as_list (list_reply vs) = some vs
as_list x = none

unfoldable pub is_nil : Reply → Bool
is_nil nil_reply = true
is_nil x = false

-- A request that is answered in its own step, and the answer.
unfoldable pub ask : Request → State → Option (State × List Effect × Reply)
ask r s = do (s', es) ← handle r s; x ← answer_on r.replyc es; some (s', es, x)

module _ {A : Type 0} where
  -- A reply without a lease.
  abbrev pub plain : Status → A → GetReply A
  plain status v = record { status = status; value = v; granted = false; valid_seconds = 0 }

  -- The second half of Get and of GetList: the request for the lease, after `between`. `c` is its
  -- reply channel.
  unfoldable pub register_lease :
      GetArgs
      → (c : ℕ) (between : List Request) → A
      → State
      → List Effect
      → Option (State × List Effect × GetReply A)
  register_lease args c between v s es =
      if args.want_lease
      then (do
        (s', es') ← run between s
        (s'', es'', x) ←
            ask (record { typ = put_lease; key = args.key; value = args.lease_client; replyc = c })
              s'
        b ← as_bool x
        some (
          s'',
          es ++ (es' ++ es''),
          if b
              then record { status = ok; value = v; granted = true; valid_seconds = lease_seconds }
              else plain ok v,
        ))
      else some (s, es, plain ok v)

  -- Get and GetList; `typ` is the request for the value, `cast` the assertion on it, `zero_value` the
  -- value of a new reply and `absent` the status where nothing is found.
  unfoldable pub get_with :
      RequestType
      → (Reply → Option A)
      → A
      → Status
      → List Node
      → ℕ
      → GetArgs
      → (c d : ℕ) → List Request
      → State
      → Option (State × List Effect × GetReply A)
  get_with typ cast zero_value absent servers nodeid args c d between s =
      if is_key_in_range args.key servers nodeid
      then (do
        (s', es, x) ← ask (record { typ = typ; key = args.key; value = []; replyc = c }) s
        if is_nil x
            then some (s', es, plain absent zero_value)
            else (do v ← cast x; register_lease args d between v s' es))
      else some (s, [], plain wrong_server zero_value)

-- Get
unfoldable pub get_value :
    List Node
    → ℕ
    → GetArgs
    → (c d : ℕ) → List Request
    → State
    → Option (State × List Effect × GetReply Text)
get_value = get_with get as_text [] key_not_found

-- GetList
unfoldable pub get_list_value :
    List Node
    → ℕ
    → GetArgs
    → (c d : ℕ) → List Request
    → State
    → Option (State × List Effect × GetReply (List Text))
get_list_value = get_with get_list as_list [] item_not_found

-- Put, AppendToList and RemoveFromList: the request is sent, others follow, and the status is known
-- once the answer has come; none while it has not.
unfoldable pub write_with :
    RequestType
    → Status
    → PutArgs
    → (c : ℕ) → List Request
    → State
    → Option (State × List Effect × Option Status)
write_with typ refused args c later s = do
  (s', es) ← run (record { typ = typ; key = args.key; value = args.value; replyc = c } ∷ later) s
  elim (answer_on c es) [
    | none ↦ some (s', es, none)
    | some x ↦ do b ← as_bool x; some (s', es, some (if b then ok else refused))
  ]

-- Put waits for the answer and does not look at it.
unfoldable pub put_value :
    PutArgs → (c : ℕ) → List Request → State → Option (State × List Effect × Option Status)
put_value args c later s = do
  (s', es) ← run (record { typ = put; key = args.key; value = args.value; replyc = c } ∷ later) s
  some (s', es, elim (answer_on c es) [ none ↦ none | some x ↦ some ok ])

-- AppendToList
unfoldable pub append_to_list :
    PutArgs → (c : ℕ) → List Request → State → Option (State × List Effect × Option Status)
append_to_list = write_with append_list item_exists

-- RemoveFromList
unfoldable pub remove_from_list :
    PutArgs → (c : ℕ) → List Request → State → Option (State × List Effect × Option Status)
remove_from_list = write_with remove_list item_not_found
