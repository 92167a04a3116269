-- ===== src/Store/Client.antt =====
-- contrib/libstore/libstore-impl.go: the client library of the storage servers, with the cache that its
-- leases allow. cacheHandler takes one request at a time, and a request is one step on its maps; the
-- clock is a parameter, in nanoseconds, and so are the calls of the servers.
pub mod Leasing
pub mod Queries
pub mod Revoked
use airline_booking.Prelude.{
  ℕ, ◌+◌, ◌-◌, ◌*◌, Bool, true, false, not, ◌&&◌, ◌||◌, Option, none, some, List, [], ◌∷◌, ltb, leb,
  if◌then◌else◌, ◌==◌, nat_eq, Text, text_eq,
}
use airline_booking.Prelude.Assoc.{Assoc, lookup, insert}
use airline_booking.Store.Routing.{Node, get_server}
use airline_booking.Store.Rpc.{Status, ok, GetArgs, GetReply, PutArgs}

-- What an entry holds.
pub data Cached : Type 0 where
  cached_text : Text → Cached
  cached_list : List Text → Cached

pub record CacheEntry : Type 0 where
  pub value : Cached
  pub revoked : Bool
  pub expiry_time : ℕ

-- The constants CREATE_CACHE to QUERY_COLLECT, with the fields of CacheReq that each uses.
pub data CacheRequest : Type 0 where
  create_cache : (time : ℕ) (key : Text) (value : Cached) → CacheRequest
  fetch_cache fetch_cache_list new_query : (key : Text) → CacheRequest
  garbage_collect query_collect : CacheRequest

-- What is sent on replyc.
pub data CacheReply : Type 0 where
  bool_reply : Bool → CacheReply
  value_reply : Cached → CacheReply
  nil_reply : CacheReply

-- Libstore, with the local map of cacheHandler. A connection is a number.
pub record Libstore : Type 0 where
  pub nodelist : List Node
  pub always_lease : Bool
  pub myhostport : Text
  pub cache_map : Assoc Text CacheEntry
  pub query_map : Assoc Text ℕ
  pub conn_map : Assoc ℕ ℕ

-- QUERY_CACHE_THRESH
abbrev pub query_cache_thresh : ℕ
query_cache_thresh = 3

-- Seconds in nanoseconds.
abbrev pub nanoseconds : ℕ → ℕ
nanoseconds t = t * 1000000000

-- The loop of GARBAGE_COLLECT.
unfoldable pub drop_stale : ℕ → Assoc Text CacheEntry → Assoc Text CacheEntry
drop_stale now [] = []
drop_stale now ((k, e) ∷ m) =
    let rest = drop_stale now m in
    if e.revoked || ltb e.expiry_time now then rest else (k, e) ∷ rest

-- The loop of QUERY_COLLECT.
unfoldable pub age_queries : Assoc Text ℕ → Assoc Text ℕ
age_queries [] = []
age_queries ((k, n) ∷ m) = let rest = age_queries m in if n == 1 then rest else (k, n - 1) ∷ rest

-- The entry of a key, marked if it has expired.
unfoldable pub mark_expired : ℕ → CacheEntry → CacheEntry
mark_expired now e =
    if not e.revoked && ltb e.expiry_time now then record e { revoked = true } else e

-- FETCH_CACHE and FETCH_CACHE_LIST, which differ in the values that count as a hit.
unfoldable pub fetch_with : (Cached → CacheReply) → ℕ → Text → Libstore → Libstore × CacheReply
fetch_with hit now key ls = elim (lookup key ls.cache_map) [
  | none ↦ (ls, nil_reply)
  | some entry ↦
      let e = mark_expired now entry in
      (
        record ls { cache_map = insert key e ls.cache_map },
        if e.revoked then nil_reply else hit e.value,
      )
]

unfoldable pub text_hit : Cached → CacheReply
text_hit (cached_text t) = value_reply (cached_text t)
text_hit (cached_list vs) = nil_reply

unfoldable pub list_hit : Cached → CacheReply
list_hit (cached_text t) = nil_reply
list_hit (cached_list vs) = value_reply (cached_list vs)

-- NEW_QUERY
unfoldable pub count_query : Text → Libstore → Libstore × CacheReply
count_query key ls =
    let n : ℕ = elim (lookup key ls.query_map) [ none ↦ 1 | some n ↦ n + 1 ] in
    (record ls { query_map = insert key n ls.query_map }, bool_reply (leb query_cache_thresh n))

-- One round of cacheHandler's loop.
unfoldable pub cache_handle : ℕ → CacheRequest → Libstore → Libstore × CacheReply
cache_handle now (create_cache time key value) ls = (
  record ls {
    cache_map =
        insert key (record { value = value; revoked = false; expiry_time = now + nanoseconds time })
          ls.cache_map;
  },
  bool_reply true,
)
cache_handle now (fetch_cache key) ls = fetch_with text_hit now key ls
cache_handle now (fetch_cache_list key) ls = fetch_with list_hit now key ls
cache_handle now (new_query key) ls = count_query key ls
cache_handle now garbage_collect ls =
    (record ls { cache_map = drop_stale now ls.cache_map }, bool_reply true)
cache_handle now query_collect ls =
    (record ls { query_map = age_queries ls.query_map }, bool_reply true)

-- RevokeLease, whose reply is always OK
unfoldable pub revoke_lease : Text → Libstore → Libstore
revoke_lease key ls = elim (lookup key ls.cache_map) [
  | none ↦ ls
  | some e ↦ record ls { cache_map = insert key (record e { revoked = true }) ls.cache_map }
]

-- The errors that a call returns.
pub data Error : Type 0 where
  dial_error call_error storage_error assertion_panic : Error

pub data Result (A : Type 0) : Type 0 where
  value : A → Result A
  error : Error → Result A

unfoldable pub is_ok : Status → Bool
is_ok ok = true
is_ok s = false

module _ {A : Type 0} (dial : Text → Option ℕ) (call : ℕ → GetArgs → Option (GetReply A))
    (fetch : Text → CacheRequest) (cast : Cached → Option A) (wrap : A → Cached) where
  -- The storage server is asked, and its answer is cached if it comes with a lease.
  unfoldable pub query_server : Text → Bool → (now : ℕ) → Libstore → Libstore × Result A
  query_server key wantlease now ls = elim (get_server dial key ls.nodelist ls.conn_map) [
    | none ↦ (ls, error dial_error)
    | some c ↦
        let ls' = record ls { conn_map = c.1 } in
        let args : GetArgs = record {
          key = key;
          want_lease = wantlease;
          lease_client = ls.myhostport;
        } in
        elim (call c.0 args) [
          | none ↦ (ls', error call_error)
          | some reply ↦
              if is_ok reply.status
              then (
                if wantlease && reply.granted
                    then (cache_handle now (create_cache reply.valid_seconds key (wrap reply.value))
                        ls').0
                    else ls',
                value reply.value,
              )
              else (ls', error storage_error)
        ]
  ]

  -- The cache is asked, at the time `now`; `later` is the time at which the server's answer is cached.
  unfoldable pub from_cache : Text → Bool → (now later : ℕ) → Libstore → Libstore × Result A
  from_cache key wantlease now later ls =
      let (ls', reply) = cache_handle now (fetch key) ls in
      elim reply [
        | value_reply v ↦ elim (cast v) [
          | none ↦ (ls', error assertion_panic)
          | some a ↦ (ls', value a)
        ]
        | bool_reply b ↦ (ls', error assertion_panic)
        | nil_reply ↦ query_server key wantlease later ls'
      ]

  -- iGet and iGetList
  unfoldable pub get_through : Text → (now later : ℕ) → Libstore → Libstore × Result A
  get_through key now later ls =
      if ls.myhostport == []
      then query_server key false later ls
      else if ls.always_lease
      then from_cache key true now later ls
      else (let (ls', reply) = cache_handle now (new_query key) ls in
          elim reply [
            | bool_reply b ↦ from_cache key b now later ls'
            | value_reply v ↦ (ls', error assertion_panic)
            | nil_reply ↦ (ls', error assertion_panic)
          ])

unfoldable pub text_of : Cached → Option Text
text_of (cached_text t) = some t
text_of (cached_list vs) = none

unfoldable pub list_of : Cached → Option (List Text)
list_of (cached_text t) = none
list_of (cached_list vs) = some vs

-- iGet
unfoldable pub i_get :
    (Text → Option ℕ)
    → (ℕ → GetArgs → Option (GetReply Text))
    → Text
    → (now later : ℕ) → Libstore
    → Libstore × Result Text
i_get dial call = get_through dial call fetch_cache text_of cached_text

-- iGetList
unfoldable pub i_get_list :
    (Text → Option ℕ)
    → (ℕ → GetArgs → Option (GetReply (List Text)))
    → Text
    → (now later : ℕ) → Libstore
    → Libstore × Result (List Text)
i_get_list dial call = get_through dial call fetch_cache_list list_of cached_list

-- iPut, iAppendToList and iRemoveFromList, with the method of the server that each calls
unfoldable pub i_write :
    (Text → Option ℕ)
    → (ℕ → PutArgs → Option Status)
    → Text
    → Text
    → Libstore
    → Libstore × Option Error
i_write dial call key v ls = elim (get_server dial key ls.nodelist ls.conn_map) [
  | none ↦ (ls, some dial_error)
  | some c ↦ (
    record ls { conn_map = c.1 },
    elim (call c.0 (record { key = key; value = v })) [
      | none ↦ some call_error
      | some status ↦ if is_ok status then none else some storage_error
    ],
  )
]
