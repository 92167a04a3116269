-- ===== src/Store/Client/Leasing.antt =====
-- The cache of contrib/libstore/libstore-impl.go: what a lease saves, and when it ends.
pub mod Fresh
use airline_booking.Prelude.{
  ℕ, ◌+◌, ◌≤◌, ◌≡◌, refl, sym, ap, ◌∙◌, ◌≢◌, ◌↔◌, inl, inr, Bool, true, false, Option, none, some,
  [], arith, ltb, if◌then◌else◌, ◌==◌, nat_eq, Option-cases, beq_ne, Text, text_eq,
}
use airline_booking.Prelude.Assoc.{Assoc, lookup, insert, lookup-insert_here}
use airline_booking.Store.Routing.{get_server}
use airline_booking.Store.Rpc.{GetArgs, GetReply}
use airline_booking.Store.Client.{
  Cached, cached_text, CacheEntry, CacheRequest, fetch_cache, CacheReply, value_reply, nil_reply,
  Libstore, nanoseconds, mark_expired, fetch_with, text_hit, count_query, cache_handle, value,
  is_ok, query_server, from_cache, get_through, text_of, i_get, Result, cached_list, create_cache,
  revoke_lease,
}

-- The entry that a lease of `seconds` leaves at the time `now`.
abbrev pub entry_of : ℕ → ℕ → Cached → CacheEntry
entry_of now seconds v = record {
  value = v;
  revoked = false;
  expiry_time = now + nanoseconds seconds;
}

-- A key that is cached and neither revoked nor expired at the time `now`.
pub record IsFresh (ls : Libstore) (key : Text) (v : Cached) (now : ℕ) : Type 0 where
  pub entry : CacheEntry
  pub here : lookup key ls.cache_map ≡ some entry
  pub holds : entry.value ≡ v
  pub valid : entry.revoked ≡ false
  pub in_time : now ≤ entry.expiry_time

mark_expired-in_time :
    (now : ℕ) (e : CacheEntry) → e.revoked ≡ false → now ≤ e.expiry_time → mark_expired now e ≡ e
unfolding mark_expired
mark_expired-in_time now e v t = rw (v, late_lem) refl
  where
    late_lem : ltb e.expiry_time now ≡ false
    late_lem = ground arith

module _ (hit : Cached → CacheReply) (now : ℕ) (key : Text) where
  pub fetch_with-some :
      (ls : Libstore) (e : CacheEntry)
      → lookup key ls.cache_map ≡ some e
      → (fetch_with hit now key ls).1
        ≡ (if (mark_expired now e).revoked then nil_reply else hit (mark_expired now e).value)
  unfolding fetch_with
  fetch_with-some ls e here = rw (fetch_with, here) refl

  pub fetch_with-IsFresh :
      (v : Cached) (ls : Libstore) → IsFresh ls key v now → (fetch_with hit now key ls).1 ≡ hit v
  fetch_with-IsFresh v ls f =
      fetch_with-some ls f.entry f.here
      ∙ ap (λ e. if e.revoked then nil_reply else hit e.value)
          (mark_expired-in_time now f.entry f.valid f.in_time)
      ∙ rw f.valid (ap hit f.holds)

-- The reply to a request for a cached value goes to the caller as it is.
from_cache_hit :
    {A : Type 0} (dial : Text → Option ℕ) (call : ℕ → GetArgs → Option (GetReply A))
    (fetch : Text → CacheRequest) (cast : Cached → Option A) (wrap : A → Cached) (key : Text)
    (b : Bool) (now later : ℕ) (ls : Libstore) (v : Cached) (x : A)
    → (cache_handle now (fetch key) ls).1 ≡ value_reply v
    → cast v ≡ some x
    → (from_cache dial call fetch cast wrap key b now later ls).1 ≡ value x
unfolding from_cache
from_cache_hit dial call fetch cast wrap key b now later ls v x reply is =
    rw (from_cache, reply, is) refl

-- Counting a query leaves the cache alone.
counted-IsFresh :
    (key k : Text) (v : Cached) (now : ℕ) (ls : Libstore)
    → IsFresh ls key v now
    → IsFresh (count_query k ls).0 key v now
unfolding count_query
counted-IsFresh key k v now ls f = record {
  entry = f.entry;
  here = f.here;
  holds = f.holds;
  valid = f.valid;
  in_time = f.in_time;
}

either : {A : Type 0} (P : A → Type 0) (b : Bool) (x y : A) → P x → P y → P (if b then x else y)
either P true x y p q = p
either P false x y p q = q

skip_first :
    {A : Type 0} (P : A → Type 0) (b : Bool) (x y : A) → b ≡ false → P y → P (if b then x else y)
skip_first P true x y e p = cc
skip_first P false x y e p = p

module _ (dial : Text → Option ℕ) (call : ℕ → GetArgs → Option (GetReply Text)) (key : Text)
    (now later : ℕ) (ls : Libstore) where
  hit_lem :
      (t : Text) (b : Bool) (l : Libstore)
      → IsFresh l key (cached_text t) now
      → (from_cache dial call fetch_cache text_of cached_text key b now later l).1 ≡ value t
  unfolding cache_handle text_hit text_of
  hit_lem t b l f =
      from_cache_hit dial call fetch_cache text_of cached_text key b now later l (cached_text t) t
        (fetch_with-IsFresh text_hit now key (cached_text t) l f) refl

  -- The cache is asked in any case.
  get_through_cases :
      (P : Libstore × Result Text → Type 0)
      → (ls.myhostport == []) ≡ false
      → P (from_cache dial call fetch_cache text_of cached_text key true now later ls)
      → ((b : Bool)
          → P (
              from_cache dial call fetch_cache text_of cached_text key b now later
                (count_query key ls).0))
      → P (i_get dial call key now later ls)
  unfolding i_get get_through cache_handle count_query
  get_through_cases P host p q =
      skip_first P (ls.myhostport == []) _ _ host (either P ls.always_lease _ _ p (q _))

  -- While a string is cached, neither revoked nor expired, a client that has an address for the
  -- revocation of leases returns it from Get, whatever the servers would answer.
  pub i_get-IsFresh :
      (t : Text)
      → IsFresh ls key (cached_text t) now
      → ls.myhostport ≢ []
      → (i_get dial call key now later ls).1 ≡ value t
  unfolding i_get get_through cache_handle count_query
  i_get-IsFresh t f n =
      get_through_cases (λ r. r.1 ≡ value t) (beq_ne n) (hit_lem t true ls f)
        (λ b. hit_lem t b (count_query key ls).0 (counted-IsFresh key key (cached_text t) now ls f))

  -- A Get that asks a server and is granted a lease leaves the answer in the cache.
  module _ (c : ℕ × Assoc ℕ ℕ) (reply : GetReply Text) where
    abbrev asked : GetArgs
    asked = record { key = key; want_lease = true; lease_client = ls.myhostport }

    abbrev cached : Libstore
    cached = record ls {
      conn_map = c.1;
      cache_map =
          insert key (entry_of later reply.valid_seconds (cached_text reply.value)) ls.cache_map;
    }

    leased_get :
        lookup key ls.cache_map ≡ none
        → ls.myhostport ≢ []
        → ls.always_lease ≡ true
        → get_server dial key ls.nodelist ls.conn_map ≡ some c
        → call c.0 asked ≡ some reply
        → is_ok reply.status ≡ true
        → reply.granted ≡ true
        → i_get dial call key now later ls ≡ (cached, value reply.value)
    unfolding i_get get_through from_cache query_server cache_handle fetch_with
    leased_get absent n always found answered fine lease =
        simp
          (
            i_get,
            get_through,
            beq_ne n,
            always,
            from_cache,
            cache_handle,
            fetch_with,
            absent,
            query_server,
            found,
            answered,
            fine,
            lease,
          )
          refl

    cached-IsFresh :
        (t : ℕ)
        → t ≤ later + nanoseconds reply.valid_seconds
        → IsFresh cached key (cached_text reply.value) t
    cached-IsFresh t b = record {
      entry = entry_of later reply.valid_seconds (cached_text reply.value);
      here = lookup-insert_here key _ ls.cache_map;
      holds = refl;
      valid = refl;
      in_time = b;
    }

-- A client that always asks for leases and has not cached a key gets it from a server with a lease;
-- then until the lease runs out, and unless it is revoked, another Get returns the same string
-- whatever the servers would answer.
pub i_get_twice :
    (dial dial' : Text → Option ℕ) (call call' : ℕ → GetArgs → Option (GetReply Text)) (key : Text)
    (now later now' later' : ℕ) (ls : Libstore) (c : ℕ × Assoc ℕ ℕ) (reply : GetReply Text)
    → lookup key ls.cache_map ≡ none
    → ls.myhostport ≢ []
    → ls.always_lease ≡ true
    → get_server dial key ls.nodelist ls.conn_map ≡ some c
    → call c.0 (record { key = key; want_lease = true; lease_client = ls.myhostport }) ≡ some reply
    → is_ok reply.status ≡ true
    → reply.granted ≡ true
    → now' ≤ later + nanoseconds reply.valid_seconds
    → ((i_get dial call key now later ls).1 ≡ value reply.value)
      × ((i_get dial' call' key now' later' (i_get dial call key now later ls).0).1
          ≡ value reply.value)
i_get_twice dial dial' call call' key now later now' later' ls c reply absent n always found
      answered fine lease b =
    let first =
      leased_get dial call key now later ls c reply absent n always found answered fine lease in
    (
      ap (λ p. p.1) first,
      ap (λ p. (i_get dial' call' key now' later' p.0).1) first
          ∙ i_get-IsFresh dial' call' key now' later' (cached dial call key now later ls c reply)
              reply.value (cached-IsFresh dial call key now later ls c reply now' b) n,
    )
