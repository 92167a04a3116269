-- ===== src/Store/Client/Revoked.antt =====
-- The cache of contrib/libstore/libstore-impl.go after RevokeLease: the revoked value never comes back.
use airline_booking.Prelude.{
  ℕ, ◌≡◌, refl, sym, ap, subst, ◌∙◌, inl, inr, true, false, ◌||◌, none, some, List, [], ◌∷◌, arith,
  ltb, if◌then◌else◌, ◌==◌, nat_eq, Bool-cases, Option-cases, beq_self, All, elem, Distinct, Text,
  text_eq,
}
use airline_booking.Prelude.Assoc.{Assoc, lookup, insert, keys, All-insert}
use airline_booking.Store.Client.{
  CacheRequest, create_cache, fetch_cache, fetch_cache_list, new_query, garbage_collect,
  query_collect, CacheReply, Libstore, fetch_with, text_hit, list_hit, count_query, cache_handle,
  CacheEntry, Cached, nil_reply, mark_expired, drop_stale, revoke_lease,
}
use airline_booking.Store.Client.Queries.{cache_run}
use airline_booking.Store.Client.Leasing.{entry_of}

-- An entry that is not a valid one of the key.
abbrev Dead : Text → Text × CacheEntry → Type 0
Dead key x = (x.0 == key) ≡ true → x.1.revoked ≡ true

IsDead : Text → Assoc Text CacheEntry → Type 0
IsDead key m = All (Dead key) m

-- Requests that cache no value of the key.
abbrev pub NoCreate : Text → ℕ × CacheRequest → Type 0
NoCreate key (now, create_cache time k v) = (k == key) ≡ false
NoCreate key (now, q) = Unit

other_keys : (key : Text) (m : Assoc Text CacheEntry) → elem key (keys m) ≡ false → All (Dead key) m
other_keys key [] out = tt
other_keys key ((k, e) ∷ m) out =
    ((λ same. absurd (ground (arith, out, same))), other_keys key m (ground (arith, out)))

absent_keys : (key : Text) (m : Assoc Text CacheEntry) → lookup key m ≡ none → All (Dead key) m
unfolding lookup
absent_keys key [] h = tt
absent_keys key ((k, e) ∷ m) h =
    ((λ same. absurd (ground (arith, h, same))), absent_keys key m (ground (arith, h)))

revoked_map :
    (key : Text) (e : CacheEntry) (m : Assoc Text CacheEntry)
    → e.revoked ≡ true
    → Distinct (keys m)
    → All (Dead key) (insert key e m)
unfolding insert
revoked_map key e [] r d = ((λ _. r), tt)
revoked_map key e ((k, f) ∷ m) r (out, d) = elim (Bool-cases (k == key)) [
  | inl same ↦ rw same (
    (λ _. r),
    other_keys key m (ap (λ j. elem j (keys m)) (sym ((text_eq.beq_iff k key).0 same)) ∙ out),
  )
  | inr other ↦ rw other ((λ same. absurd (ground (arith, other, same))), revoked_map key e m r d)
]

-- RevokeLease on a map with one entry for each key.
revoke_lease-IsDead :
    (key : Text) (ls : Libstore)
    → Distinct (keys ls.cache_map)
    → IsDead key (revoke_lease key ls).cache_map
unfolding IsDead revoke_lease
revoke_lease-IsDead key ls d = elim (Option-cases (lookup key ls.cache_map)) [
  | inl absent ↦ rw (revoke_lease, absent) (absent_keys key ls.cache_map absent)
  | inr (e, here) ↦
      rw (revoke_lease, here) (revoked_map key (record e { revoked = true }) ls.cache_map refl d)
]

lookup-IsDead :
    (key k : Text) (m : Assoc Text CacheEntry) (e : CacheEntry)
    → IsDead key m
    → lookup k m ≡ some e
    → (k == key) ≡ true
    → e.revoked ≡ true
unfolding lookup IsDead
lookup-IsDead key k [] e a h same = cc
lookup-IsDead key k ((j, f) ∷ m) e a h same = elim (Bool-cases (j == k)) [
  | inl here ↦
      let equal : f ≡ e = ground (arith, h, here) in
      subst (λ g. g.revoked ≡ true) equal
        (a.0 (ap (λ i. i == key) ((text_eq.beq_iff j k).0 here) ∙ same))
  | inr other ↦ lookup-IsDead key k m e a.1 (ground (arith, h, other)) same
]

mark_expired-revoked :
    (now : ℕ) (e : CacheEntry) → e.revoked ≡ true → (mark_expired now e).revoked ≡ true
unfolding mark_expired
mark_expired-revoked now e r = ground (arith, r)

fetch_with-IsDead :
    (hit : Cached → CacheReply) (now : ℕ) (key k : Text) (ls : Libstore)
    → IsDead key ls.cache_map
    → IsDead key (fetch_with hit now k ls).0.cache_map
unfolding fetch_with IsDead
fetch_with-IsDead hit now key k ls a = elim (Option-cases (lookup k ls.cache_map)) [
  | inl absent ↦ rw (fetch_with, absent) a
  | inr (e, here) ↦
      rw (fetch_with, here)
        (All-insert (Dead key) k (mark_expired now e) ls.cache_map
          (λ same. mark_expired-revoked now e (lookup-IsDead key k ls.cache_map e a here same)) a)
]

fetch_with-dead :
    (hit : Cached → CacheReply) (now : ℕ) (key : Text) (ls : Libstore)
    → IsDead key ls.cache_map
    → (fetch_with hit now key ls).1 ≡ nil_reply
unfolding fetch_with
fetch_with-dead hit now key ls a = elim (Option-cases (lookup key ls.cache_map)) [
  | inl absent ↦ rw (fetch_with, absent) refl
  | inr (e, here) ↦
      rw
        (
          fetch_with,
          here,
          mark_expired-revoked now e (lookup-IsDead key key ls.cache_map e a here (beq_self key)),
        )
        refl
]

drop_stale-IsDead :
    (now : ℕ) (key : Text) (m : Assoc Text CacheEntry)
    → IsDead key m
    → IsDead key (drop_stale now m)
unfolding drop_stale IsDead
drop_stale-IsDead now key [] a = tt
drop_stale-IsDead now key ((k, e) ∷ m) (d, a) =
    elim (e.revoked || ltb e.expiry_time now)
      as (λ b. All (Dead key) (if b then drop_stale now m else (k, e) ∷ drop_stale now m)) [
        | true ↦ drop_stale-IsDead now key m a
        | false ↦ (d, drop_stale-IsDead now key m a)
      ]

cache_handle-IsDead :
    (now : ℕ) (q : CacheRequest) (key : Text) (ls : Libstore)
    → NoCreate key (now, q)
    → IsDead key ls.cache_map
    → IsDead key (cache_handle now q ls).0.cache_map
unfolding cache_handle count_query IsDead
cache_handle-IsDead now (create_cache time k v) key ls n a =
    All-insert (Dead key) k (entry_of now time v) ls.cache_map
      (λ same. absurd (ground (arith, n, same))) a
cache_handle-IsDead now (fetch_cache k) key ls n a = fetch_with-IsDead text_hit now key k ls a
cache_handle-IsDead now (fetch_cache_list k) key ls n a = fetch_with-IsDead list_hit now key k ls a
cache_handle-IsDead now (new_query k) key ls n a = a
cache_handle-IsDead now garbage_collect key ls n a = drop_stale-IsDead now key ls.cache_map a
cache_handle-IsDead now query_collect key ls n a = a

cache_run-IsDead :
    (key : Text) (qs : List (ℕ × CacheRequest)) (ls : Libstore)
    → All (NoCreate key) qs
    → IsDead key ls.cache_map
    → IsDead key (cache_run qs ls).cache_map
unfolding cache_run
cache_run-IsDead key [] ls n a = a
cache_run-IsDead key ((now, q) ∷ qs) ls n a =
    cache_run-IsDead key qs (cache_handle now q ls).0 n.1 (cache_handle-IsDead now q key ls n.0 a)

-- A cache with one entry for each key: after RevokeLease of a key, and any requests of which none caches
-- a value of the key again, it has neither a string nor a list for the key, whatever the time is.
pub revoke_lease-cache_run :
    (key : Text) (qs : List (ℕ × CacheRequest)) (now : ℕ) (ls : Libstore)
    → Distinct (keys ls.cache_map)
    → All (NoCreate key) qs
    → let ls' = cache_run qs (revoke_lease key ls) in
      ((cache_handle now (fetch_cache key) ls').1 ≡ nil_reply)
      × ((cache_handle now (fetch_cache_list key) ls').1 ≡ nil_reply)
unfolding cache_handle
revoke_lease-cache_run key qs now ls d n =
    let dead = cache_run-IsDead key qs (revoke_lease key ls) n (revoke_lease-IsDead key ls d) in
    (
      fetch_with-dead text_hit now key (cache_run qs (revoke_lease key ls)) dead,
      fetch_with-dead list_hit now key (cache_run qs (revoke_lease key ls)) dead,
    )
