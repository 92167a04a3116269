-- ===== src/Store/Client/Queries.antt =====
-- When the client library contrib/libstore/libstore-impl.go asks for a lease: after three queries of a
-- key that QUERY_COLLECT has not aged away.
use airline_booking.Prelude.{
  ℕ, ◌+◌, ◌-◌, ◌≤◌, ◌≡◌, refl, sym, ap, subst, inl, inr, Bool, true, false, Option, none, some,
  List, [], ◌∷◌, arith, leb, if◌then◌else◌, ◌==◌, nat_eq, Option-cases, elem, Distinct, Text,
  text_eq,
}
use airline_booking.Prelude.Assoc.{
  Assoc, lookup, insert, lookup-insert, keys, keys-insert-Distinct, lookup-not_key,
}
use airline_booking.Store.Client.{
  CacheRequest, create_cache, fetch_cache, fetch_cache_list, new_query, garbage_collect,
  query_collect, CacheReply, bool_reply, Libstore, age_queries, fetch_with, text_hit, list_hit,
  count_query, cache_handle, CacheEntry, Cached, nil_reply, mark_expired,
}

-- How many queries of a key the map counts.
unfoldable pub count_of : Option ℕ → ℕ
count_of none = 0
count_of (some n) = n

-- The requests that cacheHandler takes, each with the time at which it does.
unfoldable pub cache_run : List (ℕ × CacheRequest) → Libstore → Libstore
cache_run [] ls = ls
cache_run ((now, q) ∷ qs) ls = cache_run qs (cache_handle now q ls).0

-- How many of the requests are queries of a key.
unfoldable pub queries_of : Text → List (ℕ × CacheRequest) → ℕ
queries_of key [] = 0
queries_of key ((now, new_query k) ∷ qs) = (if k == key then 1 else 0) + queries_of key qs
queries_of key ((now, q) ∷ qs) = queries_of key qs

-- Every key has one entry.
abbrev IsQueryMap : Assoc Text ℕ → Type 0
IsQueryMap m = Distinct (keys m)

elem-age_queries :
    (k : Text) (m : Assoc Text ℕ) → elem k (keys m) ≡ false → elem k (keys (age_queries m)) ≡ false
unfolding age_queries
elem-age_queries k [] e = refl
elem-age_queries k ((j, n) ∷ m) e = ground (arith, elem-age_queries k m)

age_queries-IsQueryMap : (m : Assoc Text ℕ) → IsQueryMap m → IsQueryMap (age_queries m)
unfolding age_queries
age_queries-IsQueryMap [] d = tt
age_queries-IsQueryMap ((j, n) ∷ m) (o, d) =
    elim (n == 1) as (λ b. IsQueryMap (if b then age_queries m else (j, n - 1) ∷ age_queries m)) [
      | true ↦ age_queries-IsQueryMap m d
      | false ↦ (elem-age_queries j m o, age_queries-IsQueryMap m d)
    ]

count-age_queries :
    (k : Text) (m : Assoc Text ℕ)
    → IsQueryMap m
    → count_of (lookup k (age_queries m)) ≤ count_of (lookup k m)
unfolding age_queries lookup count_of
count-age_queries k [] d = omega arith
count-age_queries k ((j, n) ∷ m) (o, d) = ground (
  arith,
  count-age_queries k m d,
  lookup-not_key k (age_queries m),
  elem-age_queries k m,
  text_eq.beq_iff j k,
)

fetched_lem :
    (hit : Cached → CacheReply) (now : ℕ) (k : Text) (ls : Libstore)
    → (fetch_with hit now k ls).0.query_map ≡ ls.query_map
unfolding fetch_with
fetched_lem hit now k ls = elim (Option-cases (lookup k ls.cache_map)) [
  | inl absent ↦ ap (λ p. p.0.query_map) (fetched absent)
  | inr (e, here) ↦ ap (λ p. p.0.query_map) (stored e here)
]
  where
    fetched : lookup k ls.cache_map ≡ none → fetch_with hit now k ls ≡ (ls, nil_reply)
    fetched e = rw (fetch_with, e) refl

    stored :
        (e : CacheEntry)
        → lookup k ls.cache_map ≡ some e
        → fetch_with hit now k ls ≡ (
          record ls { cache_map = insert k (mark_expired now e) ls.cache_map },
          if (mark_expired now e).revoked then nil_reply else hit (mark_expired now e).value,
        )
    stored e here = rw (fetch_with, here) refl

granted : CacheReply → Bool
granted (bool_reply b) = b
granted x = false

module _ (key : Text) where
  abbrev count : Libstore → ℕ
  count ls = count_of (lookup key ls.query_map)

  counted_lem :
      (k : Text) (qs : List (ℕ × CacheRequest)) (ls : Libstore)
      → count (count_query k ls).0 + queries_of key qs
        ≤ count ls + ((if k == key then 1 else 0) + queries_of key qs)
  unfolding count_query count_of
  counted_lem k qs ls = elim (Option-cases (lookup k ls.query_map)) [
    | inl absent ↦ ground (arith, lookup-insert k key 1 ls.query_map, text_eq.beq_iff k key)
    | inr (n, here) ↦
        ground (arith, lookup-insert k key (n + 1) ls.query_map, text_eq.beq_iff k key)
  ]

  handle-count :
      (now : ℕ) (q : CacheRequest) (qs : List (ℕ × CacheRequest)) (ls : Libstore)
      → IsQueryMap ls.query_map
      → IsQueryMap (cache_handle now q ls).0.query_map
        × (count (cache_handle now q ls).0 + queries_of key qs
            ≤ count ls + queries_of key ((now, q) ∷ qs))
  unfolding cache_handle queries_of fetch_with count_query count_of
  handle-count now (create_cache t k v) qs ls d = (d, omega arith)
  handle-count now (fetch_cache k) qs ls d =
      let q = fetched_lem text_hit now k ls in
      (subst IsQueryMap (sym q) d, omega (arith, ap (λ m. count_of (lookup key m)) q))
  handle-count now (fetch_cache_list k) qs ls d =
      let q = fetched_lem list_hit now k ls in
      (subst IsQueryMap (sym q) d, omega (arith, ap (λ m. count_of (lookup key m)) q))
  handle-count now (new_query k) qs ls d =
      (keys-insert-Distinct k _ ls.query_map d, counted_lem k qs ls)
  handle-count now garbage_collect qs ls d = (d, omega arith)
  handle-count now query_collect qs ls d =
      (age_queries-IsQueryMap ls.query_map d, omega (arith, count-age_queries key ls.query_map d))

  run-count :
      (qs : List (ℕ × CacheRequest)) (ls : Libstore)
      → IsQueryMap ls.query_map
      → count (cache_run qs ls) ≤ count ls + queries_of key qs
  unfolding cache_run queries_of
  run-count [] ls d = omega arith
  run-count ((now, q) ∷ qs) ls d =
      let (d', b) = handle-count now q qs ls d in
      omega (arith, run-count qs (cache_handle now q ls).0 d', b)

  leased_lem : (ls : Libstore) → (count_query key ls).1 ≡ bool_reply true → 2 ≤ count ls
  unfolding count_query count_of granted
  leased_lem ls h =
      let enough : leb 3 (elim (lookup key ls.query_map) [ none ↦ 1 | some n ↦ n + 1 ]) ≡ true =
        ap granted h in
      ground (arith, enough)

  -- Starting without counts, whatever requests a client's cache has taken, it asks for a lease of a
  -- key only if at least two of them were queries of the key, so that this is at least the third.
  pub count_query-lease :
      (qs : List (ℕ × CacheRequest)) (ls : Libstore)
      → ls.query_map ≡ []
      → (count_query key (cache_run qs ls)).1 ≡ bool_reply true
      → 2 ≤ queries_of key qs
  unfolding count_query count_of lookup
  count_query-lease qs ls start lease =
      let d : IsQueryMap ls.query_map = subst IsQueryMap (sym start) tt in
      let nothing : count ls ≡ 0 = ap (λ m. count_of (lookup key m)) start in
      omega (arith, nothing, run-count qs ls d, leased_lem (cache_run qs ls) lease)
