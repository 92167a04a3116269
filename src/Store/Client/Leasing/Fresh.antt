-- ===== src/Store/Client/Leasing/Fresh.antt =====
-- The cache of contrib/libstore/libstore-impl.go as the callers of Fetch see it: which values it
-- still hands out, and what a revocation does.
use airline_booking.Prelude.{
  ℕ, ◌≤◌, ◌≡◌, refl, sym, ap, ◌∙◌, ◌↔◌, inl, inr, Bool, true, false, none, arith, if◌then◌else◌,
  nat_eq, Option-cases, Text, text_eq,
}
use airline_booking.Prelude.Assoc.{lookup, insert, lookup-insert_here}
use airline_booking.Store.Client.{
  Cached, cached_text, fetch_cache, CacheReply, value_reply, nil_reply, Libstore, mark_expired,
  fetch_with, text_hit, cache_handle, cached_list, revoke_lease,
}
use airline_booking.Store.Client.Leasing.{IsFresh, fetch_with-some, fetch_with-IsFresh}

fetch_with-none :
    (hit : Cached → CacheReply) (now : ℕ) (key : Text) (ls : Libstore)
    → lookup key ls.cache_map ≡ none
    → fetch_with hit now key ls ≡ (ls, nil_reply)
unfolding fetch_with
fetch_with-none hit now key ls e = rw (fetch_with, e) refl

-- A marked entry that is handed out was valid.
marked_lem :
    (v : Cached) (revoked : Bool) (expiry now : ℕ) (t : Text)
    → (let e = mark_expired now (record { value = v; revoked = revoked; expiry_time = expiry }) in
        if e.revoked then nil_reply else text_hit e.value)
      ≡ value_reply (cached_text t)
    → (v ≡ cached_text t) × (revoked ≡ false) × (now ≤ expiry)
unfolding mark_expired text_hit
marked_lem v true expiry now t h = cc
marked_lem (cached_list vs) false expiry now t h = absurd (ground (arith, h))
marked_lem (cached_text u) false expiry now t h = ground (arith, h)

-- The cache has a string for a key exactly while one is cached that is neither revoked nor expired.
pub fetch-IsFresh :
    (key t : Text) (now : ℕ) (ls : Libstore)
    → ((cache_handle now (fetch_cache key) ls).1 ≡ value_reply (cached_text t))
      ↔ IsFresh ls key (cached_text t) now
unfolding cache_handle text_hit
fetch-IsFresh key t now ls = (
  (λ h. elim (Option-cases (lookup key ls.cache_map)) [
    | inl absent ↦ nothing (sym (ap (λ p. p.1) (fetch_with-none text_hit now key ls absent)) ∙ h)
    | inr (e, here) ↦
        let (holds, valid, in_time) =
          marked_lem e.value e.revoked e.expiry_time now t
            (sym (fetch_with-some text_hit now key ls e here) ∙ h) in
        record { entry = e; here = here; holds = holds; valid = valid; in_time = in_time }
  ]),
  (λ f. fetch_with-IsFresh text_hit now key (cached_text t) ls f),
)
  where
    nothing : nil_reply ≡ value_reply (cached_text t) → IsFresh ls key (cached_text t) now
    nothing e = cc

-- After RevokeLease the cache has no value for the key, whenever it is asked.
pub revoke_lease-fetch :
    (key : Text) (now : ℕ) (ls : Libstore)
    → (cache_handle now (fetch_cache key) (revoke_lease key ls)).1 ≡ nil_reply
unfolding cache_handle revoke_lease mark_expired
revoke_lease-fetch key now ls = elim (Option-cases (lookup key ls.cache_map)) [
  | inl absent ↦
      let same : revoke_lease key ls ≡ ls = rw (revoke_lease, absent) refl in
      ap (λ l. (fetch_with text_hit now key l).1) same
      ∙ ap (λ p. p.1) (fetch_with-none text_hit now key ls absent)
  | inr (e, here) ↦
      let ls' : Libstore = record ls {
        cache_map = insert key (record e { revoked = true }) ls.cache_map;
      } in
      let same : revoke_lease key ls ≡ ls' = rw (revoke_lease, here) refl in
      ap (λ l. (fetch_with text_hit now key l).1) same
      ∙ fetch_with-some text_hit now key ls' (record e { revoked = true })
          (lookup-insert_here key (record e { revoked = true }) ls.cache_map)
]
