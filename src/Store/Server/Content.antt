-- ===== src/Store/Server/Content.antt =====
-- What a storage server's key holds, seen from outside: nothing, a string, or a sequence of
-- different strings; and what the writes of appHandler in contrib/storageimpl/storageimpl.go do to
-- it.
use airline_booking.Prelude.{
  ◌≡◌, refl, sym, subst, inl, inr, Bool, true, false, Option, none, some, List, [], ◌∷◌, ◌++◌,
  arith, if◌then◌else◌, ◌==◌, nat_eq, Bool-cases, beq_self, elem, Text, text_eq,
}
use airline_booking.Prelude.Assoc.{lookup, lookup-insert}
use airline_booking.Store.HashList.{new_hash_list}
use airline_booking.Store.HashList.Sequence.{without}
use airline_booking.Store.HashList.Refinement.{
  Represents, new-Represents, exist-elem, insert_value-Represents,
}
use airline_booking.Store.HashList.Removal.{remove_value-Represents}
use airline_booking.Store.Server.{
  RequestType, Request, Value, State, text_value, store_value, list_value, store_at, append_new,
  answer, append_to, Effect, Outcome, bool_reply, put, append_list, remove_list, is_write,
  remove_from, perform,
}

pub data Content : Type 0 where
  missing : Content
  string : Text → Content
  sequence : List Text → Content

abbrev pub Shows : Option Value → Content → Type 0
Shows none missing = Unit
Shows (some (text_value t)) (string u) = t ≡ u
Shows (some (list_value hl)) (sequence vs) = Represents hl vs
Shows v c = ⊥

abbrev pub Written : Type 0
Written = Content × Bool

-- What a write makes of a content, and the Boolean that answers it.
unfoldable pub append_content : Text → Content → Written
append_content v (sequence vs) =
    if elem v vs then (sequence vs, false) else (sequence (vs ++ v ∷ []), true)
append_content v c = (sequence (v ∷ []), true)

unfoldable pub remove_content : Text → Content → Written
remove_content v (sequence vs) =
    if elem v vs then (sequence (without v vs), true) else (sequence vs, false)
remove_content v c = (c, false)

unfoldable pub write_content : RequestType → Text → Content → Written
write_content put v c = (string v, true)
write_content append_list v c = append_content v c
write_content remove_list v c = remove_content v c
write_content typ v c = (c, false)

-- The step that a write takes.
pub record Performed (r : Request) (s : State) (w : Written) (s' : State) (es : List Effect)
    : Type 0 where
  pub shown : Shows (lookup r.key s'.cache) w.0
  pub others : (k : Text) → (r.key == k) ≡ false → lookup k s'.cache ≡ lookup k s.cache
  pub kept :
      (s'.leases ≡ s.leases)
      × (s'.deferred ≡ s.deferred)
      × (s'.bans ≡ s.bans)
      × (s'.channels ≡ s.channels)
  pub answered : es ≡ answer r.replyc (bool_reply w.1) ∷ []

abbrev pub Performs : Request → State → Written → Outcome → Type 0
Performs r s w o = (s' : State) × (es : List Effect) × (o ≡ some (s', es)) × Performed r s w s' es

module _ (r : Request) (s : State) where
  lookup_stored : (v : Value) → lookup r.key (store_at r.key v s).cache ≡ some v
  lookup_stored v = ground (arith, lookup-insert r.key r.key v s.cache, beq_self r.key)

  -- The key gets a value that shows the new content.
  stored :
      (v : Value) (w : Written)
      → w.1 ≡ true
      → Shows (some v) w.0
      → Performed r s w (store_at r.key v s) (answer r.replyc (bool_reply true) ∷ [])
  stored v w e h = record {
    shown = subst (λ o. Shows o w.0) (sym (lookup_stored v)) h;
    others = λ k n. ground (arith, lookup-insert r.key k v s.cache);
    kept = (refl, refl, refl, refl);
    answered = rw e refl;
  }

  unchanged :
      (w : Written)
      → w.1 ≡ false
      → Shows (lookup r.key s.cache) w.0
      → Performed r s w s (answer r.replyc (bool_reply false) ∷ [])
  unchanged w e h = record {
    shown = h;
    others = λ k n. refl;
    kept = (refl, refl, refl, refl);
    answered = rw e refl;
  }

  store_value-Performs :
      (c : Content) → Performs r s (write_content put r.value c) (store_value r s)
  unfolding write_content store_value
  store_value-Performs c = (_, _, refl, stored (text_value r.value) _ refl refl)

  append_new-Performs : Performs r s (sequence (r.value ∷ []), true) (append_new r s)
  unfolding append_new
  append_new-Performs =
      let (hl, ran, made) = insert_value-Represents r.value new_hash_list [] new-Represents refl in
      (_, _, rw ran refl, stored (list_value hl) _ refl made)

  append_to-Performs :
      (held : Option Value) (c : Content)
      → lookup r.key s.cache ≡ held
      → Shows held c
      → Performs r s (append_content r.value c) (append_to held r s)
  unfolding append_to append_content
  append_to-Performs none missing e h = append_new-Performs
  append_to-Performs (some (text_value t)) (string u) e h = append_new-Performs
  append_to-Performs (some (list_value hl)) (sequence vs) e h =
      elim (Bool-cases (elem r.value vs)) [
        | inl m ↦
            rw (exist-elem r.value hl vs h, m)
              (
                s,
                _,
                refl,
                unchanged (sequence vs, false) refl (subst (λ o. Shows o (sequence vs)) (sym e) h),
              )
        | inr m ↦
            let (hl', ran, made) = insert_value-Represents r.value hl vs h m in
            rw (exist-elem r.value hl vs h, m)
              (
                _,
                _,
                rw ran refl,
                stored (list_value hl') (sequence (vs ++ r.value ∷ []), true) refl made,
              )
      ]
  append_to-Performs none (string u) e h = elim h [ ]
  append_to-Performs none (sequence u) e h = elim h [ ]
  append_to-Performs (some (text_value t)) missing e h = elim h [ ]
  append_to-Performs (some (text_value t)) (sequence vs) e h = elim h [ ]
  append_to-Performs (some (list_value hl)) missing e h = elim h [ ]
  append_to-Performs (some (list_value hl)) (string vs) e h = elim h [ ]

  remove_from-Performs :
      (held : Option Value) (c : Content)
      → lookup r.key s.cache ≡ held
      → Shows held c
      → Performs r s (remove_content r.value c) (remove_from held r s)
  unfolding remove_from remove_content
  remove_from-Performs none missing e h =
      (s, _, refl, unchanged (missing, false) refl (subst (λ o. Shows o missing) (sym e) h))
  remove_from-Performs (some (text_value t)) (string u) e h =
      (s, _, refl, unchanged (string u, false) refl (subst (λ o. Shows o (string u)) (sym e) h))
  remove_from-Performs (some (list_value hl)) (sequence vs) e h =
      elim (Bool-cases (elem r.value vs)) [
        | inr m ↦
            rw (exist-elem r.value hl vs h, m)
              (
                s,
                _,
                refl,
                unchanged (sequence vs, false) refl (subst (λ o. Shows o (sequence vs)) (sym e) h),
              )
        | inl m ↦
            let (hl', ran, made) = remove_value-Represents r.value hl vs h in
            rw (exist-elem r.value hl vs h, m)
              (
                _,
                _,
                rw ran refl,
                stored (list_value hl') (sequence (without r.value vs), true) refl made,
              )
      ]
  remove_from-Performs none (string u) e h = elim h [ ]
  remove_from-Performs none (sequence u) e h = elim h [ ]
  remove_from-Performs (some (text_value t)) missing e h = elim h [ ]
  remove_from-Performs (some (text_value t)) (sequence vs) e h = elim h [ ]
  remove_from-Performs (some (list_value hl)) missing e h = elim h [ ]
  remove_from-Performs (some (list_value hl)) (string vs) e h = elim h [ ]

-- A write, deferred or not, does to the values what `write_content` says, answers once, and touches
-- nothing else.
pub perform-Performs :
    (r : Request) (s : State) (c : Content)
    → is_write r.typ ≡ true
    → Shows (lookup r.key s.cache) c
    → Performs r s (write_content r.typ r.value c) (perform r s)
unfolding perform write_content is_write
perform-Performs r s c w h =
    elim r.typ
        as (λ t.
          is_write t ≡ true
          → Performs r s (write_content t r.value c) (elim t [
            | put ↦ store_value r s
            | append_list ↦ append_to (lookup r.key s.cache) r s
            | remove_list ↦ remove_from (lookup r.key s.cache) r s
            | _ ↦ some (s, [])
          ])) [
            | put ↦ λ _. store_value-Performs r s c
            | append_list ↦ λ _. append_to-Performs r s (lookup r.key s.cache) c refl h
            | remove_list ↦ λ _. remove_from-Performs r s (lookup r.key s.cache) c refl h
            | _ ↦ λ n. cc
          ]
      w
