-- ===== src/Store/Server/View.antt =====
-- The view of a storage server that its clients have, and the step of appHandler in
-- contrib/storageimpl/storageimpl.go on it: what every key holds, who has a lease of it, and the
-- writes that wait for its leases to end.
pub mod Parts
use airline_booking.Prelude.{
  ℕ, ◌+◌, ◌≡◌, refl, sym, ap, subst, ◌∙◌, ◌≢◌, inl, inr, Bool, true, false, Option, none, some,
  List, [], ◌∷◌, ◌++◌, arith, if◌then◌else◌, ◌==◌, nat_eq, Bool-cases, beq_self, length, All, elem,
  Text, text_eq,
}
use airline_booking.Prelude.Assoc.{Assoc, lookup, delete, keys}
use airline_booking.Store.HashList.Refinement.{exist-elem}
use airline_booking.Store.Buffer.{Buf}
use airline_booking.Store.Buffer.Fifo.{Holds}
use airline_booking.Store.Server.{
  RequestType, put, get, append_list, get_list, remove_list, put_lease, remove_lease, revoke_lease,
  Request, Value, text_value, list_value, Reply, bool_reply, text_reply, list_reply, nil_reply,
  Effect, answer, call_cache, start_timer, stop_timer, State, is_write, pre_check, clients_of,
}
use airline_booking.Store.Server.Content.{Content, missing, string, sequence, Shows, write_content}
use airline_booking.Store.HashList.Sequence.{without}

pub record View : Type 0 where
  pub contents : Text → Content
  pub holders : Text → List Text
  pub pending : Text → List Request

abbrev pub set : {A : Type 0} → Text → A → (Text → A) → Text → A
set k a f j = if k == j then a else f j

-- What holds of the new value at its key and of the old ones at the others.
pub set-elim :
    {A : Type 0} (P : Text → A → Type 0) (k j : Text) (v : A) (f : Text → A)
    → P k v
    → ((k == j) ≡ false → P j (f j))
    → P j (set k v f j)
set-elim P k j v f here other = elim (Bool-cases (k == j)) [
  | inl e ↦ rw e (subst (λ i. P i v) ((text_eq.beq_iff k j).0 e) here)
  | inr n ↦ rw n (other n)
]

pub set_here : {A : Type 0} (k : Text) (v : A) (f : Text → A) → set k v f k ≡ v
set_here k v f = rw (beq_self k) refl

pub set_other :
    {A : Type 0} (k j : Text) (v : A) (f : Text → A) → (k == j) ≡ false → set k v f j ≡ f j
set_other k j v f n = rw n refl

-- The reply to a write that would change nothing.
unfoldable pub refuses : RequestType → Text → Content → Option Reply
refuses put v (string t) = if t == v then some (bool_reply true) else none
refuses append_list v (sequence vs) = if elem v vs then some (bool_reply false) else none
refuses remove_list v (sequence vs) = if elem v vs then none else some (bool_reply false)
refuses remove_list v c = some (bool_reply false)
refuses typ v c = none

unfoldable pub read_content : Content → Reply
read_content (string t) = text_reply t
read_content c = nil_reply

unfoldable pub read_sequence : Content → Reply
read_sequence missing = nil_reply
read_sequence (string t) = list_reply []
read_sequence (sequence vs) = list_reply vs

-- Writes one after the other, and their answers.
unfoldable pub write_all : List Request → Content → Content × List Effect
write_all [] c = (c, [])
write_all (r ∷ rs) c =
    let (c', b) = write_content r.typ r.value c in
    let (c'', es) = write_all rs c' in (c'', answer r.replyc (bool_reply b) ∷ es)

abbrev pub is_empty {ℓ} : {A : Type ℓ} → List A → Bool
is_empty [] = true
is_empty (x ∷ xs) = false

abbrev pub Viewed : Type 0
Viewed = View × List Effect

abbrev pub answers_only : Request → Reply → View → Viewed
answers_only r x a = (a, answer r.replyc x ∷ [])

-- A write to a key that nobody has a lease of is done at once, any other waits.
unfoldable pub view_write : Request → View → Viewed
view_write r a =
    if is_empty (a.holders r.key)
    then (let (c, b) = write_content r.typ r.value (a.contents r.key) in
        (record a { contents = set r.key c a.contents }, answer r.replyc (bool_reply b) ∷ []))
    else (record a { pending = set r.key (a.pending r.key ++ r ∷ []) a.pending }, [])

-- A lease is granted where no write waits.
abbrev pub add_client : Text → List Text → List Text
add_client c cs = if elem c cs then cs else cs ++ c ∷ []

unfoldable pub view_grant : Request → View → Viewed
view_grant r a =
    if is_empty (a.pending r.key)
    then answers_only r (bool_reply true)
        (record a { holders = set r.key (add_client r.value (a.holders r.key)) a.holders })
    else answers_only r (bool_reply false) a

-- The end of a lease; that of the last one of a key lets its writes through, in the order of their
-- arrival.
unfoldable pub view_end : Request → View → Viewed
view_end r a =
    let left = without r.value (a.holders r.key) in
    let (c, es) = write_all (a.pending r.key) (a.contents r.key) in
    if is_empty left
    then (
      record {
        contents = set r.key c a.contents;
        holders = set r.key left a.holders;
        pending = set r.key [] a.pending;
      },
      es ++ answer r.replyc (bool_reply true) ∷ [],
    )
    else answers_only r (bool_reply true) (record a { holders = set r.key left a.holders })

unfoldable pub view_other : Request → View → Viewed
view_other r a = elim r.typ [
  | get ↦ answers_only r (read_content (a.contents r.key)) a
  | get_list ↦ answers_only r (read_sequence (a.contents r.key)) a
  | put_lease ↦ view_grant r a
  | revoke_lease ↦
      if elem r.value (a.holders r.key) then view_end r a else answers_only r (bool_reply true) a
  | remove_lease ↦
      if is_empty (a.holders r.key) then answers_only r (bool_reply true) a else view_end r a
  | _ ↦ (a, [])
]

-- What a request does to the view, and its answers.
unfoldable pub view_step : Request → View → Viewed
view_step r a = elim (refuses r.typ r.value (a.contents r.key)) [
  | some x ↦ answers_only r x a
  | none ↦ if is_write r.typ then view_write r a else view_other r a
]

abbrev pub Queued : Option (Buf Request) → List Request → Type 0
Queued none [] = Unit
Queued none (r ∷ rs) = ⊥
Queued (some b) rs = Holds b rs

abbrev pub ban_of : List Request → Option ℕ
ban_of [] = none
ban_of (r ∷ rs) = some (length rs + 1)

-- A write to the key.
abbrev pub IsWait : Text → Request → Type 0
IsWait k r = (is_write r.typ ≡ true) × (r.key ≡ k)

-- The maps of the server stand for the view: every value shows what its key holds, every buffer
-- holds the writes that wait, as many as the ban counts, and only a leased key has any.
pub record IsServer (s : State) (a : View) : Type 0 where
  pub shows : (k : Text) → Shows (lookup k s.cache) (a.contents k)
  pub queues : (k : Text) → Queued (lookup k s.deferred) (a.pending k)
  pub bans : (k : Text) → lookup k s.bans ≡ ban_of (a.pending k)
  pub holders : (k : Text) → keys (clients_of (lookup k s.leases)) ≡ a.holders k
  pub leased : (k : Text) → a.holders k ≡ [] → a.pending k ≡ []
  pub held : (k : Text) → lookup k s.leases ≢ some []
  pub writes : (k : Text) → All (IsWait k) (a.pending k)
