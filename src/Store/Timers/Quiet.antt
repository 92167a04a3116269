-- ===== src/Store/Timers/Quiet.antt =====
-- The steps of appHandler in contrib/storageimpl/storageimpl.go that leave the leases alone, and what
-- the others do to the timers.
use airline_booking.Prelude.{
  zero, suc, ℕ, ◌≡◌, refl, Bool, true, false, Option, none, some, List, [], ◌∷◌, ◌++◌, map,
  if◌then◌else◌, nat_eq, Text, text_eq, ◌∙◌, subst,
}
use airline_booking.Prelude.Assoc.{Assoc, lookup, insert, delete}
use airline_booking.Store.Server.{
  Request, Value, text_value, list_value, Reply, bool_reply, Effect, answer, call_cache,
  start_timer, stop_timer, State, Outcome, ◌>>=◌, reply_to, store_at, store_value, append_new,
  append_to, remove_from, perform, defer, clients_of, buffer_of, put, drain, append_list,
  remove_list, run_deferred, RequestType,
}
use airline_booking.Store.Server.View.Parts.{all_types}
use airline_booking.Store.HashList.{new_hash_list, insert_value, remove_value, exist}
use airline_booking.Store.Buffer.{insert_last, Buf, empty, remove_first}
use airline_booking.Store.Timers.{Timer, react}
use airline_booking.Store.Timers.Matched.{Leases}

-- Who holds a lease of a key on the server.
unfoldable pub lease : State → Leases
lease s k c = lookup c (clients_of (lookup k s.leases))

-- No timer is started or stopped.
abbrev pub IsQuiet : List Effect → Type 0
IsQuiet [] = Unit
IsQuiet (answer c x ∷ es) = IsQuiet es
IsQuiet (call_cache k c ∷ es) = IsQuiet es
IsQuiet (start_timer k c d n ∷ es) = ⊥
IsQuiet (stop_timer n ∷ es) = ⊥

-- A step that leaves the leases alone, if it returns.
unfoldable pub Quiet : State → Outcome → Type 0
Quiet s none = Unit
Quiet s (some (s', es)) = (s'.leases ≡ s.leases) × (s'.channels ≡ s.channels) × IsQuiet es

IsQuiet-append : (es fs : List Effect) → IsQuiet es → IsQuiet fs → IsQuiet (es ++ fs)
IsQuiet-append [] fs q r = r
IsQuiet-append (answer c x ∷ es) fs q r = IsQuiet-append es fs q r
IsQuiet-append (call_cache k c ∷ es) fs q r = IsQuiet-append es fs q r
IsQuiet-append (start_timer k c d n ∷ es) fs q r = elim q [ ]
IsQuiet-append (stop_timer n ∷ es) fs q r = elim q [ ]

pub react-IsQuiet :
    (es fs : List Effect) (ts : Assoc ℕ Timer) → IsQuiet es → react (es ++ fs) ts ≡ react fs ts
unfolding react
react-IsQuiet [] fs ts q = refl
react-IsQuiet (answer c x ∷ es) fs ts q = react-IsQuiet es fs ts q
react-IsQuiet (call_cache k c ∷ es) fs ts q = react-IsQuiet es fs ts q
react-IsQuiet (start_timer k c d n ∷ es) fs ts q = elim q [ ]
react-IsQuiet (stop_timer n ∷ es) fs ts q = elim q [ ]

Quiet-bind :
    {A : Type 0} (s : State) (o : Option A) (f : A → Outcome)
    → ((a : A) → Quiet s (f a))
    → Quiet s (o >>= f)
unfolding Quiet
Quiet-bind s none f h = tt
Quiet-bind s (some a) f h = h a

Quiet-if :
    (s : State) (b : Bool) (o p : Outcome) → Quiet s o → Quiet s p → Quiet s (if b then o else p)
Quiet-if s true o p h g = h
Quiet-if s false o p h g = g

unchanged_Quiet : (s : State) → Quiet s (some (s, []))
unfolding Quiet
unchanged_Quiet s = (refl, refl, tt)

module _ (r : Request) (s : State) where
  pub reply_to-Quiet : (x : Reply) → Quiet s (reply_to r x s)
  unfolding Quiet
  reply_to-Quiet x = (refl, refl, tt)

  stored_Quiet : (x : Reply) (v : Value) → Quiet s (reply_to r x (store_at r.key v s))
  unfolding Quiet
  stored_Quiet x v = (refl, refl, tt)

  pub store_value-Quiet : Quiet s (store_value r s)
  unfolding store_value
  store_value-Quiet = stored_Quiet (bool_reply true) (text_value r.value)

  append_new-Quiet : Quiet s (append_new r s)
  unfolding append_new
  append_new-Quiet =
      Quiet-bind s (insert_value r.value new_hash_list) _
        (λ hl. stored_Quiet (bool_reply true) (list_value hl))

  pub append_to-Quiet : (v : Option Value) → Quiet s (append_to v r s)
  unfolding append_to
  append_to-Quiet none = append_new-Quiet
  append_to-Quiet (some (text_value t)) = append_new-Quiet
  append_to-Quiet (some (list_value hl)) =
      Quiet-if s (exist r.value hl) _ _ (reply_to-Quiet (bool_reply false)) (
        Quiet-bind s (insert_value r.value hl) _
          (λ h. stored_Quiet (bool_reply true) (list_value h)))

  pub remove_from-Quiet : (v : Option Value) → Quiet s (remove_from v r s)
  unfolding remove_from
  remove_from-Quiet none = reply_to-Quiet (bool_reply false)
  remove_from-Quiet (some (text_value t)) = reply_to-Quiet (bool_reply false)
  remove_from-Quiet (some (list_value hl)) =
      Quiet-if s (exist r.value hl) _ _
        (Quiet-bind s (remove_value r.value hl) _
          (λ h. stored_Quiet (bool_reply true) (list_value h)))
        (reply_to-Quiet (bool_reply false))

  pub defer-Quiet : (clients : Assoc Text ℕ) → Quiet s (defer r clients s)
  unfolding defer Quiet
  defer-Quiet clients =
      Quiet-bind s (insert_last r (buffer_of (lookup r.key s.deferred))) _
        (λ b. (refl, refl, asked clients))
    where
      asked : (m : Assoc Text ℕ) → IsQuiet (map (λ c. call_cache r.key c.0) m)
      asked [] = tt
      asked (c ∷ m) = asked m

  pub get_list-Quiet : (o : Option Reply) → Quiet s (o >>= λ x. reply_to r x s)
  get_list-Quiet o = Quiet-bind s o _ reply_to-Quiet

pub perform-Quiet : (r : Request) (s : State) → Quiet s (perform r s)
unfolding perform
perform-Quiet r s =
    let of_type : RequestType → Request = λ t. record r { typ = t } in
    all_types (λ t. Quiet s (perform (of_type t) s)) r.typ (store_value-Quiet (of_type put) s)
      (unchanged_Quiet s) (append_to-Quiet (of_type append_list) s (lookup r.key s.cache))
      (unchanged_Quiet s) (remove_from-Quiet (of_type remove_list) s (lookup r.key s.cache))
      (unchanged_Quiet s) (unchanged_Quiet s) (unchanged_Quiet s)

-- The same of the loop over deferred requests.
QuietDrain : State → Option (Buf Request × State × List Effect) → Type 0
QuietDrain s none = Unit
QuietDrain s (some (b, s', es)) = Quiet s (some (s', es))

drained_none : (s : State) → QuietDrain s none
unfolding QuietDrain
drained_none s = tt

drained_bind :
    {A : Type 0} (s : State) (o : Option A) (f : A → Option (Buf Request × State × List Effect))
    → ((a : A) → o ≡ some a → QuietDrain s (f a))
    → QuietDrain s (o >>= f)
drained_bind s none f h = drained_none s
drained_bind s (some a) f h = h a refl

drained_end : (b : Buf Request) (s : State) → QuietDrain s (some (b, s, []))
unfolding Quiet QuietDrain
drained_end b s = (refl, refl, tt)

drained_if :
    (s : State) (e : Bool) (o p : Option (Buf Request × State × List Effect))
    → QuietDrain s o
    → QuietDrain s p
    → QuietDrain s (if e then o else p)
drained_if s true o p h g = h
drained_if s false o p h g = g

drained_rest :
    (s s' : State) (es : List Effect) (o : Option (Buf Request × State × List Effect))
    → Quiet s (some (s', es))
    → QuietDrain s' o
    → QuietDrain s (o >>= λ x. some (x.0, x.1, es ++ x.2))
unfolding Quiet QuietDrain
drained_rest s s' es none q d = tt
drained_rest s s' es (some (b, s'', fs)) (l, c, q) (l', c', q') =
    (l' ∙ l, c' ∙ c, IsQuiet-append es fs q q')

drain-Quiet : (fuel : ℕ) (b : Buf Request) (s : State) → QuietDrain s (drain fuel b s)
unfolding drain
drain-Quiet zero b s = drained_if s (empty b) _ _ (drained_end b s) (drained_none s)
drain-Quiet (suc fuel) b s = drained_if s (empty b) _ _ (drained_end b s) (
    drained_bind s (remove_first b) _ (λ (front, b') _. drained_bind s front _ (λ r _.
      drained_bind s (perform r s) _ (λ (s', es) ran.
        drained_rest s s' es (drain fuel b' s') (subst (Quiet s) ran (perform-Quiet r s))
          (drain-Quiet fuel b' s')))))

drained :
    (k : Text) (s : State) (o : Option (Buf Request × State × List Effect))
    → QuietDrain s o
    → Quiet s (o >>= λ x. some (record x.1 { deferred = insert k x.0 x.1.deferred }, x.2))
unfolding Quiet QuietDrain
drained k s none d = tt
drained k s (some (b, s', es)) d = d

pub run_deferred-Quiet : (k : Text) (s : State) → Quiet s (run_deferred k s)
unfolding run_deferred Quiet
run_deferred-Quiet k s =
    elim (lookup k s.deferred)
      as (λ o. Quiet s (elim o [
        | none ↦ some (s, [])
        | some b ↦ do
          (b', s', es) ← drain b.allocated b (record s { bans = delete k s.bans })
          some (record s' { deferred = insert k b' s'.deferred }, es)
      ])) [
        | none ↦ unchanged_Quiet s
        | some b ↦
            let unbanned : State = record s { bans = delete k s.bans } in
            drained k unbanned (drain b.allocated b unbanned) (drain-Quiet b.allocated b unbanned)
      ]
