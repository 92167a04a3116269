-- ===== src/Store/Server/View/Parts.antt =====
-- How the view of a storage server is taken apart: the answers among the effects, the cases of the
-- requests, and what the pre-check and the leases are in the view.
use airline_booking.Prelude.{
  ℕ, ◌≡◌, refl, sym, ap, ◌∙◌, true, false, Option, none, some, List, [], ◌∷◌, ◌++◌, arith,
  if◌then◌else◌, ◌==◌, nat_eq, Text, text_eq,
}
use airline_booking.Prelude.Assoc.{Assoc, lookup, delete, keys}
use airline_booking.Store.HashList.Refinement.{exist-elem}
use airline_booking.Store.Server.{
  RequestType, put, get, append_list, get_list, remove_list, put_lease, remove_lease, revoke_lease,
  Request, Value, text_value, list_value, bool_reply, Effect, answer, call_cache, start_timer,
  stop_timer, State, pre_check, clients_of,
}
use airline_booking.Store.Server.Content.{Content, missing, string, sequence, Shows, write_content}
use airline_booking.Store.HashList.Sequence.{without}
use airline_booking.Store.Server.View.{refuses, write_all, is_empty, View, IsServer}

-- The answers among the effects.
unfoldable pub answers : List Effect → List Effect
answers [] = []
answers (answer c x ∷ es) = answer c x ∷ answers es
answers (e ∷ es) = answers es

pub answers-append : (es fs : List Effect) → answers (es ++ fs) ≡ answers es ++ answers fs
unfolding answers
answers-append [] fs = refl
answers-append (answer c x ∷ es) fs = ap (λ l. answer c x ∷ l) (answers-append es fs)
answers-append (call_cache k c ∷ es) fs = answers-append es fs
answers-append (start_timer k c d t ∷ es) fs = answers-append es fs
answers-append (stop_timer t ∷ es) fs = answers-append es fs

pub answers-write_all :
    (rs : List Request) (c : Content) → answers (write_all rs c).1 ≡ (write_all rs c).1
unfolding answers write_all
answers-write_all [] c = refl
answers-write_all (r ∷ rs) c =
    ap (λ l. answer r.replyc (bool_reply (write_content r.typ r.value c).1) ∷ l)
      (answers-write_all rs (write_content r.typ r.value c).0)

-- One case for each type of request.
abbrev pub all_types :
    (P : RequestType → Type 0) (t : RequestType)
    → P put
    → P get
    → P append_list
    → P get_list
    → P remove_list
    → P put_lease
    → P remove_lease
    → P revoke_lease
    → P t
all_types P put a b c d e f g h = a
all_types P get a b c d e f g h = b
all_types P append_list a b c d e f g h = c
all_types P get_list a b c d e f g h = d
all_types P remove_list a b c d e f g h = e
all_types P put_lease a b c d e f g h = f
all_types P remove_lease a b c d e f g h = g
all_types P revoke_lease a b c d e f g h = h

-- The pre-check sees what the view shows.
pub pre_check-refuses :
    (r : Request) (held : Option Value) (c : Content)
    → Shows held c
    → pre_check held r ≡ refuses r.typ r.value c
unfolding pre_check refuses
pre_check-refuses r none missing h =
    elim r.typ as (λ t. pre_check none (record r { typ = t }) ≡ refuses t r.value missing) [
      | remove_list ↦ refl
      | put ↦ refl
      | append_list ↦ refl
      | get ↦ refl
      | get_list ↦ refl
      | put_lease ↦ refl
      | remove_lease ↦ refl
      | revoke_lease ↦ refl
    ]
pre_check-refuses r (some (text_value t)) (string u) h =
    elim r.typ
      as (λ y.
        pre_check (some (text_value t)) (record r { typ = y }) ≡ refuses y r.value (string u)) [
          | put ↦ ap (λ w. if w == r.value then some (bool_reply true) else none) h
          | append_list ↦ refl
          | remove_list ↦ refl
          | get ↦ refl
          | get_list ↦ refl
          | put_lease ↦ refl
          | remove_lease ↦ refl
          | revoke_lease ↦ refl
        ]
pre_check-refuses r (some (list_value hl)) (sequence vs) h =
    elim r.typ
      as (λ y.
        pre_check (some (list_value hl)) (record r { typ = y }) ≡ refuses y r.value (sequence vs)) [
          | append_list ↦
              ap (λ b. if b then some (bool_reply false) else none) (exist-elem r.value hl vs h)
          | remove_list ↦
              ap (λ b. if b then none else some (bool_reply false)) (exist-elem r.value hl vs h)
          | put ↦ refl
          | get ↦ refl
          | get_list ↦ refl
          | put_lease ↦ refl
          | remove_lease ↦ refl
          | revoke_lease ↦ refl
        ]
pre_check-refuses r none (string u) h = elim h [ ]
pre_check-refuses r none (sequence u) h = elim h [ ]
pre_check-refuses r (some (text_value t)) missing h = elim h [ ]
pre_check-refuses r (some (text_value t)) (sequence vs) h = elim h [ ]
pre_check-refuses r (some (list_value hl)) missing h = elim h [ ]
pre_check-refuses r (some (list_value hl)) (string vs) h = elim h [ ]

pub empty_lem {ℓ} : {A : Type ℓ} (xs : List A) → is_empty xs ≡ true → xs ≡ []
empty_lem [] e = refl
empty_lem (x ∷ xs) e = cc

pub not_empty : {A : Type 0} (xs : List A) → is_empty xs ≡ false → ¬ (xs ≡ [])
not_empty [] e h = cc
not_empty (x ∷ xs) e h = ground arith

pub keys-delete : (c : Text) (m : Assoc Text ℕ) → keys (delete c m) ≡ without c (keys m)
unfolding delete without
keys-delete c [] = refl
keys-delete c ((k, n) ∷ m) = ground (arith, keys-delete c m)

-- The server knows who has a lease of a key.
module _ (s : State) (a : View) (i : IsServer s a) (k : Text) where
  pub holders-none : lookup k s.leases ≡ none → a.holders k ≡ []
  holders-none e = sym (i.holders k) ∙ ap (λ o. keys (clients_of o)) e

  pub holders-some :
      (clients : Assoc Text ℕ) → lookup k s.leases ≡ some clients → keys clients ≡ a.holders k
  holders-some clients e = ap (λ o. keys (clients_of o)) (sym e) ∙ i.holders k

  pub holders_nonempty :
      (clients : Assoc Text ℕ) → lookup k s.leases ≡ some clients → is_empty (a.holders k) ≡ false
  holders_nonempty [] e = absurd (i.held k e)
  holders_nonempty (c ∷ clients) e = ap is_empty (sym (holders-some (c ∷ clients) e))
