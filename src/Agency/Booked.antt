-- ===== src/Agency/Booked.antt =====
-- Bookings of contrib/tribimpl/trib-impl.go: the calls that AddBooking and RemoveBooking make, by what
-- they return. Nothing is asked of what is called.
use airline_booking.Prelude.{
  ◌≡◌, refl, sym, ap, ◌∙◌, ◌⊎◌, inl, inr, Bool, true, false, Option, none, some, List, [], ◌∷◌,
  ◌++◌, arith, nat_eq, Bool-cases, Any, elem, Text, text_eq, subst, Option-cases, if◌then◌else◌,
}
use mathlib.Core.List.{append-nil, append_assoc}
use airline_booking.Airline.Types.{FlightInfo}
use airline_booking.Agency.{
  ok, no_such_user, booking_failed, exists, no_airline, not_booked, Library, Reply, replies, fails,
  any_booked, same_bool, write_bookings, do_booking, user_exists, after_user, after_flights,
  after_list, after_booking, get_flights, new_user_key, bookings_key,
}

-- The calls that are recorded, with what came back: GetList, MakeBooking, the writes of a user's list,
-- and the two calls that no booking makes.
pub data Call : Type 0 where
  lists : Text → Option (List Text) → Call
  books : List Text → (is_remove done : Bool) → Call
  writes : (is_remove : Bool) (key flight : Text) (done : Bool) → Call
  puts : (key value : Text) (done : Bool) → Call
  creates : FlightInfo → Call

-- The interface with a record of its calls.
abbrev pub logged : {S : Type 0} → Library S → Library (S × List Call)
logged lib = record {
  get = λ k (s, l). let (s', b) = lib.get k s in ((s', l), b);
  get_list = λ k (s, l). let (s', o) = lib.get_list k s in ((s', l ++ lists k o ∷ []), o);
  put = λ k v (s, l). let (s', b) = lib.put k v s in ((s', l ++ puts k v b ∷ []), b);
  append_to_list = λ k f (s, l).
      let (s', b) = lib.append_to_list k f s in ((s', l ++ writes false k f b ∷ []), b);
  remove_from_list = λ k f (s, l).
      let (s', b) = lib.remove_from_list k f s in ((s', l ++ writes true k f b ∷ []), b);
  get_all_flights =
      λ from to date (s, l). let (s', o) = lib.get_all_flights from to date s in ((s', l), o);
  get_flight = λ f (s, l). let (s', o) = lib.get_flight f s in ((s', l), o);
  make_booking =
      λ fs r (s, l). let (s', b) = lib.make_booking fs r s in ((s', l ++ books fs r b ∷ []), b);
  create_flight = λ f (s, l). let (s', o) = lib.create_flight f s in ((s', l ++ creates f ∷ []), o);
}

-- A write of each flight, in their order, that came back without an error.
abbrev pub all_written : Bool → Text → List Text → List Call
all_written is_remove key [] = []
all_written is_remove key (f ∷ fs) = writes is_remove key f true ∷ all_written is_remove key fs

-- A flight of the request is among the bookings.
abbrev pub IsBooked : List Text → List Text → Type 0
IsBooked ids vs = Any (λ f. elem f vs ≡ true) ids

-- A removal needs a booked flight, a booking needs that there is none.
abbrev pub Fits : Bool → List Text → List Text → Type 0
Fits true ids vs = IsBooked ids vs
Fits false ids vs = ¬ IsBooked ids vs

-- The calls of a request by its reply.
abbrev pub Calls : Bool → Text → List Text → Reply Unit → List Call → Type 0
Calls is_remove key ids (replies ok x) log =
    (vs : List Text) × Fits is_remove ids vs
    × (log ≡ lists key (some vs) ∷ books ids is_remove true ∷ all_written is_remove key ids)
Calls is_remove key ids (replies no_such_user x) log = log ≡ []
Calls is_remove key ids (replies exists x) log =
    (is_remove ≡ false) × (vs : List Text) × IsBooked ids vs × (log ≡ lists key (some vs) ∷ [])
Calls is_remove key ids (replies not_booked x) log =
    (is_remove ≡ true) × (vs : List Text) × (¬ IsBooked ids vs) × (log ≡ lists key (some vs) ∷ [])
Calls is_remove key ids (replies booking_failed x) log =
    (log ≡ [])
    ⊎ (log ≡ lists key none ∷ [])
    ⊎ ((vs : List Text) × Fits is_remove ids vs
        × (log ≡ lists key (some vs) ∷ books ids is_remove false ∷ []))
Calls is_remove key ids (replies no_airline x) log = ⊥
Calls is_remove key ids fails log =
    (vs : List Text) × (done : List Text) × (f : Text) × (rest : List Text) × Fits is_remove ids vs
    × (ids ≡ done ++ f ∷ rest)
    × (log
        ≡ lists key (some vs) ∷ books ids is_remove true ∷ all_written is_remove key done
          ++ writes is_remove key f false ∷ [])

any_booked-true : (ids vs : List Text) → any_booked ids vs ≡ true → IsBooked ids vs
unfolding any_booked
any_booked-true [] vs h = cc
any_booked-true (f ∷ fs) vs h = elim (Bool-cases (elem f vs)) [
  | inl here ↦ inl here
  | inr other ↦ inr (any_booked-true fs vs (ground (arith, h, other)))
]

any_booked-false : (ids vs : List Text) → any_booked ids vs ≡ false → ¬ IsBooked ids vs
unfolding any_booked
any_booked-false [] vs h b = elim b [ ]
any_booked-false (f ∷ fs) vs h (inl here) = absurd (ground (arith, h, here))
any_booked-false (f ∷ fs) vs h (inr b) = any_booked-false fs vs (ground (arith, h)) b

same_bool-Fits :
    (is_remove : Bool) (ids vs : List Text)
    → same_bool (any_booked ids vs) is_remove ≡ true
    → Fits is_remove ids vs
unfolding same_bool
same_bool-Fits true ids vs h = any_booked-true ids vs h
same_bool-Fits false ids vs h = any_booked-false ids vs (ground (arith, h))

module _ {S : Type 0} (lib : Library S) where
  abbrev Step : Type 0
  Step = (S × List Call) × Reply Unit

  abbrev Made : Bool → Text → List Text → Step → Type 0
  Made is_remove key ids x = Calls is_remove key ids x.1 x.0.1

  -- The reply of the loop over the writes, and the calls that it adds to `l`.
  abbrev Written : Bool → Text → List Text → List Call → Step → Type 0
  Written is_remove key ids l x =
      ((x.1 ≡ replies ok tt) × (x.0.1 ≡ l ++ all_written is_remove key ids))
      ⊎ ((x.1 ≡ fails)
          × (done : List Text) × (f : Text) × (rest : List Text) × (ids ≡ done ++ f ∷ rest)
          × (x.0.1 ≡ l ++ (all_written is_remove key done ++ writes is_remove key f false ∷ [])))

  Written-more :
      (is_remove : Bool) (key f : Text) (fs : List Text) (l : List Call) (x : Step)
      → Written is_remove key fs (l ++ writes is_remove key f true ∷ []) x
      → Written is_remove key (f ∷ fs) l x
  Written-more is_remove key f fs l x (inl (e, h)) =
      inl (e, h ∙ append_assoc l (writes is_remove key f true ∷ []) (all_written is_remove key fs))
  Written-more is_remove key f fs l x (inr (e, done, g, rest, split, h)) = inr (
    e,
    f ∷ done,
    g,
    rest,
    ap (λ u. f ∷ u) split,
    h
        ∙ append_assoc l (writes is_remove key f true ∷ [])
            (all_written is_remove key done ++ writes is_remove key g false ∷ []),
  )

  -- One write, and the rest of the loop if it came back without an error.
  abbrev go_on : Bool → Text → Text → List Text → S → List Call → Bool → Step
  go_on is_remove key f fs s l b =
      let w : S × List Call = (s, l ++ writes is_remove key f b ∷ []) in
      elim b [ true ↦ write_bookings (logged lib) is_remove key fs w | false ↦ (w, fails) ]

  write_bookings-Written :
      (is_remove : Bool) (key : Text) (ids : List Text) (s : S) (l : List Call)
      → Written is_remove key ids l (write_bookings (logged lib) is_remove key ids (s, l))
  unfolding write_bookings
  write_bookings-Written is_remove key [] s l = inl (refl, sym (append-nil l))
  write_bookings-Written true key (f ∷ fs) s l =
      let w = lib.remove_from_list key f s in
      elim w.1 as (λ b. Written true key (f ∷ fs) l (go_on true key f fs w.0 l b)) [
        | true ↦
            Written-more true key f fs l (go_on true key f fs w.0 l true)
              (write_bookings-Written true key fs w.0 (l ++ writes true key f true ∷ []))
        | false ↦ inr (refl, [], f, fs, refl, refl)
      ]
  write_bookings-Written false key (f ∷ fs) s l =
      let w = lib.append_to_list key f s in
      elim w.1 as (λ b. Written false key (f ∷ fs) l (go_on false key f fs w.0 l b)) [
        | true ↦
            Written-more false key f fs l (go_on false key f fs w.0 l true)
              (write_bookings-Written false key fs w.0 (l ++ writes false key f true ∷ []))
        | false ↦ inr (refl, [], f, fs, refl, refl)
      ]

  -- The calls of the whole request, after those of its loop.
  Written-Made :
      (is_remove : Bool) (key : Text) (ids vs : List Text) (x : Step)
      → Fits is_remove ids vs
      → Written is_remove key ids (lists key (some vs) ∷ books ids is_remove true ∷ []) x
      → Made is_remove key ids x
  Written-Made is_remove key ids vs x fits (inl (e, h)) =
      subst (λ r. Calls is_remove key ids r x.0.1) (sym e) (vs, fits, h)
  Written-Made is_remove key ids vs x fits (inr (e, done, f, rest, split, h)) =
      subst (λ r. Calls is_remove key ids r x.0.1) (sym e) (vs, done, f, rest, fits, split, h)

  after_booking-Made :
      (booked is_remove : Bool) (user : Text) (ids vs : List Text) (s : S)
      → Fits is_remove ids vs
      → Made is_remove (bookings_key user) ids (
          after_booking
            (logged lib)
            booked
            is_remove
            user
            ids
            (s, lists (bookings_key user) (some vs) ∷ books ids is_remove booked ∷ []))
  unfolding after_booking
  after_booking-Made true is_remove user ids vs s fits =
      let l = lists (bookings_key user) (some vs) ∷ books ids is_remove true ∷ [] in
      Written-Made is_remove (bookings_key user) ids vs
        (write_bookings (logged lib) is_remove (bookings_key user) ids (s, l)) fits
        (write_bookings-Written is_remove (bookings_key user) ids s l)
  after_booking-Made false is_remove user ids vs s fits = inr (inr (vs, fits, refl))

  refused :
      (is_remove : Bool) (user : Text) (ids vs : List Text) (s : S)
      → same_bool (any_booked ids vs) is_remove ≡ false
      → Made is_remove (bookings_key user) ids (
        (s, lists (bookings_key user) (some vs) ∷ []),
        replies (if is_remove then not_booked else exists) tt,
      )
  unfolding same_bool
  refused true user ids vs s h = (refl, vs, any_booked-false ids vs h, refl)
  refused false user ids vs s h = (refl, vs, any_booked-true ids vs (ground (arith, h)), refl)

  after_list-Made :
      (got : Option (List Text)) (is_remove : Bool) (user : Text) (ids : List Text) (s : S)
      → Made is_remove
          (bookings_key user)
          ids
          (after_list (logged lib) got is_remove user ids (s, lists (bookings_key user) got ∷ []))
  unfolding after_list
  after_list-Made none is_remove user ids s = inr (inl refl)
  after_list-Made (some vs) is_remove user ids s =
      elim (Bool-cases (same_bool (any_booked ids vs) is_remove)) [
        | inr bad ↦ rw (after_list, bad) (refused is_remove user ids vs s bad)
        | inl fits ↦
            let w = lib.make_booking ids is_remove s in
            rw (after_list, fits)
              (after_booking-Made w.1 is_remove user ids vs w.0
                (same_bool-Fits is_remove ids vs fits))
      ]

  after_flights-Made :
      (got : Option (List FlightInfo)) (is_remove : Bool) (user : Text) (ids : List Text) (s : S)
      → Made is_remove
          (bookings_key user)
          ids
          (after_flights (logged lib) got is_remove user ids (s, []))
  unfolding after_flights
  after_flights-Made none is_remove user ids s = inl refl
  after_flights-Made (some infos) is_remove user ids s =
      let w = lib.get_list (bookings_key user) s in after_list-Made w.1 is_remove user ids w.0

  -- Flights are looked up without a recorded call.
  get_flights-log :
      (ids : List Text) (s : S) (l : List Call) → (get_flights (logged lib) ids (s, l)).0.1 ≡ l
  unfolding get_flights
  get_flights-log [] s l = refl
  get_flights-log (f ∷ fs) s l = elim (Option-cases (lib.get_flight f s).1) [
    | inl absent ↦ rw (get_flights, absent) refl
    | inr (info, found) ↦ rw (get_flights, found) (get_flights-log fs (lib.get_flight f s).0 l)
  ]

  after_user-Made :
      (known is_remove : Bool) (user : Text) (ids : List Text) (s : S)
      → Made is_remove
          (bookings_key user)
          ids
          (after_user (logged lib) known is_remove user ids (s, []))
  unfolding after_user
  after_user-Made false is_remove user ids s = refl
  after_user-Made true is_remove user ids s =
      let w = get_flights (logged lib) ids (s, []) in
      subst
        (λ l.
          Made is_remove (bookings_key user) ids
            (after_flights (logged lib) w.1 is_remove user ids (w.0.0, l)))
        (sym (get_flights-log ids s [])) (after_flights-Made w.1 is_remove user ids w.0.0)

  -- Whatever the storage servers and the airlines answer, the calls of AddBooking or RemoveBooking follow
  -- from what it returns. OK: GetList gave bookings that fit (a flight of the request for a removal,
  -- none for a booking), then one MakeBooking for all flights succeeded, then the user's list was written
  -- for each flight in order. An error: the same up to a write that failed, after which nothing is undone
  -- and the flights behind it are not written. A booking failure: nothing was changed, MakeBooking at
  -- most refused. All other statuses: nothing was changed, and the bookings do not fit or were not read.
  pub do_booking-Calls :
      (is_remove : Bool) (user : Text) (ids : List Text) (s : S)
      → let x = do_booking (logged lib) is_remove user ids (s, []) in
        Calls is_remove (bookings_key user) ids x.1 x.0.1
  unfolding do_booking user_exists
  do_booking-Calls is_remove user ids s =
      let w = lib.get (new_user_key user) s in after_user-Made w.1 is_remove user ids w.0
