-- ===== src/Airline/Participant/Expiry.antt =====
-- contrib/airlineimpl/participant.go: the loop of expireTrans.
use airline_booking.Prelude.{
  ℕ, zero, suc, ◌+◌, ◌%◌, ◌≡◌, refl, ◌≢◌, ◌⊎◌, inl, inr, none, List, [], ◌∷◌, nat_eq, Option-cases,
  length, get_elem?, All, Text, text_eq,
}
use airline_booking.Airline.Participant.{Ask, ask_members, call_failed, unreachable, answered}

-- The loop of expireTrans does not end while every member that can be reached answers.
pub ask_members_stuck :
    (members : List Text) (nets : List (Text → Ask)) (cnt st : ℕ)
    → All (λ net. (m : Text) → net m ≢ call_failed) nets
    → ask_members members nets cnt st ≡ none
unfolding ask_members
ask_members_stuck members [] cnt st a = refl
ask_members_stuck members (net ∷ nets) cnt st a =
    let next = (cnt + 1) % length members in
    elim (Option-cases (get_elem? members cnt)) [
      | inl out ↦ rw (out, ask_members)
      | inr (m, here) ↦ elim (Ask-cases (net m)) [
        | inl down ↦ rw (here, ask_members, down) (ask_members_stuck members nets next st a.1)
        | inr (inl failed) ↦ elim (a.0 m failed) [ ]
        | inr (inr (zero, said)) ↦
            rw (here, ask_members, said) (ask_members_stuck members nets next st a.1)
        | inr (inr (suc n, said)) ↦
            rw (here, ask_members, said) (ask_members_stuck members nets next (suc n) a.1)
      ]
    ]
  where
    Ask-cases : (k : Ask) → (k ≡ unreachable) ⊎ ((k ≡ call_failed) ⊎ ((n : ℕ) × (k ≡ answered n)))
    Ask-cases unreachable = inl refl
    Ask-cases call_failed = inr (inl refl)
    Ask-cases (answered n) = inr (inr (n, refl))
