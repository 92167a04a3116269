-- ===== src/Tran/Layer/Tally.antt =====
-- contrib/tranlayer/coordinator.go: the count of the votes and the decision.
use airline_booking.Prelude.{
  ℕ, ◌+◌, ◌≤◌, ◌<◌, ◌≡◌, refl, ◌↔◌, ◌⊎◌, inl, inr, Bool, false, ◌||◌, some, [], ◌∷◌, arith, nat_beq,
  if◌then◌else◌, nat_eq, Bool-cases, length, All, Text, text_beq, text_eq,
}
use airline_booking.Prelude.Assoc.{Assoc, lookup, insert, All-insert}
use airline_booking.Airline.Types.{not_decided, commit, abort}
use airline_booking.Tran.Types.{ActiveTrans}
use airline_booking.Tran.Layer.{cast_vote}

-- How many participants have voted.
abbrev pub votes_in : Assoc Text ℕ → ℕ
votes_in [] = 0
votes_in ((p, v) ∷ m) = if nat_beq v not_decided then votes_in m else votes_in m + 1

abbrev pub has_vote : ℕ → Assoc Text ℕ → Bool
has_vote d [] = false
has_vote d ((p, v) ∷ m) = nat_beq v d || has_vote d m

-- The votes as two-phase commit reads them: one ABORT decides.
abbrev pub verdict : Assoc Text ℕ → ℕ
verdict m = if has_vote abort m then abort else if has_vote commit m then commit else not_decided

abbrev pub IsVote : ℕ → Type 0
IsVote v = (v ≡ commit) ⊎ (v ≡ abort)

-- A participant's entry: no vote yet, or a vote.
abbrev pub IsEntry : Text × ℕ → Type 0
IsEntry e = (e.1 ≡ not_decided) ⊎ IsVote e.1

-- The counter and the running decision agree with the votes.
pub record IsTallied (a : ActiveTrans) : Type 0 where
  pub valid : All IsEntry a.commit_grp
  pub counted : a.finished ≡ votes_in a.commit_grp
  pub decided : a.decision ≡ verdict a.commit_grp

votes_in-insert :
    (p : Text) (v : ℕ) (m : Assoc Text ℕ)
    → IsVote v
    → lookup p m ≡ some not_decided
    → votes_in (insert p v m) ≡ votes_in m + 1
unfolding lookup insert
votes_in-insert p v [] k h = cc
votes_in-insert p v ((q, w) ∷ m) k h = elim (Bool-cases (text_beq q p)) [
  | inl same ↦ ground (arith, same, h, k)
  | inr other ↦ ground (arith, votes_in-insert p v m k, other, h)
]

has_vote-insert :
    (d : ℕ) (p : Text) (v : ℕ) (m : Assoc Text ℕ)
    → 0 < d
    → lookup p m ≡ some not_decided
    → has_vote d (insert p v m) ≡ (nat_beq v d || has_vote d m)
unfolding lookup insert
has_vote-insert d p v [] pos h = cc
has_vote-insert d p v ((q, w) ∷ m) pos h = elim (Bool-cases (text_beq q p)) [
  | inl same ↦ ground (arith, same, h, pos)
  | inr other ↦ ground (arith, has_vote-insert d p v m pos, other, h)
]

-- A first vote of a participant keeps the tally right.
pub cast_vote-IsTallied :
    (p : Text) (v : ℕ) (a : ActiveTrans)
    → IsVote v
    → lookup p a.commit_grp ≡ some not_decided
    → IsTallied a
    → IsTallied (cast_vote p v a)
unfolding cast_vote
cast_vote-IsTallied p v a k h t = record {
  valid = All-insert IsEntry p v a.commit_grp (inr k) t.valid;
  counted = omega (arith, t.counted, votes_in-insert p v a.commit_grp k h);
  decided = ground (
    arith,
    t.decided,
    k,
    has_vote-insert commit p v a.commit_grp (omega arith) h,
    has_vote-insert abort p v a.commit_grp (omega arith) h,
  );
}

votes_in-length : (m : Assoc Text ℕ) → votes_in m ≤ length m
votes_in-length [] = omega arith
votes_in-length ((p, v) ∷ m) = ground (arith, votes_in-length m)

-- When as many have voted as there are, each has.
pub all_in : (m : Assoc Text ℕ) → length m ≤ votes_in m → All IsEntry m → All (λ e. IsVote e.1) m
all_in [] h a = tt
all_in ((p, v) ∷ m) h a = elim a.0 [
  | inl zero_vote ↦ absurd (ground (arith, h, zero_vote, votes_in-length m))
  | inr vote ↦ (vote, all_in m (ground (arith, h, votes_in-length m)) a.1)
]

-- With all votes in, the verdict is COMMIT exactly if every participant voted COMMIT.
pub verdict_unanimous :
    (m : Assoc Text ℕ)
    → All (λ e. IsVote e.1) m
    → 0 < length m
    → (verdict m ≡ commit) ↔ All (λ e. e.1 ≡ commit) m
verdict_unanimous m all pos = (to m all, from m pos)
  where
    to :
        (m : Assoc Text ℕ)
        → All (λ e. IsVote e.1) m
        → verdict m ≡ commit
        → All (λ e. e.1 ≡ commit) m
    to [] all e = tt
    to ((p, v) ∷ m) all e = (ground (arith, e, all.0), no_abort m all.1 (ground (arith, e)))
      where
        no_abort :
            (ks : Assoc Text ℕ)
            → All (λ e. IsVote e.1) ks
            → has_vote abort ks ≡ false
            → All (λ e. e.1 ≡ commit) ks
        no_abort [] a h = tt
        no_abort ((q, w) ∷ ks) a h = (ground (arith, a.0, h), no_abort ks a.1 (ground (arith, h)))

    none_abort : (ks : Assoc Text ℕ) → All (λ e. e.1 ≡ commit) ks → has_vote abort ks ≡ false
    none_abort [] a = refl
    none_abort ((q, w) ∷ ks) a = ground (arith, a.0, none_abort ks a.1)

    from : (m : Assoc Text ℕ) → 0 < length m → All (λ e. e.1 ≡ commit) m → verdict m ≡ commit
    from [] pos a = absurd (omega arith)
    from ((p, v) ∷ m) pos a = ground (arith, a.0, none_abort m a.1)
