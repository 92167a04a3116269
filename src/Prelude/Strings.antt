-- ===== src/Prelude/Strings.antt =====
-- Go's strings.Split and strconv.Itoa on byte lists.
use mathlib.Core.List.{append_assoc, append-nil}
use mathlib.Core.Path.{subst, ◌≡◌, refl, sym, ap, ◌∙◌}
use mathlib.Core.Logic.{◌≢◌, inl, inr, ◌⊎◌}
use mathlib.Core.Option.{Option, none, some}
use mathlib.Core.Bool.{Bool, true, false, ◌||◌, ◌&&◌}
use mathlib.Core.List.{List, [], ◌∷◌, ◌++◌}
use Prim.Native.Nat.{ℕ, ◌*◌, zero, suc, ◌+◌, ◌-◌, ◌/◌, ◌%◌, ◌≤◌, ◌<◌}
use native.Mathlib.Omega.{arith}
use airline_booking.Prelude.Tests.{leb, ltb, nat_beq, if◌then◌else◌, Bool-cases}
use airline_booking.Prelude.Lists.{length, All, All-append, All-mono}
use airline_booking.Prelude.Bytes.{Text}

unfoldable pub is_prefix : Text → Text → Bool
is_prefix [] s = true
is_prefix (a ∷ p) [] = false
is_prefix (a ∷ p) (b ∷ s) = nat_beq a b && is_prefix p s

-- Inside a separator `skip` bytes are passed over; `cur` is the piece read so far.
unfoldable pub split_from : Text → ℕ → Text → Text → List Text
unfolding is_prefix
split_from sep skip cur [] = cur ∷ []
split_from sep (suc skip) cur (c ∷ s) = split_from sep skip cur s
split_from sep zero cur (c ∷ s) = elim (is_prefix sep (c ∷ s)) [
  | true ↦ cur ∷ split_from sep (length sep - 1) [] s
  | false ↦ split_from sep 0 (cur ++ c ∷ []) s
]

-- strings.Split(s, sep), for a separator with at least one byte.
unfoldable pub split : Text → Text → List Text
unfolding split_from
split s sep = split_from sep 0 [] s

-- strings.Contains(s, sep), for such a separator.
unfoldable pub occurs : Text → Text → Bool
unfolding is_prefix
occurs sep [] = false
occurs sep (c ∷ s) = is_prefix sep (c ∷ s) || occurs sep s

abbrev pub Lacks : ℕ → Text → Type 0
Lacks b = All (λ c. c ≢ b)

is_prefix-append : (p s : Text) → is_prefix p (p ++ s) ≡ true
unfolding is_prefix
is_prefix-append [] s = refl
is_prefix-append (a ∷ p) s = ground (arith, is_prefix-append p s)

split_from_skip :
    (sep cur t s : Text) → split_from sep (length t) cur (t ++ s) ≡ split_from sep 0 cur s
unfolding split_from
split_from_skip sep cur [] s = refl
split_from_skip sep cur (c ∷ t) s = split_from_skip sep cur t s

pub split_from_step :
    (sep cur : Text) (c : ℕ) (s : Text)
    → is_prefix sep (c ∷ s) ≡ false
    → split_from sep 0 cur (c ∷ s) ≡ split_from sep 0 (cur ++ c ∷ []) s
unfolding split_from
split_from_step sep cur c s h = rw (h, split_from)

pub split_from_cut :
    (h : ℕ) (t cur s : Text)
    → split_from (h ∷ t) 0 cur ((h ∷ t) ++ s) ≡ cur ∷ split_from (h ∷ t) 0 [] s
unfolding split_from
split_from_cut h t cur s =
    rw (is_prefix-append (h ∷ t) s, split_from)
      (ap (◌∷◌ cur)
        (ap (λ n. split_from (h ∷ t) n [] (t ++ s)) (omega arith) ∙ split_from_skip (h ∷ t) [] t s))

-- A text in which the separator does not occur is one piece.
pub split_from_whole :
    (sep cur s : Text) → occurs sep s ≡ false → split_from sep 0 cur s ≡ (cur ++ s) ∷ []
unfolding split_from occurs
split_from_whole sep cur [] h = ap (λ x. x ∷ []) (sym (append-nil cur))
split_from_whole sep cur (c ∷ s) h =
    split_from_step sep cur c s (ground arith)
    ∙ split_from_whole sep (cur ++ c ∷ []) s (ground arith)
    ∙ ap (λ x. x ∷ []) (append_assoc cur (c ∷ []) s)

-- A piece without the separator's first byte ends at the separator.
pub split_from_piece :
    (h : ℕ) (t cur a s : Text)
    → Lacks h a
    → split_from (h ∷ t) 0 cur (a ++ ((h ∷ t) ++ s)) ≡ (cur ++ a) ∷ split_from (h ∷ t) 0 [] s
split_from_piece h t cur [] s n =
    split_from_cut h t cur s ∙ ap (λ x. x ∷ split_from (h ∷ t) 0 [] s) (sym (append-nil cur))
split_from_piece h t cur (c ∷ a) s n =
    split_from_step (h ∷ t) cur c (a ++ ((h ∷ t) ++ s)) (unfold is_prefix in ground (arith, n.0))
    ∙ split_from_piece h t (cur ++ c ∷ []) a s n.1
    ∙ ap (λ x. x ∷ split_from (h ∷ t) 0 [] s) (append_assoc cur (c ∷ []) a)

-- Decimal digits, most significant first.
unfoldable pub digits_of : ℕ → ℕ → Text
digits_of zero n = []
digits_of (suc fuel) n =
    let rest = digits_of fuel (n / 10) in
    if ltb n 10 then (48 + n) ∷ [] else rest ++ (48 + n % 10) ∷ []

-- strconv.Itoa(n) for n that is not negative: n + 1 digits are enough.
unfoldable pub itoa : ℕ → Text
unfolding digits_of
itoa n = digits_of (suc n) n

abbrev IsDigit : ℕ → Type 0
IsDigit c = (48 ≤ c) × (c < 58)

digits_of-IsDigit : (fuel n : ℕ) → All IsDigit (digits_of fuel n)
unfolding digits_of
digits_of-IsDigit zero n = tt
digits_of-IsDigit (suc fuel) n = elim (Bool-cases (ltb n 10)) [
  | inl small ↦ rw small ((omega arith, ground arith), tt)
  | inr big ↦ rw big (
      All-append IsDigit (digits_of fuel (n / 10)) _ (digits_of-IsDigit fuel (n / 10))
        ((omega arith, omega arith), tt))
]

pub itoa-Lacks : (b n : ℕ) → (b < 48) ⊎ (57 < b) → Lacks b (itoa n)
unfolding itoa
itoa-Lacks b n h =
    All-mono IsDigit (λ c. c ≢ b) (λ c d. ground arith) (digits_of (suc n) n)
      (digits_of-IsDigit (suc n) n)

-- The number that a numeral stands for, after `acc`; `none` where a byte is no digit.
unfoldable pub numeral : ℕ → Text → Option ℕ
numeral acc [] = some acc
numeral acc (c ∷ s) = elim (leb 48 c && ltb c 58) [
  | true ↦ numeral (acc * 10 + (c - 48)) s
  | false ↦ none
]

numeral-digit :
    (acc c : ℕ) (s : Text) → IsDigit c → numeral acc (c ∷ s) ≡ numeral (acc * 10 + (c - 48)) s
unfolding numeral
numeral-digit acc c s d =
    let digit : (leb 48 c && ltb c 58) ≡ true = ground (arith, d.0, d.1) in rw (digit, numeral) refl

numeral-snoc :
    (acc v c : ℕ) (s : Text)
    → IsDigit c
    → numeral acc s ≡ some v
    → numeral acc (s ++ c ∷ []) ≡ some (v * 10 + (c - 48))
unfolding numeral
numeral-snoc acc v c [] d e =
    let same : acc ≡ v = cc e in numeral-digit acc c [] d ∙ ap (λ a. some (a * 10 + (c - 48))) same
numeral-snoc acc v c (x ∷ s) d e = elim (Bool-cases (leb 48 x && ltb x 58)) [
  | inl digit ↦
      rw (digit, numeral)
        (numeral-snoc (acc * 10 + (x - 48)) v c s d (
          subst (λ b. (elim b [ true ↦ numeral (acc * 10 + (x - 48)) s | false ↦ none ]) ≡ some v)
            digit e))
  | inr other ↦ absurd (
      none-some (
        subst (λ b. (elim b [ true ↦ numeral (acc * 10 + (x - 48)) s | false ↦ none ]) ≡ some v)
          other e))
]
  where
    none-some : none ≡ some v → ⊥
    none-some k = cc k

numeral-one : (k : ℕ) → k < 10 → numeral 0 ((48 + k) ∷ []) ≡ some k
unfolding numeral
numeral-one k lt =
    let digit : (leb 48 (48 + k) && ltb (48 + k) 58) ≡ true = ground arith in
    rw (digit, numeral) (ap (λ j. some j) (omega arith))

numeral-digits_of : (fuel n : ℕ) → n < fuel → numeral 0 (digits_of fuel n) ≡ some n
unfolding digits_of
numeral-digits_of zero n h = absurd (omega arith)
numeral-digits_of (suc fuel) n h = elim (Bool-cases (ltb n 10)) [
  | inl small ↦ rw (small) (numeral-one n (ground (arith, small)))
  | inr big ↦ rw (big) (
      numeral-snoc 0 (n / 10) (48 + n % 10) (digits_of fuel (n / 10)) (omega arith, omega arith)
        (numeral-digits_of fuel (n / 10) (ground (arith, big, h)))
      ∙ ap (λ k. some k) (omega arith))
]

-- A number comes back from its numeral.
pub numeral-itoa : (n : ℕ) → numeral 0 (itoa n) ≡ some n
unfolding itoa
numeral-itoa n = numeral-digits_of (suc n) n (omega arith)
