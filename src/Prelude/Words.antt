-- ===== src/Prelude/Words.antt =====
-- Go's int as a 64-bit word: its bit pattern, a number below 2 ^ 64.
use Prim.Native.Nat.{ℕ, ◌+◌, ◌-◌, ◌%◌, ◌≤◌, ◌<◌}
use mathlib.Core.Path.{◌≡◌}
use mathlib.Core.Bool.{Bool}
use native.Mathlib.Omega.{arith}
use airline_booking.Prelude.Tests.{ltb}

abbrev pub word : ℕ
word = 0x1_0000_0000_0000_0000

abbrev pub half : ℕ
half = 0x8000_0000_0000_0000

-- a - b, which wraps.
abbrev pub sub64 : ℕ → ℕ → ℕ
sub64 a b = (a + (word - b)) % word

-- a < b for signed words: adding half of the range turns their order into that of ℕ.
abbrev pub lt64 : ℕ → ℕ → Bool
lt64 a b = ltb ((a + half) % word) ((b + half) % word)

-- The words that are not negative.
abbrev pub IsNonNegative : ℕ → Type 0
IsNonNegative a = a < half

pub lt64-ltb : (a b : ℕ) → IsNonNegative a → IsNonNegative b → lt64 a b ≡ ltb a b
lt64-ltb a b ha hb = ground arith

pub sub64_exact : (a b : ℕ) → IsNonNegative a → b ≤ a → sub64 a b ≡ a - b
sub64_exact a b ha le = omega arith
