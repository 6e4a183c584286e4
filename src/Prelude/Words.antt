-- ===== src/Prelude/Words.antt =====
-- Go's int64 as its bit pattern, a number below 2 ^ 64: the results of `+` and `-` wrap, and the
-- order is that of the signed numbers.
use Prim.Native.Nat.{ℕ, ◌+◌, ◌-◌, ◌%◌, ◌^◌, ◌<◌}
use mathlib.Core.Path.{◌≡◌}
use mathlib.Core.Bool.{Bool}
use native.Mathlib.Omega.{arith}
use analytics_core.Prelude.Tests.{ltb}

abbrev pub word : ℕ
word = 2 ^ 64

-- The patterns below `half_word` are the integers that are not negative.
abbrev pub half_word : ℕ
half_word = 2 ^ 63

abbrev pub add64 : ℕ → ℕ → ℕ
add64 a b = (a + b) % word

abbrev pub sub64 : ℕ → ℕ → ℕ
sub64 a b = (a + word - b) % word

-- The signed order: flipping the sign bit makes it the order of the patterns.
abbrev pub lt64 : ℕ → ℕ → Bool
lt64 a b = ltb ((a + half_word) % word) ((b + half_word) % word)

pub lt64-ltb : (a b : ℕ) → a < half_word → b < half_word → lt64 a b ≡ ltb a b
lt64-ltb a b p q = ground arith

-- The same for int32.
abbrev pub half_word32 : ℕ
half_word32 = 2 ^ 31

abbrev pub word32 : ℕ
word32 = 2 ^ 32

abbrev pub add32 : ℕ → ℕ → ℕ
add32 a b = (a + b) % word32

abbrev pub sub32 : ℕ → ℕ → ℕ
sub32 a b = (a + word32 - b) % word32
