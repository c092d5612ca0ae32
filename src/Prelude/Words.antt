-- ===== src/Prelude/Words.antt =====
-- Go's 64-bit numbers as bit patterns below 2 ^ 64: `uint64` reads the pattern as it is, and `int`
-- reads it in two's complement. Sums, differences and products wrap.
use Prim.Native.Nat.{ℕ, ◌+◌, ◌-◌, ◌*◌, ◌%◌, ◌^◌, ◌<◌}
use mathlib.Core.Path.{◌≡◌}
use mathlib.Core.Bool.{Bool, true}
use native.Mathlib.Omega.{arith}
use voxelcraft_ai.Prelude.Tests.{ltb, leb}

abbrev pub word : ℕ
word = 2 ^ 64

abbrev pub half : ℕ
half = 2 ^ 63

abbrev pub add64 : ℕ → ℕ → ℕ
add64 a b = (a + b) % word

abbrev pub sub64 : ℕ → ℕ → ℕ
sub64 a b = (a + (word - b % word)) % word

abbrev pub mul64 : ℕ → ℕ → ℕ
mul64 a b = a * b % word

-- Orders of `int`: adding 2 ^ 63 takes two's complement order to the order of the patterns.
abbrev pub lt_int : ℕ → ℕ → Bool
lt_int a b = ltb ((a + half) % word) ((b + half) % word)

abbrev pub le_int : ℕ → ℕ → Bool
le_int a b = leb ((a + half) % word) ((b + half) % word)

pub sub64-add64 : (a b c : ℕ) → add64 (sub64 a c) (add64 b c) ≡ add64 a b
sub64-add64 a b c = omega arith

pub add64-lt : (a b : ℕ) → add64 a b < word
add64-lt a b = omega arith

pub sub64-lt : (a b : ℕ) → sub64 a b < word
sub64-lt a b = omega arith

pub lt_int-ltb : (a b : ℕ) → a < half → b < half → lt_int a b ≡ ltb a b
lt_int-ltb a b h k = ground arith

-- A count that passes the test `0 < n` of `int` is a number below 2 ^ 63 other than 0.
pub lt_int-zero : (n : ℕ) → n < word → lt_int 0 n ≡ true → (0 < n) × (n < half)
lt_int-zero n h k = ground arith
