-- ===== src/Economy/Floats.antt =====
-- Go's float64 and its conversions, which the language gives: a parameter of the code that uses it.
-- Nothing is assumed of it but that a conversion gives an `int`, so what is proved holds whatever
-- the roundings are.
use voxelcraft_ai.Prelude.{ℕ, ◌/◌, ◌*◌, ◌%◌, ◌<◌, Bool, ltb, leb, word, arith}

pub record Floats : Type 1 where
  pub Float : Type 0
  pub zero_f : Float
  pub one_f : Float
  pub lt_f : Float → Float → Bool
  pub le_f : Float → Float → Bool
  pub mul_f : Float → Float → Float
  pub of_int : ℕ → Float  -- float64(n), of an `int` pattern
  pub to_int : Float → ℕ  -- int(f), an `int` pattern
  pub to_int-lt : (f : Float) → to_int f < word

pub wrap-lt : (a : ℕ) → a % word < word
wrap-lt a = omega arith

-- Thousandths, which serve for the concrete instances.
abbrev pub thousandths : Floats
thousandths = record {
  Float = ℕ;
  zero_f = 0;
  one_f = 1000;
  lt_f = ltb;
  le_f = leb;
  mul_f = λ a b. a * b / 1000;
  of_int = λ n. n * 1000;
  to_int = λ a. a / 1000 % word;
  to_int-lt = λ a. wrap-lt (a / 1000);
}
