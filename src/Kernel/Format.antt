-- ===== src/Kernel/Format.antt =====
-- The ids that the world formats: `fmt.Sprintf("C%06d", n)` and its kin, for a `uint64`.
pub mod Injective
use Prim.Native.Char.{Char}
use Prim.Native.String.{◌++◌}
use voxelcraft_ai.Prelude.{
  ℕ, zero, suc, ◌-◌, ◌/◌, ◌%◌, ◌==◌, ◌&&◌, String, if◌then◌else◌, List, [], ◌∷◌,
}

nth : List Char → ℕ → Char
nth [] d = "9"
nth (c ∷ cs) zero = c
nth (c ∷ cs) (suc d) = nth cs d

digit_char : ℕ → Char
unfolding nth
digit_char d = nth ("0" ∷ "1" ∷ "2" ∷ "3" ∷ "4" ∷ "5" ∷ "6" ∷ "7" ∷ "8" ∷ []) d

digit : ℕ → String
unfolding digit_char
digit d = String.◌∷◌ (digit_char d) String.[]

-- At least `width` digits; a `uint64` has at most 20, which is the fuel.
digits : ℕ → ℕ → ℕ → String
unfolding digit
digits zero width n = ""
digits (suc fuel) width n =
    let before = digits fuel (width - 1) (n / 10) in
    if n == 0 && width == 0 then "" else before ++ digit (n % 10)

pub numbered : String → ℕ → String
unfolding digits
numbered prefix n = prefix ++ digits 20 6 n
