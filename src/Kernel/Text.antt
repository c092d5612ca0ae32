-- ===== src/Kernel/Text.antt =====
-- What the code uses of Go's package strings, on the code points of a text.
use Prim.Native.Char.{Char, code}
use mathlib.Core.List.{reverse}
use voxelcraft_ai.Prelude.{
  ℕ, ◌-◌, String, Bool, true, false, ◌&&◌, List, [], ◌∷◌, map, leb, ◌==◌, is_space, if◌then◌else◌,
}

abbrev pub codes : String → List ℕ
codes String.[] = []
codes (String.◌∷◌ c s) = code c ∷ codes s

-- unicode.ToUpper, as far as its result can be an ASCII letter: U+0131 gives I, and U+017F gives S.
unfoldable pub to_upper : ℕ → ℕ
to_upper c =
    if leb b'a' c && leb c b'z'
    then c - 32
    else if c == 0x131
    then b'I'
    else if c == 0x17f
    then b'S'
    else c

unfoldable pub drop_spaces : (ℕ → Bool) → List ℕ → List ℕ
drop_spaces space [] = []
drop_spaces space (c ∷ cs) = let rest = drop_spaces space cs in if space c then rest else c ∷ cs

-- strings.TrimSpace
unfoldable pub trim : List ℕ → List ℕ
unfolding drop_spaces
trim cs = reverse (drop_spaces is_space (reverse (drop_spaces is_space cs)))

unfoldable pub same : List ℕ → List ℕ → Bool
same [] [] = true
same (a ∷ xs) (b ∷ ys) = a == b && same xs ys
same _ _ = false

-- strings.TrimSpace(strings.ToUpper(s)), in either order: no space has a case.
unfoldable pub trim_upper : String → List ℕ
unfolding trim to_upper
trim_upper s = trim (map to_upper (codes s))

-- strings.TrimSpace, on the text.
unfoldable pub trim_left : String → String
trim_left String.[] = String.[]
trim_left (String.◌∷◌ c s) =
    let rest = trim_left s in if is_space (code c) then rest else String.◌∷◌ c s

-- A character before what is left of the text behind it.
abbrev keep_right : Char → String → String
keep_right c String.[] = if is_space (code c) then String.[] else String.◌∷◌ c String.[]
keep_right c (String.◌∷◌ d s) = String.◌∷◌ c (String.◌∷◌ d s)

unfoldable pub trim_right : String → String
trim_right String.[] = String.[]
trim_right (String.◌∷◌ c s) = keep_right c (trim_right s)

unfoldable pub trim_space : String → String
unfolding trim_left trim_right is_space
trim_space s = trim_right (trim_left s)
