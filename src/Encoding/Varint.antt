-- ===== src/Encoding/Varint.antt =====
-- encoding/binary: `PutUvarint` and `Uvarint`, seven bits to a byte, the lowest first.
use voxelcraft_ai.Prelude.{
  ℕ, zero, suc, ◌+◌, ◌*◌, ◌/◌, ◌%◌, ◌<◌, ◌≡◌, Option, none, some, List, [], ◌∷◌, ◌++◌, ltb, leb,
  if◌then◌else◌, arith, length, word, All,
}

abbrev pub Bytes : Type 0
Bytes = List ℕ

-- `left` is the number of bytes that may follow: a number has ten bytes at most.
unfoldable pub put_from : (left x : ℕ) → Bytes
put_from zero x = x ∷ []
put_from (suc left) x =
    let rest = put_from left (x / 128) in if ltb x 128 then x ∷ [] else (x % 128 + 128) ∷ rest

unfoldable pub put_uvarint : ℕ → Bytes
unfolding put_from
put_uvarint x = put_from 9 x

-- The next number and how many bytes it took: `none` where the bytes end too early or the number has
-- more than 64 bits.
abbrev next_digit : ℕ → Option (ℕ × ℕ) → Option (ℕ × ℕ)
next_digit b none = none
next_digit b (some (x, n)) = some (b % 128 + 128 * x, suc n)

unfoldable pub uvarint_from : (left : ℕ) → Bytes → Option (ℕ × ℕ)
uvarint_from left [] = none
uvarint_from zero (b ∷ bs) = if leb b 1 then some (b, 1) else none
uvarint_from (suc left) (b ∷ bs) =
    let rest = next_digit b (uvarint_from left bs) in if ltb b 128 then some (b, 1) else rest

unfoldable pub uvarint : Bytes → Option (ℕ × ℕ)
unfolding uvarint_from
uvarint bs = uvarint_from 9 bs

-- What fits in `left` bytes and one bit.
abbrev room : ℕ → ℕ
room zero = 2
room (suc left) = 128 * room left

uvarint_from-put_from :
    (left x : ℕ) (rest : Bytes)
    → x < room left
    → uvarint_from left (put_from left x ++ rest) ≡ some (x, length (put_from left x))
unfolding uvarint_from put_from
uvarint_from-put_from zero x rest h = ground arith
uvarint_from-put_from (suc left) x rest h =
    ground (arith, uvarint_from-put_from left (x / 128) rest)

pub uvarint-put_uvarint :
    (x : ℕ) (rest : Bytes)
    → x < word
    → uvarint (put_uvarint x ++ rest) ≡ some (x, length (put_uvarint x))
unfolding uvarint put_uvarint
uvarint-put_uvarint x rest h = uvarint_from-put_from 9 x rest (omega arith)

uvarint_from_pos : (left : ℕ) (bs : Bytes) (x n : ℕ) → uvarint_from left bs ≡ some (x, n) → 0 < n
unfolding uvarint_from
uvarint_from_pos left [] x n h = ground arith
uvarint_from_pos zero (b ∷ bs) x n h = ground arith
uvarint_from_pos (suc left) (b ∷ bs) x n h = ground arith

-- A number takes a byte at least.
pub uvarint_pos : (bs : Bytes) (x n : ℕ) → uvarint bs ≡ some (x, n) → 0 < n
unfolding uvarint
uvarint_pos bs x n h = uvarint_from_pos 9 bs x n h

put_from_pos : (left x : ℕ) → 0 < length (put_from left x)
unfolding put_from
put_from_pos zero x = omega arith
put_from_pos (suc left) x = ground arith

pub put_uvarint_pos : (x : ℕ) → 0 < length (put_uvarint x)
unfolding put_uvarint
put_uvarint_pos x = put_from_pos 9 x

put_from-bytes : (left x : ℕ) → x < room left → All (λ b. b < 256) (put_from left x)
unfolding put_from
put_from-bytes zero x h = ground arith
put_from-bytes (suc left) x h = ground (arith, put_from-bytes left (x / 128))

-- What is written are bytes.
pub put_uvarint-bytes : (x : ℕ) → x < word → All (λ b. b < 256) (put_uvarint x)
unfolding put_uvarint
put_uvarint-bytes x h = put_from-bytes 9 x (omega arith)
