-- ===== src/Encoding/Base64.antt =====
-- encoding/base64: `StdEncoding`, on the bytes of a text. `DecodeString` skips line ends, wants the
-- padding, and does not look at the bits that the last digit has too many.
use voxelcraft_ai.Prelude.{
  ℕ, ◌+◌, ◌-◌, ◌*◌, ◌/◌, ◌%◌, ◌<◌, ◌≡◌, ◌&&◌, ◌||◌, Option, none, some, [], ◌∷◌, ltb, leb, ◌==◌,
  if◌then◌else◌, arith, refl, All, false,
}
use voxelcraft_ai.Encoding.Varint.{Bytes}

digit : ℕ → ℕ
digit n =
    if ltb n 26
    then n + b'A'
    else if ltb n 52
    then n - 26 + b'a'
    else if ltb n 62
    then n - 52 + b'0'
    else if n == 62
    then b'+'
    else b'/'

value : ℕ → Option ℕ
value c =
    if leb b'A' c && leb c b'Z'
    then some (c - b'A')
    else if leb b'a' c && leb c b'z'
    then some (c - b'a' + 26)
    else if leb b'0' c && leb c b'9'
    then some (c - b'0' + 52)
    else if c == b'+'
    then some 62
    else if c == b'/'
    then some 63
    else none

unfoldable pub encode_to_string : Bytes → Bytes
unfolding digit
encode_to_string [] = []
encode_to_string (a ∷ []) = digit (a / 4) ∷ digit (a % 4 * 16) ∷ b'=' ∷ b'=' ∷ []
encode_to_string (a ∷ b ∷ []) =
    digit (a / 4) ∷ digit (a % 4 * 16 + b / 16) ∷ digit (b % 16 * 4) ∷ b'=' ∷ []
encode_to_string (a ∷ b ∷ c ∷ bs) =
    digit (a / 4)
    ∷ digit (a % 4 * 16 + b / 16)
    ∷ digit (b % 16 * 4 + c / 64)
    ∷ digit (c % 64)
    ∷ encode_to_string bs

unfoldable pub without_line_ends : Bytes → Bytes
without_line_ends [] = []
without_line_ends (c ∷ cs) =
    let rest = without_line_ends cs in if c == b'\n' || c == b'\r' then rest else c ∷ rest

abbrev first_byte : ℕ → ℕ → ℕ
first_byte a b = a * 4 + b / 16

abbrev second_byte : ℕ → ℕ → ℕ
second_byte b c = b % 16 * 16 + c / 4

abbrev third_byte : ℕ → ℕ → ℕ
third_byte c d = c % 4 * 64 + d

-- Four digits before the rest, which is read too.
abbrev quantum : Option ℕ → Option ℕ → Option ℕ → Option ℕ → Option Bytes → Option Bytes
quantum (some a) (some b) (some c) (some d) (some bs) =
    some (first_byte a b ∷ second_byte b c ∷ third_byte c d ∷ bs)
quantum _ _ _ _ _ = none

-- Three digits before `=`.
abbrev two_bytes : Option ℕ → Option ℕ → Option ℕ → Option Bytes
two_bytes (some a) (some b) (some c) = some (first_byte a b ∷ second_byte b c ∷ [])
two_bytes _ _ _ = none

-- Two digits before `==`.
abbrev one_byte : Option ℕ → Option ℕ → Option Bytes
one_byte (some a) (some b) = some (first_byte a b ∷ [])
one_byte _ _ = none

-- Nothing follows the padding.
abbrev at_end : Bytes → Option Bytes → Option Bytes
at_end [] bs = bs
at_end (c ∷ cs) bs = none

unfoldable pub decode_quanta : Bytes → Option Bytes
unfolding value
decode_quanta [] = some []
decode_quanta (a ∷ b ∷ c ∷ d ∷ cs) =
    let full = quantum (value a) (value b) (value c) (value d) (decode_quanta cs) in
    if c == b'='
    then if d == b'=' then at_end cs (one_byte (value a) (value b)) else none
    else if d == b'='
    then at_end cs (two_bytes (value a) (value b) (value c))
    else full
decode_quanta _ = none

unfoldable pub decode_string : Bytes → Option Bytes
unfolding decode_quanta without_line_ends
decode_string text = decode_quanta (without_line_ends text)

value-digit : (n : ℕ) → n < 64 → value (digit n) ≡ some n
unfolding value digit
value-digit n h = ground arith

digit-plain :
    (n : ℕ)
    → n < 64
    → (digit n == b'=' ≡ false) × (digit n == b'\n' ≡ false) × (digit n == b'\r' ≡ false)
unfolding digit
digit-plain n h = ground arith

without_line_ends-encode_to_string :
    (bs : Bytes)
    → All (λ b. b < 256) bs
    → without_line_ends (encode_to_string bs) ≡ encode_to_string bs
unfolding without_line_ends encode_to_string
without_line_ends-encode_to_string [] h = refl
without_line_ends-encode_to_string (a ∷ []) h =
    ground (arith, digit-plain (a / 4), digit-plain (a % 4 * 16))
without_line_ends-encode_to_string (a ∷ b ∷ []) h =
    ground (arith, digit-plain (a / 4), digit-plain (a % 4 * 16 + b / 16), digit-plain (b % 16 * 4))
without_line_ends-encode_to_string (a ∷ b ∷ c ∷ bs) h = ground (
  arith,
  digit-plain (a / 4),
  digit-plain (a % 4 * 16 + b / 16),
  digit-plain (b % 16 * 4 + c / 64),
  digit-plain (c % 64),
  without_line_ends-encode_to_string bs,
)

decode_quanta-encode_to_string :
    (bs : Bytes) → All (λ b. b < 256) bs → decode_quanta (encode_to_string bs) ≡ some bs
unfolding decode_quanta encode_to_string
decode_quanta-encode_to_string [] h = refl
decode_quanta-encode_to_string (a ∷ []) h =
    ground (arith, digit-plain (a / 4), value-digit (a / 4), value-digit (a % 4 * 16))
decode_quanta-encode_to_string (a ∷ b ∷ []) h = ground (
  arith,
  digit-plain (b % 16 * 4),
  value-digit (a / 4),
  value-digit (a % 4 * 16 + b / 16),
  value-digit (b % 16 * 4),
)
decode_quanta-encode_to_string (a ∷ b ∷ c ∷ bs) h = ground (
  arith,
  digit-plain (b % 16 * 4 + c / 64),
  digit-plain (c % 64),
  value-digit (a / 4),
  value-digit (a % 4 * 16 + b / 16),
  value-digit (b % 16 * 4 + c / 64),
  value-digit (c % 64),
  decode_quanta-encode_to_string bs,
)

-- Decoding gives back the bytes that were encoded.
pub decode_string-encode_to_string :
    (bs : Bytes) → All (λ b. b < 256) bs → decode_string (encode_to_string bs) ≡ some bs
unfolding decode_string
decode_string-encode_to_string bs h =
    rw (without_line_ends-encode_to_string bs h) (decode_quanta-encode_to_string bs h)
