-- ===== src/Tests/Encoding.antt =====
-- The codec of chunks on a few ids.
use voxelcraft_ai.Prelude.{ℕ, ◌≡◌, List, [], ◌∷◌, arith}
use voxelcraft_ai.Encoding.Rle.{encode_rle, decode_rle, ok}
use voxelcraft_ai.Encoding.Rle.RoundTrip.{decode_rle-encode_rle}
use voxelcraft_ai.Encoding.Rle.Total.{IsSettled, decode_rle-IsSettled}

-- A run of three, and the largest id.
abbrev blocks : List ℕ
blocks = 1 ∷ 1 ∷ 1 ∷ 65535 ∷ []

decode_rle-encode_rle_example : decode_rle (encode_rle blocks) ≡ ok blocks
decode_rle-encode_rle_example =
    decode_rle-encode_rle blocks (omega arith, (omega arith, (omega arith, (omega arith, tt))))

-- The second id is too large.
abbrev pairs : List (ℕ × ℕ)
pairs = (7, 3) ∷ (65536, 2) ∷ []

decode_rle-IsSettled_example : IsSettled (decode_rle (66 ∷ 119 ∷ 77 ∷ 33 ∷ []))
decode_rle-IsSettled_example = decode_rle-IsSettled (66 ∷ 119 ∷ 77 ∷ 33 ∷ [])
