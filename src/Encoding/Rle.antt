-- ===== src/Encoding/Rle.antt =====
-- internal/sim/encoding/rle.go: `EncodeRLE` and `DecodeRLE`. Block ids are `uint16`.
pub mod Runs
pub mod RoundTrip
pub mod Total
use voxelcraft_ai.Prelude.{
  ℕ, zero, suc, ◌+◌, ◌-◌, ◌^◌, Bool, true, false, ◌&&◌, Option, none, some, List, [], ◌∷◌, ◌++◌,
  ltb, ◌==◌, if◌then◌else◌, length, drop, replicate, half,
}
use voxelcraft_ai.Encoding.Varint.{Bytes, put_uvarint, uvarint}
use voxelcraft_ai.Encoding.Base64.{encode_to_string, decode_string}

abbrev pub max_run : ℕ
max_run = 2 ^ 31

-- The inner loop: `run` of the ids before are `b`.
unfoldable pub count_run : (b run : ℕ) → List ℕ → ℕ
count_run b run [] = run
count_run b run (id ∷ ids) =
    let more = count_run b (run + 1) ids in if id == b && ltb run max_run then more else run

-- The outer loop, on the ids from `i` on; a round takes one id at least.
unfoldable pub encode_from : (fuel : ℕ) → List ℕ → Bytes
unfolding count_run
encode_from zero ids = []
encode_from (suc fuel) [] = []
encode_from (suc fuel) (b ∷ ids) =
    let run = count_run b 1 ids in
    put_uvarint b ++ (put_uvarint run ++ encode_from fuel (drop run (b ∷ ids)))

unfoldable pub encode_rle : List ℕ → Bytes
unfolding encode_from
encode_rle ids = encode_to_string (encode_from (length ids) ids)

pub data Decoded : Type 0 where
  ok : List ℕ → Decoded
  bad_base64 : Decoded
  bad_varint : (at : ℕ) → Decoded
  block_id_too_large : (id : ℕ) → Decoded
  out_of_fuel : Decoded

-- `for k := 0; k < int(run); k++`: a count from 2 ^ 63 on is negative.
unfoldable pub appended : ℕ → ℕ → List ℕ
appended b run = if ltb run half then replicate run b else []

-- The ids so far stand before those of a later round.
abbrev pub before : List ℕ → Decoded → Decoded
before ids (ok later) = ok (ids ++ later)
before ids r = r

-- One round, from the two numbers that were read: `i` is where the second begins, and `rest` decodes
-- from where it ends.
abbrev pub round : (i : ℕ) (b : ℕ) → Option (ℕ × ℕ) → (ℕ × ℕ → Decoded) → Decoded
round i b none rest = bad_varint i
round i b (some (run, n)) rest =
    if ltb 0xffff b then block_id_too_large b else before (appended b run) (rest (run, n))

abbrev pub first_number : (i : ℕ) → Option (ℕ × ℕ) → (ℕ × ℕ → Decoded) → Decoded
first_number i none rest = bad_varint i
first_number i (some (b, n)) rest = rest (b, n)

-- The outer loop, at position `i` with the bytes from there on; `fuel` bounds its rounds.
unfoldable pub decode_from : (fuel i : ℕ) → Bytes → Decoded
decode_from zero i [] = ok []
decode_from zero i (c ∷ raw) = out_of_fuel
decode_from (suc fuel) i [] = ok []
decode_from (suc fuel) i (c ∷ raw) = first_number i (uvarint (c ∷ raw)) λ (b, n).
    round (i + n) b (uvarint (drop n (c ∷ raw)))
      λ (run, n'). decode_from fuel (i + n + n') (drop n' (drop n (c ∷ raw)))

abbrev pub decode_raw : Option Bytes → Decoded
decode_raw none = bad_base64
decode_raw (some raw) = decode_from (length raw) 0 raw

unfoldable pub decode_rle : Bytes → Decoded
unfolding decode_from
decode_rle text = decode_raw (decode_string text)
