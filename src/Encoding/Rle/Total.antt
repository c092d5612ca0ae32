-- ===== src/Encoding/Rle/Total.antt =====
-- Every text is decoded or refused within as many rounds as it has bytes.
use voxelcraft_ai.Prelude.{
  ℕ, zero, suc, ◌+◌, ◌≤◌, ◌<◌, ◌≡◌, refl, Bool-cases, Option, none, some, inl, inr, List, [], ◌∷◌,
  ltb, arith, length, length-drop, drop, replicate, half, All, All-append,
}
use voxelcraft_ai.Encoding.Varint.{Bytes, uvarint, uvarint_pos}
use voxelcraft_ai.Encoding.Base64.{decode_string}
use voxelcraft_ai.Encoding.Rle.{
  Decoded, ok, out_of_fuel, bad_varint, bad_base64, block_id_too_large, before, round, first_number,
  appended, decode_from, decode_raw, decode_rle,
}
use voxelcraft_ai.Encoding.Rle.RoundTrip.{IsBlockId}

-- The loop has ended, and what it returned are ids of 16 bits, or an id that is not.
abbrev pub IsSettled : Decoded → Type 0
IsSettled (ok ids) = All IsBlockId ids
IsSettled (block_id_too_large id) = 0xffff < id
IsSettled out_of_fuel = ⊥
IsSettled _ = Unit

All-replicate : (n b : ℕ) → IsBlockId b → All IsBlockId (replicate n b)
All-replicate zero b h = tt
All-replicate (suc n) b h = (h, All-replicate n b h)

appended-ids : (b run : ℕ) → IsBlockId b → All IsBlockId (appended b run)
unfolding appended
appended-ids b run h = elim (Bool-cases (ltb run half)) [
  | inl few ↦ rw few (All-replicate run b h)
  | inr many ↦ rw many tt
]

before-IsSettled :
    (ids : List ℕ) (r : Decoded) → All IsBlockId ids → IsSettled r → IsSettled (before ids r)
before-IsSettled ids (ok later) h s = All-append _ ids later h s
before-IsSettled ids bad_base64 h s = tt
before-IsSettled ids (bad_varint i) h s = tt
before-IsSettled ids (block_id_too_large id) h s = s
before-IsSettled ids out_of_fuel h s = s

round-IsSettled :
    (i b : ℕ) (next : Option (ℕ × ℕ)) (rest : ℕ × ℕ → Decoded)
    → ((p : ℕ × ℕ) → next ≡ some p → IsSettled (rest p))
    → IsSettled (round i b next rest)
round-IsSettled i b none rest h = tt
round-IsSettled i b (some (run, n)) rest h = elim (Bool-cases (ltb 0xffff b)) [
  | inl large ↦ rw large (ground arith)
  | inr fits ↦ rw fits (
      before-IsSettled (appended b run) (rest (run, n)) (appended-ids b run (ground arith))
        (h (run, n) refl))
]

first_number-IsSettled :
    (i : ℕ) (next : Option (ℕ × ℕ)) (rest : ℕ × ℕ → Decoded)
    → ((p : ℕ × ℕ) → next ≡ some p → IsSettled (rest p))
    → IsSettled (first_number i next rest)
first_number-IsSettled i none rest h = tt
first_number-IsSettled i (some p) rest h = h p refl

decode_from-IsSettled :
    (fuel i : ℕ) (raw : Bytes) → length raw ≤ fuel → IsSettled (decode_from fuel i raw)
unfolding decode_from
decode_from-IsSettled zero i [] h = tt
decode_from-IsSettled zero i (c ∷ raw) h = absurd (omega arith)
decode_from-IsSettled (suc fuel) i [] h = tt
decode_from-IsSettled (suc fuel) i (c ∷ raw) h =
    first_number-IsSettled i (uvarint (c ∷ raw)) _ λ (b, n) e.
      round-IsSettled (i + n) b (uvarint (drop n (c ∷ raw))) _ λ (run, n') e'.
        decode_from-IsSettled fuel (i + n + n') (drop n' (drop n (c ∷ raw))) (
          omega (
            arith,
            uvarint_pos (c ∷ raw) b n e,
            length-drop n (c ∷ raw),
            length-drop n' (drop n (c ∷ raw)),
          ))

-- On every text DecodeRLE returns, with an error or with ids of 16 bits: it never runs out of its
-- rounds, one for each byte.
pub decode_rle-IsSettled : (text : Bytes) → IsSettled (decode_rle text)
unfolding decode_rle
decode_rle-IsSettled text = settled (decode_string text)
  where
    settled : (raw : Option Bytes) → IsSettled (decode_raw raw)
    settled none = tt
    settled (some raw) = decode_from-IsSettled (length raw) 0 raw (omega arith)
