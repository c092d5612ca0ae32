-- ===== src/Encoding/Rle/RoundTrip.antt =====
-- What `DecodeRLE` makes of each list of pairs, and that it gives back what `EncodeRLE` was given.
use voxelcraft_ai.Prelude.{
  ℕ, zero, suc, ◌+◌, ◌-◌, ◌≤◌, ◌<◌, ◌≡◌, refl, ap, ◌∙◌, true, false, List, [], ◌∷◌, ◌++◌, ltb,
  if◌then◌else◌, arith, length, length-append, drop, replicate, word, half, All, All-append,
  All-drop, length-drop,
}
use voxelcraft_ai.Encoding.Varint.{Bytes, put_uvarint, put_uvarint_pos, put_uvarint-bytes}
use voxelcraft_ai.Encoding.Base64.{encode_to_string, decode_string-encode_to_string}
use voxelcraft_ai.Encoding.Rle.{
  count_run, Decoded, ok, block_id_too_large, before, appended, decode_from, encode_from,
  encode_rle, decode_rle,
}
use voxelcraft_ai.Encoding.Rle.Runs.{Counts, count_run-Counts, decode_from_pair}

-- Pairs of a block id and a count, as they are written.
unfoldable pub bytes : List (ℕ × ℕ) → Bytes
bytes [] = []
bytes ((b, run) ∷ ps) = put_uvarint b ++ (put_uvarint run ++ bytes ps)

-- What they mean: each id as often as its count says, up to the first pair whose id has more than
-- 16 bits.
unfoldable pub expand : List (ℕ × ℕ) → Decoded
expand [] = ok []
expand ((b, run) ∷ ps) =
    let later = before (appended b run) (expand ps) in
    if ltb 0xffff b then block_id_too_large b else later

abbrev pub IsPair : ℕ × ℕ → Type 0
IsPair (b, run) = (b < word) × (run < word)

decode_from-bytes :
    (ps : List (ℕ × ℕ)) (fuel i : ℕ)
    → All IsPair ps
    → length (bytes ps) ≤ fuel
    → decode_from fuel i (bytes ps) ≡ expand ps
unfolding bytes expand
decode_from-bytes [] zero i h e = unfold decode_from in refl
decode_from-bytes [] (suc fuel) i h e = unfold decode_from in refl
decode_from-bytes ((b, run) ∷ ps) fuel i h e =
    let sizes = length-append (put_uvarint b) (put_uvarint run ++ bytes ps) in
    let sizes' = length-append (put_uvarint run) (bytes ps) in
    let more : fuel ≡ suc (fuel - 1) = omega (arith, put_uvarint_pos b) in
    let i' = i + length (put_uvarint b) + length (put_uvarint run) in
    let later = decode_from-bytes ps (fuel - 1) i' h.1 (omega (arith, put_uvarint_pos b)) in
    rw (more, decode_from_pair (fuel - 1) i b run (bytes ps) h.0.0 h.0.1, later)

bytes-bytes : (ps : List (ℕ × ℕ)) → All IsPair ps → All (λ b. b < 256) (bytes ps)
unfolding bytes
bytes-bytes [] h = tt
bytes-bytes ((b, run) ∷ ps) h =
    All-append _ (put_uvarint b) (put_uvarint run ++ bytes ps) (put_uvarint-bytes b h.0.0)
      (All-append _ (put_uvarint run) (bytes ps) (put_uvarint-bytes run h.0.1) (bytes-bytes ps h.1))

pub decode_rle-bytes :
    (ps : List (ℕ × ℕ)) → All IsPair ps → decode_rle (encode_to_string (bytes ps)) ≡ expand ps
unfolding decode_rle
decode_rle-bytes ps h =
    rw (decode_string-encode_to_string (bytes ps) (bytes-bytes ps h))
      (decode_from-bytes ps (length (bytes ps)) 0 h (omega arith))

abbrev pub IsBlockId : ℕ → Type 0
IsBlockId id = id < 0x10000

-- What `EncodeRLE` writes are pairs that mean the ids.
record Encodes (ids : List ℕ) (raw : Bytes) : Type 0 where
  pairs : List (ℕ × ℕ)
  written : raw ≡ bytes pairs
  good : All IsPair pairs
  meant : expand pairs ≡ ok ids

Encodes-run :
    (b n : ℕ) (ids : List ℕ) (raw : Bytes)
    → IsBlockId b
    → Counts b 1 n ids
    → Encodes (drop n (b ∷ ids)) raw
    → Encodes (b ∷ ids) (put_uvarint b ++ (put_uvarint n ++ raw))
unfolding bytes expand appended
Encodes-run b n ids raw h c e =
    let back : n ≡ suc (n - 1) = omega (arith, c.grows) in
    let all : replicate n b ++ drop n (b ∷ ids) ≡ b ∷ ids = rw back (ap (λ l. b ∷ l) c.splits) in
    let small : ltb 0xffff b ≡ false = ground arith in
    let positive : ltb n half ≡ true = ground (arith, c.small) in
    record {
      pairs = (b, n) ∷ e.pairs;
      written = rw e.written;
      good = ((omega arith, omega (arith, c.small)), e.good);
      meant = rw (small, positive, e.meant, all);
    }

encode_from-Encodes :
    (fuel : ℕ) (ids : List ℕ)
    → length ids ≤ fuel
    → All IsBlockId ids
    → Encodes ids (encode_from fuel ids)
unfolding encode_from
encode_from-Encodes zero [] h a = record {
  pairs = [];
  written = unfold bytes in refl;
  good = tt;
  meant = unfold expand in refl;
}
encode_from-Encodes zero (b ∷ ids) h a = absurd (omega arith)
encode_from-Encodes (suc fuel) [] h a = record {
  pairs = [];
  written = unfold bytes in refl;
  good = tt;
  meant = unfold expand in refl;
}
encode_from-Encodes (suc fuel) (b ∷ ids) h a =
    let n = count_run b 1 ids in
    let c = count_run-Counts b 1 ids (omega arith) in
    let left = length-drop n (b ∷ ids) in
    Encodes-run b n ids (encode_from fuel (drop n (b ∷ ids))) a.0 c (
      encode_from-Encodes fuel (drop n (b ∷ ids)) (omega (arith, c.grows))
        (All-drop IsBlockId n (b ∷ ids) a))

-- Of any sequence of 16-bit block ids, decoding what EncodeRLE writes gives the sequence back.
pub decode_rle-encode_rle :
    (ids : List ℕ) → All IsBlockId ids → decode_rle (encode_rle ids) ≡ ok ids
unfolding encode_rle
decode_rle-encode_rle ids a =
    let e = encode_from-Encodes (length ids) ids (omega arith) a in
    rw e.written (decode_rle-bytes e.pairs e.good ∙ e.meant)
