-- ===== src/Encoding/Rle/Runs.antt =====
-- The run that `EncodeRLE` counts, and one round of `DecodeRLE`.
use voxelcraft_ai.Prelude.{
  ℕ, suc, ◌+◌, ◌-◌, ◌≤◌, ◌<◌, ◌≡◌, refl, ap, ◌∙◌, Bool-cases, ◌&&◌, inl, inr, List, [], ◌∷◌, ◌++◌,
  ltb, ◌==◌, if◌then◌else◌, arith, length, length-append, drop, replicate, word,
}
use voxelcraft_ai.Encoding.Varint.{
  Bytes, put_uvarint, uvarint, uvarint-put_uvarint, put_uvarint_pos,
}
use voxelcraft_ai.Encoding.Rle.{
  max_run, count_run, block_id_too_large, before, round, first_number, appended, decode_from,
}

-- The ids from the run on are equal to `b` as far as it was counted.
pub record Counts (b run n : ℕ) (ids : List ℕ) : Type 0 where
  pub grows : run ≤ n
  pub small : n ≤ max_run
  pub splits : replicate (n - run) b ++ drop (n - run) ids ≡ ids

count_run-next :
    {b run n id : ℕ} {ids : List ℕ} → id ≡ b → Counts b (run + 1) n ids → Counts b run n (id ∷ ids)
count_run-next {b} {run} {n} {id} {ids} e c =
    let back : n - run ≡ suc (n - (run + 1)) = omega (arith, c.grows) in
    record {
      grows = omega (arith, c.grows);
      small = c.small;
      splits = rw (back, e) (ap (λ l. b ∷ l) c.splits);
    }

-- The run ends.
Counts-here : (b run : ℕ) (ids : List ℕ) → run ≤ max_run → Counts b run run ids
Counts-here b run ids h =
    let none_more : run - run ≡ 0 = omega arith in
    record { grows = omega arith; small = h; splits = rw none_more refl }

pub count_run-Counts :
    (b run : ℕ) (ids : List ℕ) → run ≤ max_run → Counts b run (count_run b run ids) ids
unfolding count_run
count_run-Counts b run [] h = Counts-here b run [] h
count_run-Counts b run (id ∷ ids) h = elim (Bool-cases (id == b && ltb run max_run)) [
  | inl on ↦ rw on (count_run-next (ground arith) (count_run-Counts b (run + 1) ids (ground arith)))
  | inr off ↦ rw off (Counts-here b run (id ∷ ids) h)
]

pub drop-append : (xs ys : Bytes) → drop (length xs) (xs ++ ys) ≡ ys
drop-append [] ys = refl
drop-append (x ∷ xs) ys = drop-append xs ys

decode_from-round :
    (fuel i : ℕ) (raw : Bytes)
    → 0 < length raw
    → decode_from (suc fuel) i raw
      ≡ first_number i (uvarint raw) λ (b, n).
        round
          (i + n)
          b
          (uvarint (drop n raw))
          λ (run, n'). decode_from fuel (i + n + n') (drop n' (drop n raw))
unfolding decode_from
decode_from-round fuel i [] h = absurd (omega arith)
decode_from-round fuel i (c ∷ raw) h = refl

-- A pair of numbers and the rest.
pub decode_from_pair :
    (fuel i b run : ℕ) (rest : Bytes)
    → b < word
    → run < word
    → decode_from (suc fuel) i (put_uvarint b ++ (put_uvarint run ++ rest)) ≡ (
        if ltb 0xffff b
        then block_id_too_large b
        else before
            (appended b run)
            (decode_from fuel (i + length (put_uvarint b) + length (put_uvarint run)) rest))
decode_from_pair fuel i b run rest hb hr =
    decode_from-round fuel i (put_uvarint b ++ (put_uvarint run ++ rest)) (
      omega (arith, put_uvarint_pos b, length-append {0} (put_uvarint b) (put_uvarint run ++ rest)))
    ∙ rw (
      uvarint-put_uvarint b (put_uvarint run ++ rest) hb,
      drop-append,
      uvarint-put_uvarint run rest hr,
      drop-append,
    )
