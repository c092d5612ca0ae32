-- ===== src/Economy/Inventory/Parse.antt =====
-- What `ParseItemPairs` of feature/economy/inventory/inventory.go reads, and where its sums wrap.
use voxelcraft_ai.Prelude.{
  ℕ, ◌+◌, ◌%◌, ◌≡◌, String, List, [], ◌∷◌, none, some, arith, str_eq, eq_iff, if◌then◌else◌, word,
  add64, Map, HasDistinctKeys, get, insert, get-insert, insert-HasDistinctKeys, get-empty,
  Option-cases, inl, inr,
}
use voxelcraft_ai.Economy.Floats.{Floats}
use voxelcraft_ai.Economy.Heap.{Heap}
use voxelcraft_ai.Economy.Inventory.{Value, text, float, pair_of, parse_from, parse_item_pairs}

module _ (fl : Floats) where
  -- The counts of an item's pairs, summed without wrapping.
  abbrev pub tally : String → List (List (Value fl)) → ℕ
  tally j [] = 0
  tally j (p ∷ ps) =
      elim (pair_of fl p) [ none ↦ 0 | some (item, n) ↦ if str_eq item j then n else 0 ]
      + tally j ps

  parse_from_lem :
      (out : Map ℕ) (ps : List (List (Value fl))) (j : String) {m : Map ℕ}
      → HasDistinctKeys out
      → parse_from fl out ps ≡ some m
      → HasDistinctKeys m × (get m j % word ≡ (get out j + tally j ps) % word)
  unfolding parse_from
  parse_from_lem out [] j {m} d e = let q : out ≡ m = cc in rw (← q) (d, omega arith)
  parse_from_lem out (p ∷ ps) j d e = elim (Option-cases (pair_of fl p)) [
    | inl bad ↦ cc (rw (bad, parse_from) at e)
    | inr ((item, n), good) ↦
        let out' = insert item (add64 (get out item) n) out in
        let (distinct, sum) =
          parse_from_lem out' ps j (insert-HasDistinctKeys item _ out d)
            (rw (good, parse_from) at e) in
        (
          distinct,
          rw good
              (ground (arith, sum, get-insert item j (add64 (get out item) n) out, eq_iff item j)),
        )
  ]

  -- Every count that ParseItemPairs reads is the sum of the pairs of its item modulo 2 ^ 64, and
  -- no item stands twice.
  pub parse_item_pairs_lem :
      (ps : List (List (Value fl))) (j : String) {m : Map ℕ}
      → parse_item_pairs fl ps ≡ some m
      → HasDistinctKeys m × (get m j % word ≡ tally j ps % word)
  unfolding parse_item_pairs
  parse_item_pairs_lem ps j e =
      let r = parse_from_lem [] ps j tt e in (r.0, omega (arith, r.1, get-empty j))

  -- The wanted item twice, with counts whose sum passes 2 ^ 63.
  abbrev pub twice : String → fl.Float → fl.Float → List (List (Value fl))
  twice item f g = (text item ∷ float f ∷ []) ∷ (text item ∷ float g ∷ []) ∷ []
