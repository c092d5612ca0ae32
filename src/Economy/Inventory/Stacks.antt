-- ===== src/Economy/Inventory/Stacks.antt =====
-- What `StacksToMap` of feature/economy/inventory/inventory.go reads.
use voxelcraft_ai.Prelude.{
  ℕ, ◌+◌, ◌<◌, ◌≡◌, String, false, ◌||◌, List, [], ◌∷◌, arith, str_eq, eq_iff, if◌then◌else◌, word,
  half, add64, le_int, Map, HasDistinctKeys, get, insert, get-insert, insert-HasDistinctKeys,
  get-empty, Bool-cases, inl, inr,
}
use voxelcraft_ai.Economy.Inventory.{from_stacks, stacks_to_map}
use voxelcraft_ai.Economy.Inventory.Transfer.{IsPositive}

-- What one stack counts for an item: stacks without a name or a positive count are skipped.
abbrev pub counts : String → String × ℕ → ℕ
counts j (item, n) = if str_eq item "" || le_int n 0 then 0 else if str_eq item j then n else 0

abbrev pub tally_stacks : String → List (String × ℕ) → ℕ
tally_stacks j [] = 0
tally_stacks j (s ∷ stacks) = counts j s + tally_stacks j stacks

-- No item's counts sum to 2 ^ 63.
abbrev pub Fits : List (String × ℕ) → Type 0
Fits stacks = (j : String) → tally_stacks j stacks < half

insert-IsPositive :
    (item : String) (n : ℕ) (m : Map ℕ)
    → IsPositive m
    → 0 < n
    → n < half
    → IsPositive (insert item n m)
unfolding insert
insert-IsPositive item n [] a p b = ((p, b), tt)
insert-IsPositive item n ((other, k) ∷ m) a p b = elim (Bool-cases (str_eq other item)) [
  | inl hit ↦ rw hit ((p, b), a.1)
  | inr miss ↦ rw miss (a.0, insert-IsPositive item n m a.1 p b)
]

positive_count : (n : ℕ) → n < word → le_int n 0 ≡ false → 0 < n
positive_count n w e = ground arith

from_stacks_lem :
    (out : Map ℕ) (stacks : List (String × ℕ))
    → HasDistinctKeys out
    → IsPositive out
    → ((j : String) → get out j + tally_stacks j stacks < half)
    → HasDistinctKeys (from_stacks out stacks)
      × IsPositive (from_stacks out stacks)
      × ((j : String) → get (from_stacks out stacks) j ≡ get out j + tally_stacks j stacks)
unfolding from_stacks
from_stacks_lem out [] d a f = (d, a, λ j. omega arith)
from_stacks_lem out ((item, n) ∷ stacks) d a f = elim (Bool-cases (str_eq item "" || le_int n 0)) [
  | inl skipped ↦
      rw (skipped, from_stacks)
        (let rest = from_stacks_lem out stacks d a (λ j. omega (arith, (rw skipped at (f j)))) in
          (rest.0, rest.1, λ j. omega (arith, rest.2 j)))
  | inr counted ↦
      let m = add64 (get out item) n in
      let out' = insert item m out in
      let bound : get out item + (n + tally_stacks item stacks) < half =
        ground (arith, (rw counted at (f item)), eq_iff item item) in
      let p : 0 < n = positive_count n (omega arith) (ground (arith, counted)) in
      let step : (j : String) → get out' j ≡ get out j + (if str_eq item j then n else 0) =
        λ j. ground (arith, get-insert item j m out, eq_iff item j) in
      let rest =
        from_stacks_lem out' stacks (insert-HasDistinctKeys item m out d)
          (insert-IsPositive item m out a (omega arith) (omega arith))
          (λ j. omega (arith, step j, (rw counted at (f j)))) in
      rw (counted, from_stacks) (rest.0, rest.1, λ j. omega (arith, rest.2 j, step j))
]

-- Where no item's counts overflow, StacksToMap gives each item once, with the sum of its positive
-- counts, and no other count.
pub stacks_to_map_lem :
    (stacks : List (String × ℕ))
    → Fits stacks
    → HasDistinctKeys (stacks_to_map stacks)
      × IsPositive (stacks_to_map stacks)
      × ((j : String) → get (stacks_to_map stacks) j ≡ tally_stacks j stacks)
unfolding stacks_to_map
stacks_to_map_lem stacks f =
    let r = from_stacks_lem [] stacks tt tt (λ j. omega (arith, f j, get-empty j)) in
    (r.0, r.1, λ j. omega (arith, r.2 j, get-empty j))
