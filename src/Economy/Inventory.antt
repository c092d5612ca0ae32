-- ===== src/Economy/Inventory.antt =====
-- internal/sim/world/feature/economy/inventory/inventory.go. A Go map argument that is only read is
-- a `Map ℕ`; one that is written is an address in the heap.
pub mod Transfer
pub mod Outcome
pub mod Parse
pub mod Stacks
use voxelcraft_ai.Prelude.{
  ℕ, ◌+◌, String, Bool, true, false, ◌&&◌, ◌||◌, Option, none, some, List, [], ◌∷◌, str_eq, ◌==◌,
  if◌then◌else◌, add64, sub64, lt_int, le_int, length, Map, lookup, insert, delete, get,
}
use voxelcraft_ai.Economy.Floats.{Floats}
use voxelcraft_ai.Economy.Heap.{Heap, cell, bump, drain}

-- HasItems
unfoldable pub has_items : Map ℕ → Map ℕ → Bool
has_items inv [] = true
has_items inv ((item, c) ∷ want) =
    let rest = has_items inv want in if lt_int (get inv item) c then false else rest

-- ApplyTransfer
pub apply_transfer : Heap → ℕ → ℕ → Map ℕ → Heap
apply_transfer h src dst [] = h
apply_transfer h src dst ((item, c) ∷ items) =
    apply_transfer (bump (drain h src item c) dst item c) src dst items

-- DeductItems
unfoldable pub deduct_items : Map ℕ → Map ℕ → Map ℕ
deduct_items inv [] = inv
deduct_items inv ((item, c) ∷ cost) =
    deduct_items
      (if str_eq item "" || le_int c 0
        then inv
        else (let left = insert item (sub64 (get inv item) c) inv in
            if le_int (get left item) 0 then delete item left else left))
      cost

-- StacksToMap; a stack is an item and a count. An empty result is nil, which reads as the empty map.
pub from_stacks : Map ℕ → List (String × ℕ) → Map ℕ
from_stacks out [] = out
from_stacks out ((item, n) ∷ rest) =
    from_stacks
      (if str_eq item "" || le_int n 0 then out else insert item (add64 (get out item) n) out) rest

unfoldable pub stacks_to_map : List (String × ℕ) → Map ℕ
unfolding from_stacks
stacks_to_map stacks = from_stacks [] stacks

module _ (fl : Floats) where
  open fl use {Float, zero_f, one_f, lt_f, le_f, mul_f, of_int, to_int}

  -- A value of a decoded JSON array.
  pub data Value : Type 0 where
    text : String → Value
    float : Float → Value
    int int64 : ℕ → Value
    other : Value

  -- item, ok := p[0].(string)
  item_of : Value → Option String
  item_of (text s) = if str_eq s "" then none else some s
  item_of _ = none

  -- The type switch on p[1].
  count_of : Value → Option ℕ
  count_of (float f) = some (to_int f)
  count_of (int n) = some n
  count_of (int64 n) = some n
  count_of _ = none

  positive : Option ℕ → Option ℕ
  positive none = none
  positive (some n) = if le_int n 0 then none else some n

  -- The checks on one pair; `none` is each of the errors of `ParseItemPairs`.
  pub pair_of : List Value → Option (String × ℕ)
  unfolding item_of count_of positive
  pair_of (p ∷ q ∷ []) = elim (item_of p) [
    | none ↦ none
    | some item ↦ elim (positive (count_of q)) [ none ↦ none | some n ↦ some (item, n) ]
  ]
  pair_of _ = none

  -- out[item] += n
  pub parse_from : Map ℕ → List (List Value) → Option (Map ℕ)
  parse_from out [] = some out
  parse_from out (p ∷ ps) = elim (pair_of p) [
    | none ↦ none
    | some (item, n) ↦ parse_from (insert item (add64 (get out item) n) out) ps
  ]

  -- ParseItemPairs
  unfoldable pub parse_item_pairs : List (List Value) → Option (Map ℕ)
  unfolding parse_from pair_of
  parse_item_pairs ps = parse_from [] ps

  -- if taxRate > 1 { taxRate = 1 }
  pub cap_rate : Float → Float
  cap_rate rate = if lt_f one_f rate then one_f else rate

  -- The tax on one entry: int(float64(c) * taxRate), cut to 0 and to c.
  pub tax_on : Float → ℕ → ℕ
  tax_on rate c =
      let tax = to_int (mul_f (of_int c) rate) in
      let tax' = if lt_int tax 0 then 0 else tax in if lt_int c tax' then c else tax'

  -- if taxSink != nil && tax > 0 { taxSink[item] += tax }
  pub collect_tax : Heap → Option ℕ → String → ℕ → Heap
  collect_tax h none item tax = h
  collect_tax h (some sink) item tax = if lt_int 0 tax then bump h sink item tax else h

  -- One round of the loop of `ApplyTransferWithTax`.
  pub tax_entry : Heap → ℕ → ℕ → String → ℕ → Option ℕ → Float → Heap
  tax_entry h src dst item c sink rate =
      let tax = tax_on rate c in
      collect_tax (bump (drain h src item c) dst item (sub64 c tax)) sink item tax

  pub transfer_taxed : Heap → ℕ → ℕ → Map ℕ → Option ℕ → Float → Heap
  transfer_taxed h src dst [] sink rate = h
  transfer_taxed h src dst ((item, c) ∷ items) sink rate =
      transfer_taxed (tax_entry h src dst item c sink rate) src dst items sink rate

  pub apply_transfer_with_tax : Heap → ℕ → ℕ → Map ℕ → Option ℕ → Float → Heap
  apply_transfer_with_tax h src dst items sink rate =
      if le_f rate zero_f
      then apply_transfer h src dst items
      else transfer_taxed h src dst items sink (cap_rate rate)

  -- The loop of `CalcTax`: each key of the result is written once, since items is a map.
  pub calc_from : Float → Map ℕ → Map ℕ
  calc_from rate [] = []
  calc_from rate ((item, c) ∷ items) =
      let rest = calc_from rate items in
      let tax = to_int (mul_f (of_int c) rate) in
      if le_int c 0
      then rest
      else if le_int tax 0
      then rest
      else (item, (if lt_int c tax then c else tax)) ∷ rest

  unfoldable pub calc_tax : Map ℕ → Float → Map ℕ
  unfolding calc_from cap_rate
  calc_tax items rate = if le_f rate zero_f then [] else calc_from (cap_rate rate) items
