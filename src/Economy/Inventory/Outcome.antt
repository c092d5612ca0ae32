-- ===== src/Economy/Inventory/Outcome.antt =====
-- What each party holds after a transfer of feature/economy/inventory/inventory.go.
use voxelcraft_ai.Prelude.{
  ℕ, ◌≤◌, ◌+◌, ◌<◌, ◌≡◌, ◌≢◌, refl, String, true, [], ◌∷◌, Option, none, some, arith, str_eq,
  eq_iff, if◌then◌else◌, word, half, add64, sub64, Map, HasDistinctKeys, get, lookup, ◌==◌, ◌&&◌,
}
use voxelcraft_ai.Economy.Floats.{Floats}
use voxelcraft_ai.Economy.Heap.{Heap, cell, bump, drain, cell-put_cell}
use voxelcraft_ai.Economy.Inventory.{
  has_items, apply_transfer, cap_rate, tax_on, collect_tax, tax_entry, transfer_taxed,
  apply_transfer_with_tax,
}
use voxelcraft_ai.Economy.Inventory.Transfer.{IsPositive}

module _ (h : Heap) (r : ℕ) (i : String) (n q : ℕ) (j : String) where
  pub cell-bump :
      cell (bump h r i n) q j ≡ (if q == r && str_eq i j then add64 (cell h q j) n else cell h q j)
  unfolding bump
  cell-bump = ground (arith, cell-put_cell h r i (add64 (cell h r i) n) q j, eq_iff i j)

  pub cell-drain :
      cell (drain h r i n) q j ≡ (if q == r && str_eq i j then sub64 (cell h q j) n else cell h q j)
  unfolding drain
  cell-drain = ground (arith, cell-put_cell h r i (sub64 (cell h r i) n) q j, eq_iff i j)

get_absent : (items : Map ℕ) (j : String) → lookup j items ≡ none → get items j ≡ 0
unfolding get
get_absent items j h = rw (h, get)

-- A holder of the wanted items has at least the wanted count of each.
pub has_items-le :
    (inv want : Map ℕ) (j : String)
    → IsPositive want
    → get inv j < half
    → has_items inv want ≡ true
    → get want j ≤ get inv j
unfolding has_items get lookup
has_items-le inv [] j p b h = omega arith
has_items-le inv ((item, c) ∷ want) j p b h =
    ground (arith, eq_iff item j, has_items-le inv want j p.1 b)

pub held :
    (h : Heap) (r : ℕ) (want : Map ℕ) (j : String)
    → IsPositive want
    → cell h r j < half
    → has_items (h r) want ≡ true
    → get want j ≤ cell h r j
unfolding cell
held h r want j p b e = has_items-le (h r) want j p b e

module _ (src dst : ℕ) (j : String) where
  apply_transfer_absent :
      (h : Heap) (items : Map ℕ) (q : ℕ)
      → lookup j items ≡ none
      → cell (apply_transfer h src dst items) q j ≡ cell h q j
  unfolding apply_transfer lookup
  apply_transfer_absent h [] q a = refl
  apply_transfer_absent h ((item, c) ∷ items) q a = ground (
    arith,
    apply_transfer_absent (bump (drain h src item c) dst item c) items q,
    cell-bump (drain h src item c) dst item c q j,
    cell-drain h src item c q j,
  )

  pub apply_transfer_source :
      (h : Heap) (items : Map ℕ)
      → src ≢ dst
      → HasDistinctKeys items
      → cell h src j < word
      → cell (apply_transfer h src dst items) src j ≡ sub64 (cell h src j) (get items j)
  unfolding apply_transfer lookup get
  apply_transfer_source h [] n u a = omega arith
  apply_transfer_source h ((item, c) ∷ items) n u a =
      let drained = drain h src item c in
      ground (
        arith,
        eq_iff item j,
        apply_transfer_absent (bump drained dst item c) items src,
        apply_transfer_source (bump drained dst item c) items n u.1,
        cell-bump drained dst item c src j,
        cell-drain h src item c src j,
      )

  pub apply_transfer_target :
      (h : Heap) (items : Map ℕ)
      → src ≢ dst
      → HasDistinctKeys items
      → cell h dst j < word
      → cell (apply_transfer h src dst items) dst j ≡ add64 (cell h dst j) (get items j)
  unfolding apply_transfer lookup get
  apply_transfer_target h [] n u a = omega arith
  apply_transfer_target h ((item, c) ∷ items) n u a =
      let drained = drain h src item c in
      ground (
        arith,
        eq_iff item j,
        apply_transfer_absent (bump drained dst item c) items dst,
        apply_transfer_target (bump drained dst item c) items n u.1,
        cell-bump drained dst item c dst j,
        cell-drain h src item c dst j,
      )

module _ (fl : Floats) (src dst : ℕ) (sink : Option ℕ) (j : String) where
  open fl use {Float, zero_f, le_f}

  cell-collect_tax :
      (h : Heap) (item : String) (tax q : ℕ)
      → sink ≢ some q
      → cell (collect_tax fl h sink item tax) q j ≡ cell h q j
  unfolding collect_tax
  cell-collect_tax h item tax q n = collected sink n
    where
      collected : (s : Option ℕ) → s ≢ some q → cell (collect_tax fl h s item tax) q j ≡ cell h q j
      collected none n = refl
      collected (some p) n = ground (arith, cell-bump h p item tax q j, n)

  cell-tax_entry :
      (h : Heap) (item : String) (c : ℕ) (rate : Float)
      → src ≢ dst
      → sink ≢ some src
      → cell (tax_entry fl h src dst item c sink rate) src j
        ≡ (if str_eq item j then sub64 (cell h src j) c else cell h src j)
  unfolding tax_entry
  cell-tax_entry h item c rate n k =
      let drained = drain h src item c in
      let tax = tax_on fl rate c in
      ground (
        arith,
        cell-collect_tax (bump drained dst item (sub64 c tax)) item tax src k,
        cell-bump drained dst item (sub64 c tax) src j,
        cell-drain h src item c src j,
      )

  transfer_taxed_absent :
      (h : Heap) (items : Map ℕ) (rate : Float)
      → src ≢ dst
      → sink ≢ some src
      → lookup j items ≡ none
      → cell (transfer_taxed fl h src dst items sink rate) src j ≡ cell h src j
  unfolding transfer_taxed lookup
  transfer_taxed_absent h [] rate n k a = refl
  transfer_taxed_absent h ((item, c) ∷ items) rate n k a = ground (
    arith,
    cell-tax_entry h item c rate n k,
    transfer_taxed_absent (tax_entry fl h src dst item c sink rate) items rate n k,
  )

  cell-transfer_taxed :
      (h : Heap) (items : Map ℕ) (rate : Float)
      → src ≢ dst
      → sink ≢ some src
      → HasDistinctKeys items
      → cell h src j < word
      → cell (transfer_taxed fl h src dst items sink rate) src j
        ≡ sub64 (cell h src j) (get items j)
  unfolding transfer_taxed lookup get
  cell-transfer_taxed h [] rate n k u a = omega arith
  cell-transfer_taxed h ((item, c) ∷ items) rate n k u a =
      let next = tax_entry fl h src dst item c sink rate in
      ground (
        arith,
        eq_iff item j,
        cell-tax_entry h item c rate n k,
        transfer_taxed_absent next items rate n k,
        cell-transfer_taxed next items rate n k u.1,
      )

  -- Who holds the items, with distinct names and positive counts, and is neither the receiver nor
  -- the sink, parts with exactly their counts, whatever the tax, and is never overdrawn.
  pub apply_transfer_with_tax_source :
      (h : Heap) (items : Map ℕ) (rate : Float)
      → src ≢ dst
      → sink ≢ some src
      → HasDistinctKeys items
      → IsPositive items
      → cell h src j < half
      → has_items (h src) items ≡ true
      → cell (apply_transfer_with_tax fl h src dst items sink rate) src j + get items j
        ≡ cell h src j
  unfolding apply_transfer_with_tax
  apply_transfer_with_tax_source h items rate n k u p b e = ground (
    arith,
    held h src items j p b e,
    cell-transfer_taxed h items (cap_rate fl rate) n k u,
    apply_transfer_source src dst j h items n u,
  )

  pub untaxed :
      (h : Heap) (items : Map ℕ) (rate : Float)
      → le_f rate zero_f ≡ true
      → apply_transfer_with_tax fl h src dst items sink rate ≡ apply_transfer h src dst items
  unfolding apply_transfer_with_tax
  untaxed h items rate free = rw free
