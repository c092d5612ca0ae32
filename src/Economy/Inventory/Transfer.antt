-- ===== src/Economy/Inventory/Transfer.antt =====
-- What the transfers of feature/economy/inventory/inventory.go do to the total of each item.
use voxelcraft_ai.Prelude.{
  ℕ, ◌≤◌, ◌+◌, ◌%◌, ◌≡◌, ◌<◌, refl, String, List, [], ◌∷◌, Option, none, some, inl, inr, arith,
  str_eq, eq_iff, if◌then◌else◌, word, half, sub64, Map, All, HasDistinctKeys, get, get-empty,
  lookup, Bool-cases,
}
use voxelcraft_ai.Economy.Floats.{Floats}
use voxelcraft_ai.Economy.Heap.{Heap, bump, drain}
use voxelcraft_ai.Economy.Heap.Supply.{supply, times, supply-bump, supply-drain}
use voxelcraft_ai.Economy.Inventory.{
  apply_transfer, cap_rate, tax_on, collect_tax, tax_entry, transfer_taxed, apply_transfer_with_tax,
  calc_from, calc_tax,
}

-- Every count is a number from 1 to 2 ^ 63 - 1.
abbrev pub IsPositive : Map ℕ → Type 0
IsPositive = All (λ e. (0 < e.1) × (e.1 < half))

module _ (src dst : ℕ) (rs : List ℕ) (s : times src rs ≡ 1) (d : times dst rs ≡ 1)
    (j : String) where
  pub supply-apply_transfer :
      (h : Heap) (items : Map ℕ)
      → supply (apply_transfer h src dst items) rs j % word ≡ supply h rs j % word
  unfolding apply_transfer
  supply-apply_transfer h [] = refl
  supply-apply_transfer h ((item, c) ∷ items) = omega (
    arith,
    supply-drain h src item c j rs s,
    supply-bump (drain h src item c) dst item c j rs d,
    supply-apply_transfer (bump (drain h src item c) dst item c) items,
  )

-- The sink, where there is one, is among the maps that are counted.
abbrev pub IsCounted : List ℕ → Option ℕ → Type 0
IsCounted rs none = Unit
IsCounted rs (some q) = times q rs ≡ 1

-- Without a sink the tax leaves the world.
abbrev pub lost : Option ℕ → ℕ → ℕ
lost none n = n
lost (some q) n = 0

module _ (fl : Floats) where
  open fl use {Float, zero_f, le_f}

  pub tax_on-le : (rate : Float) (c : ℕ) → 0 < c → c < half → tax_on fl rate c ≤ c
  unfolding tax_on
  tax_on-le rate c h k = ground (arith, fl.to_int-lt (fl.mul_f (fl.of_int c) rate))

  -- The taxes on an item's entries.
  pub levied : Float → Map ℕ → String → ℕ
  levied rate [] j = 0
  levied rate ((item, c) ∷ items) j =
      (if str_eq item j then tax_on fl rate c else 0) + levied rate items j

  module _ (src dst : ℕ) (rs : List ℕ) (s : times src rs ≡ 1) (d : times dst rs ≡ 1)
      (j : String) where
    supply-collect_tax :
        (h : Heap) (sink : Option ℕ) (item : String) (tax : ℕ)
        → IsCounted rs sink
        → tax < half
        → (supply (collect_tax fl h sink item tax) rs j
              + lost sink (if str_eq item j then tax else 0))
            % word
          ≡ (supply h rs j + (if str_eq item j then tax else 0)) % word
    unfolding collect_tax
    supply-collect_tax h none item tax k b = refl
    supply-collect_tax h (some q) item tax k b = ground (arith, supply-bump h q item tax j rs k)

    supply-tax_entry :
        (h : Heap) (item : String) (c : ℕ) (sink : Option ℕ) (rate : Float)
        → IsCounted rs sink
        → 0 < c
        → c < half
        → (supply (tax_entry fl h src dst item c sink rate) rs j
              + lost sink (if str_eq item j then tax_on fl rate c else 0))
            % word
          ≡ supply h rs j % word
    unfolding tax_entry
    supply-tax_entry h item c sink rate k p q =
        let tax = tax_on fl rate c in
        let drained = drain h src item c in
        let paid = bump drained dst item (sub64 c tax) in
        ground (
          arith,
          tax_on-le rate c p q,
          supply-drain h src item c j rs s,
          supply-bump drained dst item (sub64 c tax) j rs d,
          supply-collect_tax paid sink item tax k,
        )

    lost-add : (sink : Option ℕ) (m n : ℕ) → lost sink (m + n) ≡ lost sink m + lost sink n
    lost-add none m n = refl
    lost-add (some q) m n = omega arith

    supply-transfer_taxed :
        (h : Heap) (items : Map ℕ) (sink : Option ℕ) (rate : Float)
        → IsCounted rs sink
        → IsPositive items
        → (supply (transfer_taxed fl h src dst items sink rate) rs j
              + lost sink (levied rate items j))
            % word
          ≡ supply h rs j % word
    unfolding transfer_taxed levied
    supply-transfer_taxed h [] none rate k p = omega arith
    supply-transfer_taxed h [] (some q) rate k p = omega arith
    supply-transfer_taxed h ((item, c) ∷ items) sink rate k p =
        let tax = if str_eq item j then tax_on fl rate c else 0 in
        rw (lost-add sink tax (levied rate items j)) (
          omega (
            arith,
            supply-tax_entry h item c sink rate k p.0.0 p.0.1,
            supply-transfer_taxed (tax_entry fl h src dst item c sink rate) items sink rate k p.1,
          ))

  levied_absent :
      (rate : Float) (items : Map ℕ) (j : String) → lookup j items ≡ none → levied rate items j ≡ 0
  unfolding levied lookup
  levied_absent rate [] j h = refl
  levied_absent rate ((item, c) ∷ items) j h = ground (arith, levied_absent rate items j)

  calc_from_absent :
      (rate : Float) (items : Map ℕ) (j : String)
      → lookup j items ≡ none
      → get (calc_from fl rate items) j ≡ 0
  unfolding calc_from lookup get
  calc_from_absent rate [] j h = refl
  calc_from_absent rate ((item, c) ∷ items) j h = ground (arith, calc_from_absent rate items j)

  -- What `CalcTax` reports is what the transfer takes.
  get-calc_from :
      (rate : Float) (items : Map ℕ) (j : String)
      → HasDistinctKeys items
      → IsPositive items
      → get (calc_from fl rate items) j ≡ levied rate items j
  unfolding calc_from levied tax_on get lookup
  get-calc_from rate [] j d p = refl
  get-calc_from rate ((item, c) ∷ items) j d p = ground (
    arith,
    eq_iff item j,
    fl.to_int-lt (fl.mul_f (fl.of_int c) rate),
    get-calc_from rate items j d.1 p.1,
    calc_from_absent rate items item d.0,
    levied_absent rate items item d.0,
  )

  -- Where the two inventories and the sink each stand once in a list of maps, and the items have
  -- distinct names and positive counts, a transfer keeps the total of each item over the list,
  -- modulo 2 ^ 64, but for a tax without a sink, which is what CalcTax reports.
  pub supply-apply_transfer_with_tax :
      (src dst : ℕ) (rs : List ℕ) (j : String) (h : Heap) (items : Map ℕ) (sink : Option ℕ)
      (rate : Float)
      → times src rs ≡ 1
      → times dst rs ≡ 1
      → IsCounted rs sink
      → HasDistinctKeys items
      → IsPositive items
      → (supply (apply_transfer_with_tax fl h src dst items sink rate) rs j
            + lost sink (get (calc_tax fl items rate) j))
          % word
        ≡ supply h rs j % word
  unfolding apply_transfer_with_tax calc_tax
  supply-apply_transfer_with_tax src dst rs j h items sink rate s d k u p =
      elim (Bool-cases (le_f rate zero_f)) [
        | inl free ↦ rw free (untaxed sink)
        | inr taxed ↦
            rw (taxed, get-calc_from (cap_rate fl rate) items j u p)
              (supply-transfer_taxed src dst rs s d j h items sink (cap_rate fl rate) k p)
      ]
    where
      untaxed :
          (sink : Option ℕ)
          → (supply (apply_transfer h src dst items) rs j + lost sink (get [] j)) % word
            ≡ supply h rs j % word
      untaxed none = omega (arith, supply-apply_transfer src dst rs s d j h items, get-empty j)
      untaxed (some q) = omega (arith, supply-apply_transfer src dst rs s d j h items)
