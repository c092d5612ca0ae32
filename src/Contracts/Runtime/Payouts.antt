-- ===== src/Contracts/Runtime/Payouts.antt =====
-- What the loops of feature/contracts/runtime/runtime.go do to the counts of one item.
use voxelcraft_ai.Prelude.{
  ℕ, ◌+◌, ◌-◌, ◌<◌, ◌≤◌, ◌≡◌, refl, ◌∙◌, String, none, [], ◌∷◌, arith, str_eq, eq_iff,
  if◌then◌else◌, half, Map, HasDistinctKeys, get, lookup,
}
use voxelcraft_ai.Economy.Heap.{Heap, cell}
use voxelcraft_ai.Economy.Inventory.Transfer.{IsPositive}
use voxelcraft_ai.Economy.Inventory.Outcome.{cell-bump, cell-drain}
use voxelcraft_ai.Contracts.Container.{Container, add_item, owed_to}
use voxelcraft_ai.Contracts.Container.Ledger.{
  positive-le_int, get-add_item, get-take_item, reserve_lem, unreserve_lem, add_owed_lem,
}
use voxelcraft_ai.Contracts.Runtime.{
  escrow_item, consume_item, take_stock, escrow_items, consume_requirements_to_poster, payout_item,
  payout_items,
}

-- A map without an item twice holds what its head and its tail hold.
pub get-cons :
    (item : String) (n : ℕ) (items : Map ℕ) (j : String)
    → lookup item items ≡ none
    → get ((item, n) ∷ items) j ≡ (if str_eq item j then n else 0) + get items j
unfolding get lookup
get-cons item n items j a = ground (arith, eq_iff item j)

-- Escrow moves the counts from the agent's inventory to the terminal's, and reserves them.
abbrev pub Escrows : ℕ → String → ℕ → Heap × Container → Heap × Container → Type 0
Escrows from j n s t =
    (cell t.0 from j + n ≡ cell s.0 from j)
    × (get t.1.inventory j ≡ get s.1.inventory j + n)
    × (get t.1.reserved j ≡ get s.1.reserved j + n)
    × (t.1.pos ≡ s.1.pos)
    × (t.1.owed ≡ s.1.owed)

escrow_item-Escrows :
    (s : Heap × Container) (from : ℕ) (item : String) (n : ℕ) (j : String)
    → 0 < n
    → n < half
    → (if str_eq item j then n else 0) ≤ cell s.0 from j
    → cell s.0 from j < half
    → get s.1.inventory j < half
    → get s.1.reserved j < half
    → Escrows from j (if str_eq item j then n else 0) s (escrow_item s from item n)
unfolding escrow_item
escrow_item-Escrows (h, c) from item n j p b a d e f =
    let stocked : Container = record c { inventory = add_item item n c.inventory } in
    ground (
      arith,
      cell-drain h from item n from j,
      get-add_item item n c.inventory j,
      reserve_lem item n stocked j p b,
    )

pub escrow_items-Escrows :
    (s : Heap × Container) (from : ℕ) (items : Map ℕ) (j : String)
    → HasDistinctKeys items
    → IsPositive items
    → get items j ≤ cell s.0 from j
    → cell s.0 from j < half
    → get s.1.inventory j + get items j < half
    → get s.1.reserved j + get items j < half
    → Escrows from j (get items j) s (escrow_items s from items)
unfolding escrow_items get lookup
escrow_items-Escrows s from [] j d p a b e f = (omega arith, omega arith, omega arith, refl, refl)
escrow_items-Escrows s from ((item, n) ∷ items) j d p a b e f =
    let sum = get-cons item n items j d.0 in
    let step =
      escrow_item-Escrows s from item n j p.0.0 p.0.1 (omega (arith, a, sum)) b (omega arith)
        (omega arith) in
    let rest =
      escrow_items-Escrows (escrow_item s from item n) from items j d.1 p.1
        (omega (arith, step, sum)) (omega (arith, step)) (omega (arith, step, sum))
        (omega (arith, step, sum)) in
    (
      omega (arith, sum, step, rest),
      omega (arith, sum, step, rest),
      omega (arith, sum, step, rest),
      rest.3 ∙ step.3,
      rest.4 ∙ step.4,
    )

-- A payout moves the counts from the terminal's inventory to the agent's, and frees them.
abbrev pub Pays : ℕ → String → ℕ → Heap × Container → Heap × Container → Type 0
Pays to j n s t =
    (cell t.0 to j ≡ cell s.0 to j + n)
    × (get t.1.inventory j ≡ get s.1.inventory j - n)
    × (get t.1.reserved j ≡ get s.1.reserved j - n)
    × (t.1.pos ≡ s.1.pos)
    × (t.1.owed ≡ s.1.owed)

payout_item-Pays :
    (s : Heap × Container) (to : ℕ) (item : String) (n : ℕ) (j : String)
    → 0 < n
    → n < half
    → cell s.0 to j < half
    → get s.1.inventory j < half
    → get s.1.reserved j < half
    → Pays to j (if str_eq item j then n else 0) s (payout_item s to item n)
unfolding payout_item
payout_item-Pays (h, c) to item n j p b d e f = rw (positive-le_int n p b) (
    ground (
      arith,
      cell-bump h to item n to j,
      get-take_item item n c.inventory j b e,
      unreserve_lem item n c j p b f,
    ))

pub payout_items-Pays :
    (s : Heap × Container) (to : ℕ) (items : Map ℕ) (j : String)
    → HasDistinctKeys items
    → IsPositive items
    → cell s.0 to j + get items j < half
    → get s.1.inventory j < half
    → get s.1.reserved j < half
    → Pays to j (get items j) s (payout_items s to items)
unfolding payout_items get lookup
payout_items-Pays s to [] j d p a e f = (omega arith, omega arith, omega arith, refl, refl)
payout_items-Pays s to ((item, n) ∷ items) j d p a e f =
    let sum = get-cons item n items j d.0 in
    let step = payout_item-Pays s to item n j p.0.0 p.0.1 (omega (arith, a)) e f in
    let rest =
      payout_items-Pays (payout_item s to item n) to items j d.1 p.1 (omega (arith, step, sum))
        (omega (arith, step)) (omega (arith, step)) in
    (
      omega (arith, sum, step, rest),
      omega (arith, sum, step, rest),
      omega (arith, sum, step, rest),
      rest.3 ∙ step.3,
      rest.4 ∙ step.4,
    )

-- The poster's goods leave the terminal's inventory, and are owed to the poster.
abbrev pub Owes : String → String → ℕ → Container → Container → Type 0
Owes to j n c d =
    (get d.inventory j ≡ get c.inventory j - n)
    × (owed_to d to j ≡ owed_to c to j + n)
    × (d.reserved ≡ c.reserved)
    × (d.pos ≡ c.pos)

consume_item-Owes :
    (c : Container) (to item : String) (n : ℕ) (j : String)
    → 0 < n
    → n < half
    → get c.inventory j < half
    → owed_to c to j < half
    → Owes to j (if str_eq item j then n else 0) c (consume_item c to item n)
unfolding consume_item
consume_item-Owes c to item n j p b e f = rw (positive-le_int n p b) (
    ground (
      arith,
      get-take_item item n c.inventory j b e,
      add_owed_lem item n (take_stock item n c) j p b to,
    ))

pub consume_requirements-Owes :
    (c : Container) (to : String) (items : Map ℕ) (j : String)
    → HasDistinctKeys items
    → IsPositive items
    → get c.inventory j < half
    → owed_to c to j + get items j < half
    → Owes to j (get items j) c (consume_requirements_to_poster c to items)
unfolding consume_requirements_to_poster get lookup
consume_requirements-Owes c to [] j d p e f = (omega arith, omega arith, refl, refl)
consume_requirements-Owes c to ((item, n) ∷ items) j d p e f =
    let sum = get-cons item n items j d.0 in
    let step = consume_item-Owes c to item n j p.0.0 p.0.1 e (omega (arith, f)) in
    let rest =
      consume_requirements-Owes (consume_item c to item n) to items j d.1 p.1 (omega (arith, step))
        (omega (arith, step, sum)) in
    (
      omega (arith, sum, step, rest),
      omega (arith, sum, step, rest),
      rest.2 ∙ step.2,
      rest.3 ∙ step.3,
    )
