-- ===== src/Contracts/Container/Ledger.antt =====
-- How the operations of kernel/model/container.go change the counts of one item.
use voxelcraft_ai.Prelude.{
  true, ◌∷◌, [], ℕ, ◌+◌, ◌-◌, ◌<◌, ◌≤◌, ◌≡◌, refl, String, arith, str_eq, eq_iff, if◌then◌else◌,
  word, half, add64, sub64, le_int, Map, get, lookup, get-insert, get-delete, lookup-insert_self,
  false,
}
use voxelcraft_ai.Economy.Inventory.Transfer.{IsPositive}
use voxelcraft_ai.Contracts.Lifecycle.{has_available}
use voxelcraft_ai.Contracts.Container.{
  reserved_count, available_count, Container, add_item, take_item, or_empty, reserve, unreserve,
  add_owed, owed_to,
}

pub positive-le_int : (n : ℕ) → 0 < n → n < half → le_int n 0 ≡ false
positive-le_int n p b = ground arith

pub get-add_item :
    (item : String) (n : ℕ) (m : Map ℕ) (j : String)
    → get m j + n < word
    → get (add_item item n m) j ≡ get m j + (if str_eq item j then n else 0)
get-add_item item n m j b =
    ground (arith, get-insert item j (add64 (get m item) n) m, eq_iff item j)

-- A count never falls below 0: the key goes first.
pub get-take_item :
    (item : String) (n : ℕ) (m : Map ℕ) (j : String)
    → n < half
    → get m j < half
    → get (take_item item n m) j ≡ get m j - (if str_eq item j then n else 0)
unfolding take_item
get-take_item item n m j b c =
    ground (arith, get-insert item j (sub64 (get m item) n) m, get-delete item j m, eq_iff item j)

module _ (item : String) (n : ℕ) (c : Container) (j : String) (p : 0 < n) (b : n < half) where
  pub reserve_lem :
      get c.reserved j + n < word
      → (get (reserve item n c).reserved j ≡ get c.reserved j + (if str_eq item j then n else 0))
        × ((reserve item n c).inventory ≡ c.inventory)
        × ((reserve item n c).owed ≡ c.owed)
        × ((reserve item n c).pos ≡ c.pos)
  unfolding reserve
  reserve_lem s = ground (arith, get-add_item item n c.reserved j s)

  pub unreserve_lem :
      get c.reserved j < half
      → (get (unreserve item n c).reserved j ≡ get c.reserved j - (if str_eq item j then n else 0))
        × ((unreserve item n c).inventory ≡ c.inventory)
        × ((unreserve item n c).owed ≡ c.owed)
        × ((unreserve item n c).pos ≡ c.pos)
  unfolding unreserve
  unreserve_lem s = ground (arith, get-take_item item n c.reserved j b s)

  pub add_owed_lem :
      (to : String)
      → owed_to c to j + n < word
      → (owed_to (add_owed to item n c) to j ≡ owed_to c to j + (if str_eq item j then n else 0))
        × ((add_owed to item n c).inventory ≡ c.inventory)
        × ((add_owed to item n c).reserved ≡ c.reserved)
        × ((add_owed to item n c).pos ≡ c.pos)
  unfolding add_owed
  add_owed_lem to s =
      rw (positive-le_int n p b, lookup-insert_self)
        (get-add_item item n (or_empty (lookup to c.owed)) j s, refl, refl, refl)

pub reserve_pos : (item : String) (n : ℕ) (c : Container) → (reserve item n c).pos ≡ c.pos
unfolding reserve
reserve_pos item n c = ground arith

pub unreserve_pos : (item : String) (n : ℕ) (c : Container) → (unreserve item n c).pos ≡ c.pos
unfolding unreserve
unreserve_pos item n c = ground arith

pub add_owed_pos : (to item : String) (n : ℕ) (c : Container) → (add_owed to item n c).pos ≡ c.pos
unfolding add_owed
add_owed_pos to item n c = ground arith

-- What is available covers the requirements beside what is reserved.
pub has_available-le :
    (c : Container) (req : Map ℕ) (j : String)
    → IsPositive req
    → get c.reserved j ≤ get c.inventory j
    → get c.inventory j < half
    → has_available req (available_count c) ≡ true
    → get req j + get c.reserved j ≤ get c.inventory j
unfolding has_available available_count reserved_count get lookup
has_available-le c [] j p a b e = omega (arith, a)
has_available-le c ((item, n) ∷ req) j p a b e =
    ground (arith, eq_iff item j, has_available-le c req j p.1 a b)

pub add_owed_kept :
    (to item : String) (n : ℕ) (c : Container)
    → ((add_owed to item n c).inventory ≡ c.inventory)
      × ((add_owed to item n c).reserved ≡ c.reserved)
unfolding add_owed
add_owed_kept to item n c = ground arith
