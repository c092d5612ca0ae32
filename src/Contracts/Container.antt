-- ===== src/Contracts/Container.antt =====
-- internal/sim/world/kernel/model/container.go. `Reserved` and `Owed` may be nil in the source,
-- which reads and behaves as the empty map.
pub mod Ledger
use voxelcraft_ai.Prelude.{
  ℕ, String, Bool, Option, none, some, List, [], ◌∷◌, if◌then◌else◌, add64, sub64, le_int, str_eq,
  Map, lookup, insert, delete, get,
}
use voxelcraft_ai.Kernel.Vec.{Vec3i}

pub record Container : Type 0 where
  pub type : String
  pub pos : Vec3i
  pub inventory : Map ℕ
  pub reserved : Map ℕ
  pub owed : Map (Map ℕ)

-- m[item] += n
abbrev pub add_item : String → ℕ → Map ℕ → Map ℕ
add_item item n m = insert item (add64 (get m item) n) m

-- m[item] -= n; if m[item] <= 0 { delete(m, item) }
unfoldable pub take_item : String → ℕ → Map ℕ → Map ℕ
take_item item n m =
    let left = sub64 (get m item) n in if le_int left 0 then delete item m else insert item left m

unfoldable pub reserved_count : Container → String → ℕ
reserved_count c item = get c.reserved item

unfoldable pub available_count : Container → String → ℕ
unfolding reserved_count
available_count c item = sub64 (get c.inventory item) (reserved_count c item)

pub reserve : String → ℕ → Container → Container
reserve item n c = if le_int n 0 then c else record c { reserved = add_item item n c.reserved }

pub unreserve : String → ℕ → Container → Container
unreserve item n c = if le_int n 0 then c else record c { reserved = take_item item n c.reserved }

-- The map under the key, or a new one.
abbrev or_empty : Option (Map ℕ) → Map ℕ
or_empty none = []
or_empty (some m) = m

pub add_owed : String → String → ℕ → Container → Container
add_owed agent_id item n c = if le_int n 0 then c else record c {
  owed = insert agent_id (add_item item n (or_empty (lookup agent_id c.owed))) c.owed;
}

pub claim_owed : String → Container → Map ℕ × Container
claim_owed agent_id c = elim (lookup agent_id c.owed) [
  | none ↦ ([], c)
  | some m ↦ (m, record c { owed = delete agent_id c.owed })
]

-- What is owed to an agent of an item.
abbrev pub owed_to : Container → String → String → ℕ
owed_to c agent_id item = get (or_empty (lookup agent_id c.owed)) item
