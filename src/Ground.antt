-- ===== src/Ground.antt =====
-- The items that lie in the world: internal/sim/world/feature/entities/items (items.go, runtime.go)
-- and kernel/model/item_entity.go. A map by position gives an empty list where it has no entry; the
-- source reads its entries by length and in ranges only, and deletes an entry that gets empty.
pub mod Index
pub mod Cleanup
pub mod Totals
pub mod Keys
use voxelcraft_ai.Prelude.{
  ℕ, String, Bool, true, false, ◌&&◌, Option, none, some, List, [], ◌∷◌, ◌++◌, str_eq, ◌==◌, ltb,
  leb, if◌then◌else◌, add64, lt_int, le_int, Map, lookup, insert, delete, not,
}
use voxelcraft_ai.Kernel.Vec.{Vec3i, same_pos}
use voxelcraft_ai.Kernel.Format.{numbered}
use voxelcraft_ai.Kernel.Sort.{sort_strings, keys}

pub record ItemEntity : Type 0 where
  pub entity_id : String
  pub pos : Vec3i
  pub item : String
  pub count : ℕ
  pub created_tick : ℕ
  pub expires_tick : ℕ

pub record Ground : Type 0 where
  pub items : Map ItemEntity
  pub items_at : Vec3i → List String
  pub next_item_num : ℕ

abbrev pub entity_ttl_ticks_default : ℕ
entity_ttl_ticks_default = 6000

-- itemsAt[p] = ids, or delete(itemsAt, p) where there are none
unfoldable pub put_ids : Vec3i → List String → (Vec3i → List String) → Vec3i → List String
put_ids p ids at q = if same_pos q p then ids else at q

-- Whether the entry is of the item and not empty, where there is an entry.
unfoldable pub matches_item : String → Option ItemEntity → Bool
matches_item item none = false
matches_item item (some e) = str_eq e.item item && lt_int 0 e.count

-- The id of the entry that was found: `Entry.ID` is the entity's own id.
unfoldable pub own_id : Option ItemEntity → Option String
own_id none = none
own_id (some e) = some e.entity_id

unfoldable pub find_in : List String → String → Map ItemEntity → Option String
find_in [] item items = none
find_in (id ∷ ids) item items =
    let rest = find_in ids item items in
    if matches_item item (lookup id items) then own_id (lookup id items) else rest

unfoldable pub find_merge_target : List String → String → Map ItemEntity → Option String
unfolding find_in matches_item own_id
find_merge_target ids item items = if str_eq item "" then none else find_in ids item items

unfoldable pub remove_id : List String → String → List String
remove_id [] id = []
remove_id (other ∷ ids) id =
    let rest = remove_id ids id in if str_eq other id then ids else other ∷ rest

-- An entity is expired from its tick on, if it has one.
unfoldable pub is_expired : ℕ → Option ItemEntity → Bool
is_expired now none = false
is_expired now (some e) = not (e.expires_tick == 0) && leb e.expires_tick now

unfoldable pub expired : List String → Map ItemEntity → ℕ → List String
expired [] items now = []
expired (id ∷ ids) items now =
    let rest = expired ids items now in if is_expired now (lookup id items) then id ∷ rest else rest

-- newItemEntityID
unfoldable pub new_item_entity_id : Ground → String × Ground
new_item_entity_id g =
    let n = add64 g.next_item_num 1 in (numbered "IT" n, record g { next_item_num = n })

-- The entity that is found gets the count; `none` would be a nil pointer, which is not reached: the id
-- is the entity's own.
unfoldable pub merged : ℕ → String → ℕ → Option ItemEntity → Ground → Ground
merged now id count none g = g
merged now id count (some e) g =
    let exp = add64 now entity_ttl_ticks_default in
    record g {
      items =
          insert id
            (record e {
              count = add64 e.count count;
              expires_tick = if ltb e.expires_tick exp then exp else e.expires_tick;
            })
            g.items;
    }

-- A new entity under the id.
unfoldable pub placed : ℕ → Vec3i → String → ℕ → String → Ground → Ground
placed now pos item count id g = record g {
  items =
      insert id
        (record {
          entity_id = id;
          pos = pos;
          item = item;
          count = count;
          created_tick = now;
          expires_tick = add64 now entity_ttl_ticks_default;
        })
        g.items;
  items_at = put_ids pos (g.items_at pos ++ id ∷ []) g.items_at;
}

-- e.EntityID
abbrev pub id_of : Option ItemEntity → String
id_of none = ""
id_of (some e) = e.entity_id

unfoldable pub spawn_at : ℕ → Vec3i → String → ℕ → Option String → Ground → String × Ground
unfolding merged placed
spawn_at now pos item count (some id) g =
    (id_of (lookup id g.items), merged now id count (lookup id g.items) g)
spawn_at now pos item count none g =
    let (id, g') = new_item_entity_id g in (id, placed now pos item count id g')

-- Spawn
unfoldable pub spawn : ℕ → Vec3i → String → ℕ → Ground → String × Ground
unfolding spawn_at
spawn now pos item count g =
    if str_eq item ""
    then ("", g)
    else if le_int count 0
    then ("", g)
    else spawn_at now pos item count (find_merge_target (g.items_at pos) item g.items) g

unfoldable pub remove_found : String → Option ItemEntity → Ground → Ground
remove_found id none g = g
remove_found id (some e) g = record g {
  items = delete id g.items;
  items_at = put_ids e.pos (remove_id (g.items_at e.pos) id) g.items_at;
}

-- Remove
unfoldable pub remove : String → Ground → Ground
unfolding remove_found
remove id g = remove_found id (lookup id g.items) g

unfoldable pub move_found : String → Vec3i → Option ItemEntity → Ground → Ground
move_found id to none g = g
move_found id to (some e) g =
    let without = put_ids e.pos (remove_id (g.items_at e.pos) id) g.items_at in
    if same_pos e.pos to then g else record g {
      items = insert id (record e { pos = to }) g.items;
      items_at = put_ids to (without to ++ id ∷ []) without;
    }

-- Move
unfoldable pub move : String → Vec3i → Ground → Ground
unfolding move_found
move id to g = move_found id to (lookup id g.items) g

unfoldable pub remove_all : List String → Ground → Ground
unfolding remove
remove_all [] g = g
remove_all (id ∷ ids) g = remove_all ids (remove id g)

-- CleanupExpired
unfoldable pub cleanup_expired : ℕ → Ground → Ground
unfolding remove_all expired
cleanup_expired now g = remove_all (sort_strings (expired (keys g.items) g.items now)) g
