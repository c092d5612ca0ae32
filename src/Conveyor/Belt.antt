-- ===== src/Conveyor/Belt.antt =====
-- internal/sim/world/feature/conveyor/runtime: one tick of the belts (`Run` of system.go, with
-- `PickAvailableItem` and `HasLiveItem` of runtime.go). The callbacks are given, and those that write
-- are the ones of conveyor_facade.go, on the entities on the ground.
pub mod Sorted
pub mod Holdings
pub mod Writes
pub mod Carry
pub mod Pull
pub mod Tick
use voxelcraft_ai.Prelude.{
  ℕ, String, Bool, true, false, ◌&&◌, ◌||◌, not, Option, none, some, List, [], ◌∷◌, str_eq, ◌==◌,
  if◌then◌else◌, add64, sub64, lt_int, le_int, Map, lookup,
}
use voxelcraft_ai.Kernel.Vec.{Vec3i, same_pos}
use voxelcraft_ai.Kernel.Sort.{sort_strings, first_of}
use voxelcraft_ai.Contracts.Container.{Container, add_item, take_item, available_count}
use voxelcraft_ai.Ground.{ItemEntity, Ground, spawn, remove, move}
use voxelcraft_ai.Conveyor.Belt.Sorted.{sort_positions}

-- DX and DZ, widened to `int`.
pub record ConveyorMeta : Type 0 where
  pub dx : ℕ
  pub dz : ℕ

abbrev pub Conveyors : Type 0
Conveyors = List (Vec3i × ConveyorMeta)

unfoldable pub meta_at : Vec3i → Conveyors → Option ConveyorMeta
meta_at p [] = none
meta_at p ((q, m) ∷ rest) = let later = meta_at p rest in if same_pos p q then some m else later

-- What a tick of the belts changes.
pub record Belt : Type 0 where
  pub ground : Ground
  pub containers : Vec3i → Option Container

-- `Ops`, without the callbacks that write, and the arguments that stay as they are.
pub record Line : Type 0 where
  pub conveyor_id : ℕ
  pub conveyors : Conveyors
  pub conveyor_enabled : Belt → Vec3i → Bool
  pub block_at : Vec3i → ℕ
  pub block_solid : ℕ → Bool
  pub block_name : ℕ → String

-- e != nil && e.Item != "" && e.Count > 0
unfoldable pub is_live : Option ItemEntity → Bool
is_live none = false
is_live (some e) = not (str_eq e.item "") && lt_int 0 e.count

unfoldable pub live_ids : Map ItemEntity → List String
live_ids [] = []
live_ids ((id, e) ∷ m) =
    let rest = live_ids m in if not (str_eq id "") && is_live (some e) then id ∷ rest else rest

unfoldable pub sorted_live_item_ids : Map ItemEntity → List String
unfolding live_ids
sorted_live_item_ids m = sort_strings (live_ids m)

unfoldable pub belt_positions : Conveyors → (Vec3i → ℕ) → ℕ → List Vec3i
belt_positions [] block_at id = []
belt_positions ((p, m) ∷ rest) block_at id =
    let later = belt_positions rest block_at id in if block_at p == id then p ∷ later else later

unfoldable pub sorted_conveyor_positions : Conveyors → (Vec3i → ℕ) → ℕ → List Vec3i
unfolding belt_positions
sorted_conveyor_positions m block_at id = sort_positions (belt_positions m block_at id)

-- HasLiveItem, for the entities that are listed at a cell.
unfoldable pub has_live_item : List String → Map ItemEntity → Bool
has_live_item [] items = false
has_live_item (id ∷ ids) items = is_live (lookup id items) || has_live_item ids items

unfoldable pub available_items : Map ℕ → Container → List String
available_items [] c = []
available_items ((item, n) ∷ m) c =
    let rest = available_items m c in
    if str_eq item "" || le_int n 0
    then rest
    else if le_int (available_count c item) 0
    then rest
    else item ∷ rest

-- PickAvailableItem; the empty text is `none`.
unfoldable pub pick_available_item : Container → Option String
unfolding available_items
pick_available_item c = first_of (sort_strings (available_items c.inventory c))

-- The container at a position after a write through its pointer.
unfoldable pub put_at : Vec3i → Container → Belt → Belt
put_at p c b = record b { containers = λ q. if same_pos q p then some c else b.containers q }

-- A belt that moves: !ok || (meta.DX == 0 && meta.DZ == 0) is skipped.
unfoldable pub moving : Option ConveyorMeta → Option ConveyorMeta
moving none = none
moving (some m) = if m.dx == 0 && m.dz == 0 then none else some m

-- Pass 1, where the item goes to `to`: into the container there, or on.
unfoldable pub deliver : Line → String → ItemEntity → Vec3i → Option Container → Belt → Belt
unfolding put_at
deliver l id e to (some c) b =
    let filled = put_at to (record c { inventory = add_item e.item e.count c.inventory }) b in
    record filled { ground = remove id b.ground }
deliver l id e to none b =
    let block = l.block_at to in
    if l.block_solid block && not (str_eq (l.block_name block) "CONVEYOR")
    then b
    else record b { ground = move id to b.ground }

unfoldable pub forward : Line → String → ItemEntity → Option ConveyorMeta → Belt → Belt
unfolding deliver
forward l id e none b = b
forward l id e (some m) b =
    let to : Vec3i = record { x = add64 e.pos.x m.dx; y = e.pos.y; z = add64 e.pos.z m.dz } in
    if l.conveyor_enabled b e.pos then deliver l id e to (b.containers to) b else b

unfoldable pub carry_found : Line → String → Option ItemEntity → Belt → Belt
unfolding forward moving
carry_found l id none b = b
carry_found l id (some e) b =
    if is_live (some e) && l.block_at e.pos == l.conveyor_id
    then forward l id e (moving (meta_at e.pos l.conveyors)) b
    else b

unfoldable pub carry_all : Line → List String → Belt → Belt
unfolding carry_found
carry_all l [] b = b
carry_all l (id ∷ ids) b = carry_all l ids (carry_found l id (lookup id b.ground.items) b)

-- Pass 2: one unit of the item goes from the container onto the belt.
unfoldable pub take_out : ℕ → Vec3i → Vec3i → Container → Option String → Belt → Belt
unfolding put_at
take_out now p back c none b = b
take_out now p back c (some item) b =
    let left = put_at back (record c { inventory = take_item item 1 c.inventory }) b in
    record left { ground = (spawn now p item 1 b.ground).1 }

unfoldable pub pull_from : ℕ → Vec3i → Vec3i → Option Container → Belt → Belt
unfolding take_out pick_available_item
pull_from now p back none b = b
pull_from now p back (some c) b = take_out now p back c (pick_available_item c) b

unfoldable pub pull_onto : ℕ → Line → Vec3i → Option ConveyorMeta → Belt → Belt
unfolding pull_from has_live_item
pull_onto now l p none b = b
pull_onto now l p (some m) b =
    let back : Vec3i = record { x = sub64 p.x m.dx; y = p.y; z = sub64 p.z m.dz } in
    if l.conveyor_enabled b p
    then (if has_live_item (b.ground.items_at p) b.ground.items
        then b
        else pull_from now p back (b.containers back) b)
    else b

unfoldable pub pull_all : ℕ → Line → List Vec3i → Belt → Belt
unfolding pull_onto moving
pull_all now l [] b = b
pull_all now l (p ∷ ps) b = pull_all now l ps (pull_onto now l p (moving (meta_at p l.conveyors)) b)

-- Run
unfoldable pub run : ℕ → Line → Belt → Belt
unfolding carry_all pull_all sorted_live_item_ids sorted_conveyor_positions
run now l b =
    let moved = carry_all l (sorted_live_item_ids b.ground.items) b in
    pull_all now l (sorted_conveyor_positions l.conveyors l.block_at l.conveyor_id) moved
