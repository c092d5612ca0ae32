-- ===== src/Conveyor/Belt/Pull.antt =====
-- The second pass keeps the item: what is taken out lies on the ground.
use voxelcraft_ai.Prelude.{
  ℕ, suc, ◌+◌, ◌<◌, ◌≤◌, ◌≡◌, refl, String, false, Bool-cases, inl, inr, Option, none, some, List,
  [], ◌∷◌, if◌then◌else◌, arith, half, word, get, ◌||◌, str_eq, eq_iff, sub64, le_int, All, Map,
  length,
}
use voxelcraft_ai.Kernel.Vec.{Vec3i}
use voxelcraft_ai.Kernel.Places.{Distinct}
use voxelcraft_ai.Kernel.Sort.{sort_strings, All-sort_strings, first-All}
use voxelcraft_ai.Contracts.Container.{Container, take_item, available_count}
use voxelcraft_ai.Contracts.Container.Ledger.{get-take_item}
use voxelcraft_ai.Ground.{spawn}
use voxelcraft_ai.Ground.Index.{spawn-IsIndexed}
use voxelcraft_ai.Ground.Totals.{lying-spawn}
use voxelcraft_ai.Ground.Keys.{spawn-Tidy}
use voxelcraft_ai.Conveyor.Belt.{
  Belt, Line, ConveyorMeta, moving, meta_at, available_items, take_out, pull_from, pull_onto,
  pull_all, pick_available_item, has_live_item,
}
use voxelcraft_ai.Conveyor.Belt.Holdings.{IsSound, Keeps, Keeps-refl}
use voxelcraft_ai.Conveyor.Belt.Writes.{kept_store, enough_room, Keeps-trans}

module _ (j : String) (ps : List Vec3i) (distinct : Distinct ps) (l : Line) where
  -- What `PickAvailableItem` may pick.
  abbrev IsFree : Container → String → Type 0
  IsFree c item = (str_eq item "" ≡ false) × (le_int (available_count c item) 0 ≡ false)

  available-IsFree : (m : Map ℕ) (c : Container) → All (IsFree c) (available_items m c)
  unfolding available_items
  available-IsFree [] c = tt
  available-IsFree ((item, n) ∷ m) c = elim (Bool-cases (str_eq item "" || le_int n 0)) [
    | inl skip ↦ rw skip (available-IsFree m c)
    | inr named ↦ elim (Bool-cases (le_int (available_count c item) 0)) [
      | inl taken ↦ rw (named, taken) (available-IsFree m c)
      | inr free ↦ rw (named, free) ((ground arith, free), available-IsFree m c)
    ]
  ]

  pick-IsFree : (c : Container) (item : String) → pick_available_item c ≡ some item → IsFree c item
  unfolding pick_available_item
  pick-IsFree c item h =
      first-All (IsFree c) (sort_strings (available_items c.inventory c)) item
        (All-sort_strings (IsFree c) (available_items c.inventory c)
          (available-IsFree c.inventory c))
        h

  -- Of an item that is free, there is a unit more than is reserved.
  free_unit :
      (c : Container) (item i : String)
      → get c.inventory i < half
      → get c.reserved i ≤ get c.inventory i
      → le_int (available_count c item) 0 ≡ false
      → get c.reserved i + (if str_eq item i then 1 else 0) ≤ get c.inventory i
  unfolding available_count
  free_unit c item i b r h = ground (arith, eq_iff item i)

  take_out-Keeps :
      (now : ℕ) (p back : Vec3i) (c : Container) (picked : Option String) (b : Belt)
      → IsSound j ps b
      → b.containers back ≡ some c
      → pick_available_item c ≡ picked
      → b.ground.next_item_num + 1 < word
      → Keeps j ps 1 b (take_out now p back c picked b)
  unfolding take_out
  take_out-Keeps now p back c none b s f h room = Keeps-refl j ps 1 b s
  take_out-Keeps now p back c (some item) b s f h room =
      let (named, free) = pick-IsFree c item h in
      let keys = spawn-Tidy now p item 1 b.ground in
      let space = enough_room j ps distinct b back c s f in
      let c' : Container = record c { inventory = take_item item 1 c.inventory } in
      let more = lying-spawn b.ground j now p item 1 s.indexed room named refl (omega arith) in
      let less = get-take_item item 1 c.inventory j (omega arith) (omega arith) in
      let reserved = s.backed back c f in
      let one = free_unit c item j (omega arith) reserved free in
      kept_store j ps distinct 1 b (spawn now p item 1 b.ground).1 back c c' s f
        (spawn-IsIndexed b.ground s.indexed now p item 1 room) (keys.distinct s.distinct)
        (omega arith) (omega arith) (keys.taken room)

  pull_from-Keeps :
      (now : ℕ) (p back : Vec3i) (found : Option Container) (b : Belt)
      → IsSound j ps b
      → b.containers back ≡ found
      → b.ground.next_item_num + 1 < word
      → Keeps j ps 1 b (pull_from now p back found b)
  unfolding pull_from
  pull_from-Keeps now p back none b s f room = Keeps-refl j ps 1 b s
  pull_from-Keeps now p back (some c) b s f room =
      take_out-Keeps now p back c (pick_available_item c) b s f refl room

  pull_onto-Keeps :
      (now : ℕ) (p : Vec3i) (m : Option ConveyorMeta) (b : Belt)
      → IsSound j ps b
      → b.ground.next_item_num + 1 < word
      → Keeps j ps 1 b (pull_onto now l p m b)
  unfolding pull_onto
  pull_onto-Keeps now p none b s room = Keeps-refl j ps 1 b s
  pull_onto-Keeps now p (some m) b s room =
      let back : Vec3i = record { x = sub64 p.x m.dx; y = p.y; z = sub64 p.z m.dz } in
      elim (Bool-cases (l.conveyor_enabled b p)) [
        | inr off ↦ rw off (Keeps-refl j ps 1 b s)
        | inl on ↦ elim (Bool-cases (has_live_item (b.ground.items_at p) b.ground.items)) [
          | inl full ↦ rw (on, full) (Keeps-refl j ps 1 b s)
          | inr empty ↦
              rw (on, empty) (pull_from-Keeps now p back (b.containers back) b s refl room)
        ]
      ]

  pub pull_all-Keeps :
      (now : ℕ) (qs : List Vec3i) (b : Belt)
      → IsSound j ps b
      → b.ground.next_item_num + length qs < word
      → Keeps j ps (length qs) b (pull_all now l qs b)
  unfolding pull_all
  pull_all-Keeps now [] b s room = Keeps-refl j ps 0 b s
  pull_all-Keeps now (q ∷ qs) b s room =
      let b' = pull_onto now l q (moving (meta_at q l.conveyors)) b in
      let first = pull_onto-Keeps now q (moving (meta_at q l.conveyors)) b s (omega arith) in
      Keeps-trans j ps distinct 1 (length qs) (suc (length qs)) b b' (pull_all now l qs b')
        (omega arith) first (pull_all-Keeps now qs b' first.sound (omega (arith, first.taken)))
