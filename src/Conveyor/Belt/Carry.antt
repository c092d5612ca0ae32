-- ===== src/Conveyor/Belt/Carry.antt =====
-- The first pass keeps the item: what leaves the ground is stored.
use voxelcraft_ai.Prelude.{
  ◌+◌, ◌<◌, ◌≡◌, refl, ap, String, true, Bool-cases, inl, inr, Option, none, some, List, [], ◌∷◌,
  arith, word, get, ◌&&◌, not, ◌==◌, str_eq, eq_iff, add64, lookup, get-insert,
}
use voxelcraft_ai.Kernel.Vec.{Vec3i}
use voxelcraft_ai.Kernel.Places.{Distinct}
use voxelcraft_ai.Contracts.Container.{Container, add_item}
use voxelcraft_ai.Ground.{ItemEntity, remove, move}
use voxelcraft_ai.Ground.Index.{remove-IsIndexed, move-IsIndexed}
use voxelcraft_ai.Ground.Totals.{amount, lying-remove, lying-move}
use voxelcraft_ai.Ground.Keys.{remove-Tidy, move-Tidy}
use voxelcraft_ai.Conveyor.Belt.{
  Belt, Line, ConveyorMeta, is_live, deliver, forward, moving, meta_at, carry_found, carry_all,
}
use voxelcraft_ai.Conveyor.Belt.Holdings.{IsSound, Keeps, Keeps-refl}
use voxelcraft_ai.Conveyor.Belt.Writes.{kept_ground, kept_store, enough_room, Keeps-trans}

module _ (j : String) (ps : List Vec3i) (distinct : Distinct ps) (l : Line) where
  deliver-Keeps :
      (id : String) (e : ItemEntity) (to : Vec3i) (found : Option Container) (b : Belt)
      → IsSound j ps b
      → lookup id b.ground.items ≡ some e
      → is_live (some e) ≡ true
      → b.ground.next_item_num < word
      → b.containers to ≡ found
      → Keeps j ps 0 b (deliver l id e to found b)
  unfolding deliver is_live
  deliver-Keeps id e to none b s f live room h =
      let block = l.block_at to in
      let keys = move-Tidy id to b.ground in
      elim (Bool-cases (l.block_solid block && not (str_eq (l.block_name block) "CONVEYOR"))) [
        | inl blocked ↦ rw blocked (Keeps-refl j ps 0 b s)
        | inr open_cell ↦ rw open_cell (
            kept_ground j ps distinct 0 b (move id to b.ground) s
              (move-IsIndexed b.ground s.indexed id to) (keys.distinct s.distinct)
              (lying-move b.ground j id to) (keys.taken (omega arith)))
      ]
  deliver-Keeps id e to (some c) b s f live room h =
      let keys = remove-Tidy id b.ground in
      let left = lying-remove b.ground j id s.distinct in
      let had : amount j (lookup id b.ground.items) ≡ amount j (some e) = ap (amount j) f in
      let space = enough_room j ps distinct b to c s h in
      let c' : Container = record c { inventory = add_item e.item e.count c.inventory } in
      let stored_more : get c'.inventory j ≡ get c.inventory j + amount j (some e) = ground (
        arith,
        get-insert e.item j (add64 (get c.inventory e.item) e.count) c.inventory,
        eq_iff e.item j,
      ) in
      kept_store j ps distinct 0 b (remove id b.ground) to c c' s h
        (remove-IsIndexed b.ground s.indexed id) (keys.distinct s.distinct)
        (omega (arith, s.backed to c h)) (omega arith) (keys.taken (omega arith))

  forward-Keeps :
      (id : String) (e : ItemEntity) (m : Option ConveyorMeta) (b : Belt)
      → IsSound j ps b
      → lookup id b.ground.items ≡ some e
      → is_live (some e) ≡ true
      → b.ground.next_item_num < word
      → Keeps j ps 0 b (forward l id e m b)
  unfolding forward
  forward-Keeps id e none b s f live room = Keeps-refl j ps 0 b s
  forward-Keeps id e (some m) b s f live room =
      let to : Vec3i = record { x = add64 e.pos.x m.dx; y = e.pos.y; z = add64 e.pos.z m.dz } in
      elim (Bool-cases (l.conveyor_enabled b e.pos)) [
        | inl on ↦ rw on (deliver-Keeps id e to (b.containers to) b s f live room refl)
        | inr off ↦ rw off (Keeps-refl j ps 0 b s)
      ]

  carry_found-Keeps :
      (id : String) (found : Option ItemEntity) (b : Belt)
      → IsSound j ps b
      → lookup id b.ground.items ≡ found
      → b.ground.next_item_num < word
      → Keeps j ps 0 b (carry_found l id found b)
  unfolding carry_found
  carry_found-Keeps id none b s f room = Keeps-refl j ps 0 b s
  carry_found-Keeps id (some e) b s f room = elim (Bool-cases (is_live (some e))) [
    | inr gone ↦ rw gone (Keeps-refl j ps 0 b s)
    | inl live ↦ elim (Bool-cases (l.block_at e.pos == l.conveyor_id)) [
      | inr off ↦ rw (live, off) (Keeps-refl j ps 0 b s)
      | inl on ↦
          rw (live, on) (forward-Keeps id e (moving (meta_at e.pos l.conveyors)) b s f live room)
    ]
  ]

  pub carry_all-Keeps :
      (ids : List String) (b : Belt)
      → IsSound j ps b
      → b.ground.next_item_num < word
      → Keeps j ps 0 b (carry_all l ids b)
  unfolding carry_all
  carry_all-Keeps [] b s room = Keeps-refl j ps 0 b s
  carry_all-Keeps (id ∷ ids) b s room =
      let b' = carry_found l id (lookup id b.ground.items) b in
      let first = carry_found-Keeps id (lookup id b.ground.items) b s refl room in
      Keeps-trans j ps distinct 0 0 0 b b' (carry_all l ids b') (omega arith) first
        (carry_all-Keeps ids b' first.sound (omega (arith, first.taken)))
