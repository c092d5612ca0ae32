-- ===== src/Conveyor/Belt/Tick.antt =====
-- A tick of the belts, whole.
use voxelcraft_ai.Prelude.{
  ℕ, ◌+◌, ◌≤◌, ◌<◌, ◌≡◌, refl, String, List, [], ◌∷◌, arith, word, length, ◌∙◌,
}
use voxelcraft_ai.Kernel.Vec.{Vec3i}
use voxelcraft_ai.Kernel.Places.{Distinct}
use voxelcraft_ai.Conveyor.Belt.{
  Belt, Line, Conveyors, sorted_live_item_ids, sorted_conveyor_positions, belt_positions, carry_all,
  run,
}
use voxelcraft_ai.Conveyor.Belt.Sorted.{place, sort_positions}
use voxelcraft_ai.Conveyor.Belt.Holdings.{IsSound, holdings}
use voxelcraft_ai.Conveyor.Belt.Carry.{carry_all-Keeps}
use voxelcraft_ai.Conveyor.Belt.Pull.{pull_all-Keeps}

length-place : (p : Vec3i) (ps : List Vec3i) → length (place p ps) ≡ length ps + 1
unfolding place
length-place p [] = omega arith
length-place p (q ∷ qs) = ground (arith, length-place p qs)

length-sort_positions : (ps : List Vec3i) → length (sort_positions ps) ≡ length ps
unfolding sort_positions
length-sort_positions [] = refl
length-sort_positions (p ∷ ps) =
    omega (arith, length-place p (sort_positions ps), length-sort_positions ps)

length-belt_positions :
    (m : Conveyors) (at : Vec3i → ℕ) (id : ℕ) → length (belt_positions m at id) ≤ length m
unfolding belt_positions
length-belt_positions [] at id = omega arith
length-belt_positions ((p, d) ∷ m) at id = ground (arith, length-belt_positions m at id)

-- A tick of the belts keeps all that is sound, and what there is of the item: it lies on the ground or
-- is stored, as before in all.
pub run-Keeps :
    (now : ℕ) (l : Line) (j : String) (ps : List Vec3i) (b : Belt)
    → Distinct ps
    → IsSound j ps b
    → b.ground.next_item_num + length l.conveyors < word
    → IsSound j ps (run now l b) × (holdings j ps (run now l b) ≡ holdings j ps b)
unfolding run sorted_conveyor_positions
run-Keeps now l j ps b distinct s room =
    let moved = carry_all l (sorted_live_item_ids b.ground.items) b in
    let first =
      carry_all-Keeps j ps distinct l (sorted_live_item_ids b.ground.items) b s (omega arith) in
    let all = belt_positions l.conveyors l.block_at l.conveyor_id in
    let then_pull = pull_all-Keeps j ps distinct l now (sort_positions all) moved first.sound (
      omega (
        arith,
        first.taken,
        length-sort_positions all,
        length-belt_positions l.conveyors l.block_at l.conveyor_id,
      )) in
    (then_pull.sound, then_pull.same ∙ first.same)
