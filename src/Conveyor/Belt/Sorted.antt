-- ===== src/Conveyor/Belt/Sorted.antt =====
-- The order of positions in which the belts pull: by x, then y, then z, as `int`s (runtime.go,
-- `SortedPositions`).
use voxelcraft_ai.Prelude.{Bool, ◌==◌, List, [], ◌∷◌, if◌then◌else◌, lt_int}
use voxelcraft_ai.Kernel.Vec.{Vec3i}

unfoldable pub before : Vec3i → Vec3i → Bool
before p q =
    if p.x == q.x then (if p.y == q.y then lt_int p.z q.z else lt_int p.y q.y) else lt_int p.x q.x

unfoldable pub place : Vec3i → List Vec3i → List Vec3i
place p [] = p ∷ []
place p (q ∷ qs) = let rest = place p qs in if before q p then q ∷ rest else p ∷ q ∷ qs

unfoldable pub sort_positions : List Vec3i → List Vec3i
unfolding place before
sort_positions [] = []
sort_positions (p ∷ ps) = place p (sort_positions ps)
