-- ===== src/Blueprint.antt =====
-- internal/sim/world/logic/blueprint/rotation.go. Numbers are `int` patterns; Go's division and
-- remainder cut towards 0, so they act on the magnitude.
pub mod Turns
use voxelcraft_ai.Prelude.{
  ℕ, ◌-◌, ◌/◌, ◌%◌, ◌<◌, Bool, ◌&&◌, not, ◌==◌, ltb, if◌then◌else◌, word, half, lt_int, sub64,
}
use voxelcraft_ai.Kernel.Vec.{Vec3i}

abbrev pub magnitude : ℕ → ℕ
magnitude r = if lt_int r 0 then word - r else r

-- NormalizeRotation
unfoldable pub normalize_rotation : ℕ → ℕ
normalize_rotation r =
    let m = magnitude r in
    let turns = (if m % 90 == 0 && ltb 3 m then m / 90 else m) % 4 in
    if lt_int r 0 && not (turns == 0) then 4 - turns else turns

-- RotateXZ; `rot & 3` is the remainder by 4 of the pattern.
unfoldable pub rotate_xz : ℕ → ℕ → ℕ → ℕ × ℕ
rotate_xz x z rot =
    let q = rot % 4 in
    if q == 0
    then (x, z)
    else if q == 1
    then (z, sub64 0 x)
    else if q == 2
    then (sub64 0 x, sub64 0 z)
    else (sub64 0 z, x)

unfoldable pub rotate_offset : Vec3i → ℕ → Vec3i
unfolding rotate_xz
rotate_offset off rot = let r = rotate_xz off.x off.z rot in record { x = r.0; y = off.y; z = r.1 }
