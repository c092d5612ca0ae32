-- ===== src/Kernel/Vec.antt =====
-- internal/sim/world/kernel/model/vec.go. Coordinates are `int` patterns.
use voxelcraft_ai.Prelude.{
  ℕ, Bool, true, ◌≡◌, arith, ◌&&◌, ◌==◌, if◌then◌else◌, add64, sub64, lt_int,
}

pub record Vec3i : Type 0 where
  pub x : ℕ
  pub y : ℕ
  pub z : ℕ

-- d := a - b; if d < 0 { d = -d }
abbrev pub abs_diff : ℕ → ℕ → ℕ
abs_diff a b = let d = sub64 a b in if lt_int d 0 then sub64 0 d else d

unfoldable pub manhattan : Vec3i → Vec3i → ℕ
manhattan a b = add64 (add64 (abs_diff a.x b.x) (abs_diff a.y b.y)) (abs_diff a.z b.z)

-- a == b on the struct
abbrev pub same_pos : Vec3i → Vec3i → Bool
same_pos a b = a.x == b.x && a.y == b.y && a.z == b.z

pub same_pos-path : (p q : Vec3i) → same_pos p q ≡ true → p ≡ q
same_pos-path p q e = ground arith

pub same_pos_refl : (p : Vec3i) → same_pos p p ≡ true
same_pos_refl p = ground arith
