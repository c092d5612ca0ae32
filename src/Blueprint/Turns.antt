-- ===== src/Blueprint/Turns.antt =====
-- The quarter turns of internal/sim/world/logic/blueprint/rotation.go.
use voxelcraft_ai.Prelude.{ℕ, ◌+◌, ◌-◌, ◌*◌, ◌%◌, ◌<◌, ◌≡◌, arith, word, sub64}
use voxelcraft_ai.Blueprint.{normalize_rotation, rotate_xz}

pub normalize_rotation-lt : (r : ℕ) → r < word → normalize_rotation r < 4
unfolding normalize_rotation
normalize_rotation-lt r h = ground arith

-- Up to three quarter turns are read as they are, as degrees, and as negative degrees.
pub normalize_rotation_lem :
    (t : ℕ)
    → t < 2 * 2
    → (normalize_rotation t ≡ t)
      × (normalize_rotation (90 * t) ≡ t)
      × (normalize_rotation (sub64 0 (90 * t)) ≡ (4 - t) % 4)
unfolding normalize_rotation
normalize_rotation_lem t h = ground arith

-- Of 64-bit coordinates, rotating twice is rotating by the sum of the quarter turns modulo 4.
pub rotate_xz-rotate_xz :
    (x z a b : ℕ)
    → x < word
    → z < word
    → let r = rotate_xz x z a in rotate_xz r.0 r.1 b ≡ rotate_xz x z ((a + b) % 4)
unfolding rotate_xz
rotate_xz-rotate_xz x z a b hx hz = ground arith
