-- ===== src/Governance/Land/Disjoint.antt =====
-- Two lands that do not overlap have no column of blocks in common.
use voxelcraft_ai.Prelude.{ℕ, ◌+◌, ◌≤◌, ◌<◌, ◌≡◌, ◌%◌, true, false, arith, word, add64, le_int}
use voxelcraft_ai.Kernel.Vec.{Vec3i, abs_diff}
use voxelcraft_ai.Governance.Land.{LandClaim, contains, overlaps}

-- A coordinate, moved so that it is not negative.
abbrev moved : ℕ → ℕ
moved x = (x + 1099511627776) % word

-- A coordinate between -2^40 and 2^40.
abbrev pub IsCoordinate : ℕ → Type 0
IsCoordinate x = (x < word) × (moved x < 2199023255552)

-- The position of a block, in its column.
abbrev pub IsSpot : Vec3i → Type 0
IsSpot p = IsCoordinate p.x × IsCoordinate p.z

abbrev pub IsPlot : LandClaim → Type 0
IsPlot c =
    IsCoordinate c.anchor.x
    × IsCoordinate c.anchor.z
    × (c.radius ≤ 128)
    × (le_int c.radius 0 ≡ false)

near :
    (a b r : ℕ)
    → IsCoordinate a
    → IsCoordinate b
    → r ≤ 256
    → le_int (abs_diff a b) r ≡ true
    → (moved a ≤ moved b + r) × (moved b ≤ moved a + r)
near a b r ca cb hr h = ground arith

near_back :
    (a b r : ℕ)
    → IsCoordinate a
    → IsCoordinate b
    → r ≤ 256
    → (moved a ≤ moved b + r)
    → (moved b ≤ moved a + r)
    → le_int (abs_diff a b) r ≡ true
near_back a b r ca cb hr h k = ground arith

pub apart_along :
    (a b p r s : ℕ)
    → IsCoordinate a
    → IsCoordinate b
    → IsCoordinate p
    → r ≤ 128
    → s ≤ 128
    → le_int (abs_diff p a) r ≡ true
    → le_int (abs_diff p b) s ≡ true
    → le_int (abs_diff a b) (add64 r s) ≡ true
apart_along a b p r s ca cb cp hr hs h k =
    let (h1, h2) = near p a r cp ca (omega arith) h in
    let (k1, k2) = near p b s cp cb (omega arith) k in
    let e : add64 r s ≡ r + s = omega arith in
    rw e (near_back a b (r + s) ca cb (omega arith) (omega arith) (omega arith))

-- A land whose zone overlaps another has a column in common with it, if at all.
pub apart :
    (c d : LandClaim) (p : Vec3i)
    → IsPlot c
    → IsPlot d
    → IsSpot p
    → overlaps c.anchor c.radius d ≡ false
    → contains c p ≡ true
    → contains d p ≡ true
    → ⊥
unfolding overlaps contains
apart c d p (cx, cz, rc, _) (dx, dz, rd, _) (px, pz) h k l = ground (
  arith,
  h,
  apart_along c.anchor.x d.anchor.x p.x c.radius d.radius cx dx px rc rd,
  apart_along c.anchor.z d.anchor.z p.z c.radius d.radius cz dz pz rc rd,
)
