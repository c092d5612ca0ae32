-- ===== src/Governance/Land/Overlaps.antt =====
-- What the searches for overlaps and the checks of a radius tell.
use voxelcraft_ai.Prelude.{
  ℕ, ◌≤◌, ◌<◌, ◌≡◌, sym, subst, String, false, Bool-cases, some, inl, inr, [], ◌∷◌, str_eq, arith,
  word, le_int, Map, lookup,
}
use mathlib.Core.Option.{some-injective}
use voxelcraft_ai.Kernel.Vec.{Vec3i}
use voxelcraft_ai.Economy.Trade.Validation.{pass}
use voxelcraft_ai.Governance.Land.{
  LandClaim, overlaps, upgrade_overlaps, claim_overlaps, validate_upgrade_radius,
}
use voxelcraft_ai.Governance.Land.Handlers.{claim_radius}

pub claim_overlaps_lem :
    (anchor : Vec3i) (r : ℕ) (claims : Map LandClaim)
    → claim_overlaps anchor r claims ≡ false
    → (i : String) (d : LandClaim) → lookup i claims ≡ some d
    → overlaps anchor r d ≡ false
unfolding claim_overlaps lookup
claim_overlaps_lem anchor r [] h i d e = cc
claim_overlaps_lem anchor r ((k, c) ∷ claims) h i d e = elim (Bool-cases (str_eq k i)) [
  | inl hit ↦
      let same : c ≡ d = some-injective _ _ (rw hit at e) in
      subst (λ (x : LandClaim). overlaps anchor r x ≡ false) same (ground arith)
  | inr miss ↦ claim_overlaps_lem anchor r claims (ground arith) i d (rw miss at e)
]

pub upgrade_overlaps_lem :
    (anchor : Vec3i) (r : ℕ) (land_id : String) (claims : Map LandClaim)
    → upgrade_overlaps anchor r land_id claims ≡ false
    → (i : String) (d : LandClaim) → lookup i claims ≡ some d
    → (str_eq d.land_id "" ≡ false)
      × (le_int d.radius 0 ≡ false)
      × (str_eq d.land_id land_id ≡ false)
    → overlaps anchor r d ≡ false
unfolding upgrade_overlaps lookup
upgrade_overlaps_lem anchor r land_id [] h i d e q = cc
upgrade_overlaps_lem anchor r land_id ((k, c) ∷ claims) h i d e q = elim (Bool-cases (str_eq k i)) [
  | inl hit ↦
      let same : c ≡ d = some-injective _ _ (rw hit at e) in
      subst (λ (x : LandClaim). overlaps anchor r x ≡ false) same
        (ground (
          arith,
          h,
          subst
              (λ (x : LandClaim).
                (str_eq x.land_id "" ≡ false)
                × (le_int x.radius 0 ≡ false)
                × (str_eq x.land_id land_id ≡ false))
              (sym same) q,
        ))
  | inr miss ↦ upgrade_overlaps_lem anchor r land_id claims (ground arith) i d (rw miss at e) q
]

pub upgraded_radius :
    (r target : ℕ)
    → validate_upgrade_radius r target ≡ pass
    → (target ≤ 128) × (le_int target 0 ≡ false)
unfolding validate_upgrade_radius
upgraded_radius r target e = ground arith

pub claim_radius_lem :
    (r : ℕ) → r < word → (claim_radius r ≤ 128) × (le_int (claim_radius r) 0 ≡ false)
unfolding claim_radius
claim_radius_lem r h = ground arith
