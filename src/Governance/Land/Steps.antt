-- ===== src/Governance/Land/Steps.antt =====
-- What holds after a claim handler holds where it refuses and where it goes on.
use voxelcraft_ai.Prelude.{ℕ, ◌≡◌, refl, String, true, Bool-cases, Option, none, some, inl, inr}
use voxelcraft_ai.Economy.Trade.Validation.{Check, pass, reject}
use voxelcraft_ai.Governance.Land.{LandClaim, validate_land_admin, is_land_admin}
use voxelcraft_ai.Governance.Land.Handlers.{Estate, ClaimEnv, ClaimReq, Outcome, checked, with_land}

module _ (env : ClaimEnv) (agent_id : String) (inst : ClaimReq) (now : ℕ) (s : Estate)
    (P : Estate → Type 0) (same : P s) where
  pub checked_lem :
      (c : Check) (next : Outcome)
      → (c ≡ pass → P next.0)
      → P (checked env agent_id inst now c s next).0
  unfolding checked
  checked_lem pass next h = h refl
  checked_lem (reject code msg) next h = same

  -- What follows is done by an admin of the land.
  with_land_lem :
      (found : Option LandClaim) (next : LandClaim → Outcome)
      → ((land : LandClaim)
          → found ≡ some land
          → is_land_admin env.orgs agent_id land ≡ true
          → P (next land).0)
      → P (with_land env agent_id inst now found s next).0
  unfolding with_land validate_land_admin checked
  with_land_lem none next h = same
  with_land_lem (some land) next h = elim (Bool-cases (is_land_admin env.orgs agent_id land)) [
    | inl admin ↦ rw admin (h land refl admin)
    | inr outside ↦ rw outside same
  ]

  pub checked_land_lem :
      (c : Check) (found : Option LandClaim) (next : LandClaim → Outcome)
      → ((land : LandClaim)
          → found ≡ some land
          → is_land_admin env.orgs agent_id land ≡ true
          → P (next land).0)
      → P (checked env agent_id inst now c s (with_land env agent_id inst now found s next)).0
  checked_land_lem c found next h =
      checked_lem c (with_land env agent_id inst now found s next)
        (λ ok. with_land_lem found next h)
