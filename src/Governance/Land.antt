-- ===== src/Governance/Land.antt =====
-- The lands: internal/sim/world/kernel/model/claims.go, feature/governance/runtime/ownership.go and
-- feature/governance/claims/claims.go. The fields that laws set (tax, curfew, fines and passes) are
-- left out: no operation here reads them.
pub mod Disjoint
pub mod Steps
pub mod Overlaps
pub mod Plots
pub mod Rights
pub mod Handlers
use voxelcraft_ai.Prelude.{
  ℕ, zero, suc, String, Bool, true, false, ◌&&◌, ◌||◌, not, Option, none, some, List, [], ◌∷◌,
  str_eq, ◌==◌, if◌then◌else◌, add64, sub64, lt_int, le_int, Map, lookup, insert, get, is_blank,
}
use voxelcraft_ai.Kernel.Vec.{Vec3i, abs_diff}
use voxelcraft_ai.Kernel.Text.{trim_space}
use voxelcraft_ai.Economy.Trade.Validation.{Check, pass, reject}
use voxelcraft_ai.Governance.Rules.{ClaimFlags, Permissions, for_land, wild_permissions}

pub record LandClaim : Type 0 where
  pub land_id : String
  pub owner : String
  pub claim_type : String
  pub anchor : Vec3i
  pub radius : ℕ
  pub flags : ClaimFlags
  pub members : Map Bool
  pub maintenance_due_tick : ℕ
  pub maintenance_stage : ℕ

-- OrgRole
pub data OrgRole : Type 0 where
  leader officer member : OrgRole

pub record Organization : Type 0 where
  pub org_id : String
  pub kind : String
  pub name : String
  pub created_tick : ℕ
  pub meta_version : ℕ
  pub org_members : Map OrgRole
  pub treasury : Map ℕ
  pub treasury_by_world : Map (Map ℕ)

-- LandClaim.Contains
unfoldable pub contains : LandClaim → Vec3i → Bool
contains c pos =
    le_int (abs_diff pos.x c.anchor.x) c.radius && le_int (abs_diff pos.z c.anchor.z) c.radius

unfoldable pub land_at : Map LandClaim → Vec3i → Option LandClaim
land_at [] pos = none
land_at ((id, c) ∷ claims) pos =
    let rest = land_at claims pos in if contains c pos then some c else rest

abbrev pub is_there {ℓ} : {A : Type ℓ} → Option A → Bool
is_there none = false
is_there (some a) = true

abbrev is_admin_role : Option OrgRole → Bool
is_admin_role (some leader) = true
is_admin_role (some officer) = true
is_admin_role _ = false

abbrev members_of : Option Organization → Map OrgRole
members_of none = []
members_of (some o) = o.org_members

unfoldable pub is_org_member : Map Organization → String → String → Bool
is_org_member orgs agent_id org_id =
    if str_eq org_id "" then false else is_there (lookup agent_id (members_of (lookup org_id orgs)))

unfoldable pub is_org_admin : Map Organization → String → String → Bool
is_org_admin orgs agent_id org_id =
    if str_eq org_id ""
    then false
    else is_admin_role (lookup agent_id (members_of (lookup org_id orgs)))

unfoldable pub is_land_admin : Map Organization → String → LandClaim → Bool
unfolding is_org_admin
is_land_admin orgs agent_id land =
    if str_eq land.owner agent_id then true else is_org_admin orgs agent_id land.owner

-- land.Members[agentID], which is false for a missing key.
abbrev flag_of : Option Bool → Bool
flag_of none = false
flag_of (some b) = b

unfoldable pub is_land_member : Map Organization → String → LandClaim → Bool
unfolding is_org_member
is_land_member orgs agent_id land =
    if str_eq land.owner agent_id
    then true
    else if flag_of (lookup agent_id land.members)
    then true
    else is_org_member orgs agent_id land.owner

-- permissionsFor
abbrev permissions_on : Map Organization → String → Option LandClaim → Permissions
permissions_on orgs agent_id none = wild_permissions
permissions_on orgs agent_id (some land) =
    for_land (is_land_member orgs agent_id land) land.maintenance_stage land.flags

unfoldable pub permissions_for :
    Map LandClaim → Map Organization → String → Vec3i → Option LandClaim × Permissions
unfolding land_at is_land_member
permissions_for claims orgs agent_id pos =
    let land = land_at claims pos in (land, permissions_on orgs agent_id land)

-- canPickupItemEntity of entities_items_runtime_facade.go
abbrev pickup_on : Map Organization → String → Option LandClaim → Bool
pickup_on orgs agent_id none = true
pickup_on orgs agent_id (some land) =
    if le_int 2 land.maintenance_stage && not (is_land_member orgs agent_id land)
    then true
    else is_land_member orgs agent_id land

unfoldable pub can_pickup_item_entity : Map LandClaim → Map Organization → String → Vec3i → Bool
unfolding land_at is_land_member
can_pickup_item_entity claims orgs agent_id pos = pickup_on orgs agent_id (land_at claims pos)

unfoldable pub core_radius : ℕ → ℕ → ℕ
core_radius land_radius configured =
    let r = if le_int configured 0 then 16 else configured in
    let r' = if lt_int land_radius r then land_radius else r in if lt_int r' 0 then 0 else r'

unfoldable pub core_contains : (anchor_x anchor_z pos_x pos_z core : ℕ) → Bool
core_contains anchor_x anchor_z pos_x pos_z core =
    if le_int core 0
    then false
    else le_int (abs_diff pos_x anchor_x) core && le_int (abs_diff pos_z anchor_z) core

-- The request's policy, where it has one.
unfoldable pub validate_set_permissions_input : String → Option (Map Bool) → Check
validate_set_permissions_input land_id policy =
    if is_blank land_id || not (is_there policy)
    then reject "E_BAD_REQUEST" "missing land_id/policy"
    else pass

abbrev flag_or : Bool → Option Bool → Bool
flag_or old none = old
flag_or old (some v) = v

unfoldable pub apply_policy_flags : ClaimFlags → Map Bool → ClaimFlags
apply_policy_flags flags policy = record {
  allow_build = flag_or flags.allow_build (lookup "allow_build" policy);
  allow_break = flag_or flags.allow_break (lookup "allow_break" policy);
  allow_damage = flag_or flags.allow_damage (lookup "allow_damage" policy);
  allow_trade = flag_or flags.allow_trade (lookup "allow_trade" policy);
}

unfoldable pub validate_upgrade_input : String → ℕ → Check
validate_upgrade_input land_id radius =
    if is_blank land_id || le_int radius 0
    then reject "E_BAD_REQUEST" "missing land_id/radius"
    else pass

unfoldable pub validate_upgrade_radius : (current target : ℕ) → Check
validate_upgrade_radius current target =
    if not (target == 64) && not (target == 128)
    then reject "E_BAD_REQUEST" "radius must be 64 or 128"
    else if le_int target current
    then reject "E_BAD_REQUEST" "radius must increase"
    else pass

-- cost[item] += n
abbrev add_cost : String → ℕ → Map ℕ → Map ℕ
add_cost item n cost = insert item (add64 (get cost item) n) cost

unfoldable pub upgrade_cost : (current target : ℕ) → Map ℕ
upgrade_cost current target =
    let small =
      if lt_int current 64 && le_int 64 target
      then add_cost "CRYSTAL_SHARD" 2 (add_cost "BATTERY" 1 [])
      else [] in
    if lt_int current 128 && le_int 128 target
    then add_cost "CRYSTAL_SHARD" 4 (add_cost "BATTERY" 2 small)
    else small

unfoldable pub validate_member_mutation_input : String → String → Check
validate_member_mutation_input land_id member_id =
    if is_blank land_id || is_blank member_id
    then reject "E_BAD_REQUEST" "missing land_id/member_id"
    else pass

unfoldable pub normalize_new_owner : String → String
normalize_new_owner owner = trim_space owner

unfoldable pub validate_deed_input : String → String → Check
validate_deed_input land_id new_owner =
    if is_blank land_id || is_blank new_owner
    then reject "E_BAD_REQUEST" "missing land_id/new_owner"
    else pass

-- One zone of `UpgradeOverlaps`, and one land of the loop of `HandleTaskClaimLand`.
unfoldable pub overlaps : Vec3i → ℕ → LandClaim → Bool
overlaps anchor radius c =
    le_int (abs_diff anchor.x c.anchor.x) (add64 radius c.radius)
    && le_int (abs_diff anchor.z c.anchor.z) (add64 radius c.radius)

-- `UpgradeOverlaps` on the zones that `BuildZones` makes of the lands: their order does not matter.
unfoldable pub upgrade_overlaps : Vec3i → ℕ → String → Map LandClaim → Bool
unfolding overlaps
upgrade_overlaps anchor target land_id [] = false
upgrade_overlaps anchor target land_id ((id, c) ∷ claims) =
    let rest = upgrade_overlaps anchor target land_id claims in
    if str_eq c.land_id "" || le_int c.radius 0 || str_eq c.land_id land_id
    then rest
    else overlaps anchor target c || rest

unfoldable pub claim_overlaps : Vec3i → ℕ → Map LandClaim → Bool
unfolding overlaps
claim_overlaps anchor radius [] = false
claim_overlaps anchor radius ((id, c) ∷ claims) =
    overlaps anchor radius c || claim_overlaps anchor radius claims

unfoldable pub validate_land_admin : Bool → Bool → Check
validate_land_admin exists is_admin =
    if exists
    then if is_admin then pass else reject "E_NO_PERMISSION" "not land admin"
    else reject "E_INVALID_TARGET" "land not found"
