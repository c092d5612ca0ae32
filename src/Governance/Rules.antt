-- ===== src/Governance/Rules.antt =====
-- internal/sim/world/policy/rules/claims.go, feature/governance/permissions/permissions.go and
-- feature/governance/maintenance/maintenance.go: what visitors may do on a land, and what it costs.
use voxelcraft_ai.Prelude.{
  ℕ, String, Bool, true, false, ◌&&◌, ◌||◌, not, [], ◌∷◌, str_eq, ◌==◌, if◌then◌else◌, add64,
  lt_int, le_int, Map,
}
use voxelcraft_ai.Economy.Floats.{Floats}

pub record ClaimFlags : Type 0 where
  pub allow_build : Bool
  pub allow_break : Bool
  pub allow_damage : Bool
  pub allow_trade : Bool

unfoldable pub default_claim_type_for_world : String → String
default_claim_type_for_world world_type =
    if str_eq world_type "OVERWORLD"
    then "HOMESTEAD"
    else if str_eq world_type "CITY_HUB"
    then "CITY_CORE"
    else "DEFAULT"

unfoldable pub default_claim_flags : String → ClaimFlags
default_claim_flags claim_type = record {
  allow_build = false;
  allow_break = false;
  allow_damage = false;
  allow_trade = str_eq claim_type "CITY_CORE";
}

module _ (fl : Floats) where
  open fl use {Float, le_f}

  unfoldable pub in_window : Float → Float → Float → Bool
  in_window t start end =
      if le_f start end then le_f start t && le_f t end else le_f start t || le_f t end

  unfoldable pub can_action_with_curfew : Bool → Bool → Float → Float → Float → Bool
  unfolding in_window
  can_action_with_curfew base_allowed curfew_enabled now start end =
      if base_allowed then if curfew_enabled then not (in_window now start end) else true else false

pub record Permissions : Type 0 where
  pub can_build : Bool
  pub can_break : Bool
  pub can_damage : Bool
  pub can_trade : Bool

unfoldable pub wild_permissions : Permissions
wild_permissions = record {
  can_build = true;
  can_break = true;
  can_damage = false;
  can_trade = true;
}

unfoldable pub for_land : (is_member : Bool) (maintenance_stage : ℕ) → ClaimFlags → Permissions
for_land is_member stage flags =
    if is_member
    then record {
      can_build = true;
      can_break = true;
      can_damage = flags.allow_damage;
      can_trade = true;
    }
    else if le_int 2 stage
    then wild_permissions
    else record {
      can_build = flags.allow_build;
      can_break = flags.allow_break;
      can_damage = flags.allow_damage;
      can_trade = flags.allow_trade;
    }

unfoldable pub can_withdraw_container : (has_land is_member : Bool) (maintenance_stage : ℕ) → Bool
can_withdraw_container has_land is_member stage =
    if has_land then if le_int 2 stage && not is_member then true else is_member else true

-- EffectiveCost
unfoldable pub effective_cost : Map ℕ → Map ℕ
effective_cost [] = ("IRON_INGOT", 1) ∷ ("COAL", 1) ∷ []
effective_cost (entry ∷ cost) = entry ∷ cost

unfoldable pub next_due : (now due day : ℕ) → ℕ
next_due now due day = if day == 0 then due else if due == 0 then add64 now day else add64 due day

unfoldable pub next_stage : (current : ℕ) (paid : Bool) → ℕ
next_stage current paid = if paid then 0 else if lt_int current 2 then add64 current 1 else current
