-- ===== src/Tests/Lands.antt =====
-- A home, its enlargement, a neighbour, and a land whose owner is gone.
use voxelcraft_ai.Prelude.{
  Map, none, ◌≡◌, refl, sym, ap, subst, ◌∙◌, ◌&&◌, Bool-cases, inl, inr, String, true, false, ◌==◌,
  some, [], ◌∷◌, arith, lookup, eq_iff, str_eq,
}
use mathlib.Core.Option.{some-injective}
use voxelcraft_ai.Kernel.Text.{trim_space}
use voxelcraft_ai.Kernel.Vec.{Vec3i}
use voxelcraft_ai.Governance.Rules.{ClaimFlags, for_land, wild_permissions}
use voxelcraft_ai.Governance.Upkeep.{Upkeep, Config, tick_claims_maintenance}
use voxelcraft_ai.Governance.Upkeep.Payment.{IsNobody}
use voxelcraft_ai.Governance.Upkeep.Decay.{tick_claims_maintenance_decay}
use voxelcraft_ai.Governance.Land.{
  Organization, land_at, is_land_member, permissions_for, LandClaim, is_land_admin, is_org_admin,
}
use voxelcraft_ai.Governance.Land.Disjoint.{IsPlot}
use voxelcraft_ai.Governance.Land.Handlers.{
  Estate, ClaimEnv, ClaimReq, handle_set_permissions, handle_upgrade_claim, handle_add_member,
  handle_remove_member, handle_deed_land, ClaimTaskEnv, TaskReq, ClaimSite, handle_task_claim_land,
}
use voxelcraft_ai.Governance.Land.Plots.{
  IsPlotted, handle_upgrade_claim-IsPlotted, handle_task_claim_land-IsPlotted,
}
use voxelcraft_ai.Governance.Land.Rights.{Untouched, claim_handlers-Untouched}
use voxelcraft_ai.Tests.Data.{origin}

abbrev closed : ClaimFlags
closed = record {
  allow_build = false;
  allow_break = false;
  allow_damage = false;
  allow_trade = false;
}

abbrev home : LandClaim
home = record {
  land_id = "L1";
  owner = "A1";
  claim_type = "HOMESTEAD";
  anchor = origin;
  radius = 32;
  flags = closed;
  members = [];
  maintenance_due_tick = 100;
  maintenance_stage = 0;
}

abbrev estate : Estate
estate = record {
  claims = ("L1", home) ∷ [];
  inventory = ("BATTERY", 9) ∷ ("CRYSTAL_SHARD", 9) ∷ [];
}

abbrev claim_env : ClaimEnv
claim_env = record { orgs = []; agent_exists = λ a. true; block_name_at = λ p. "CLAIM_TOTEM" }

abbrev larger : ClaimReq
larger = record {
  id = "I2";
  land_id = "L1";
  policy = some [];
  member_id = "B1";
  new_owner = "B1";
  radius = 64;
}

only_home :
    (id : String) (c : LandClaim) → lookup id estate.claims ≡ some c → (home ≡ c) × ("L1" ≡ id)
unfolding lookup
only_home id c h = elim (Bool-cases (str_eq "L1" id)) [
  | inl hit ↦ (some-injective _ _ (rw hit at h), (eq_iff "L1" id).0 hit)
  | inr miss ↦ cc (rw miss at h)
]

home-IsPlot : IsPlot home
home-IsPlot = ((omega arith, omega arith), (omega arith, omega arith), omega arith, refl)

estate-IsPlotted : IsPlotted estate.claims
estate-IsPlotted = record {
  plots = λ id c h.
      let (same, at) = only_home id c h in
      (
        ap (λ (x : LandClaim). x.land_id) (sym same) ∙ at,
        ap (λ s. str_eq s "") (sym at),
        subst IsPlot same home-IsPlot,
      );
  disjoint = λ i j c d p other h k spot inside both.
      cc (sym other ∙ (eq_iff i j).1 (sym (only_home i c h).1 ∙ (only_home j d k).1));
}

handle_upgrade_claim-IsPlotted_example :
    IsPlotted (handle_upgrade_claim claim_env "A1" larger 50 estate).0.claims
handle_upgrade_claim-IsPlotted_example =
    handle_upgrade_claim-IsPlotted claim_env "A1" larger 50 estate estate-IsPlotted

abbrev task_env : ClaimTaskEnv
task_env = record {
  in_bounds = λ p. p.x == 200 && p.z == 0;
  can_build_at = λ a p. true;
  air_block_id = 0;
  claim_totem_block_id = some 9;
  world_type = "OVERWORLD";
  day_ticks = 6000;
  new_land_id = λ a. "L2";
}

abbrev task : TaskReq
task = record { id = "I3"; anchor = record { x = 200; y = 0; z = 0 }; radius = 32 }

abbrev site : ClaimSite
site = record { estate = estate; block_at = λ p. 0 }

handle_task_claim_land-IsPlotted_example :
    IsPlotted (handle_task_claim_land task_env "A2" task 60 true site).0.estate.claims
handle_task_claim_land-IsPlotted_example =
    handle_task_claim_land-IsPlotted task_env "A2" task 60 (λ p h. ground arith) refl true site
      (omega arith) estate-IsPlotted

home-there : lookup "L1" estate.claims ≡ some home
unfolding lookup
home-there = refl

outsider : is_land_admin claim_env.orgs "B1" home ≡ false
unfolding is_land_admin is_org_admin lookup
outsider = refl

claim_handlers-Untouched_example :
    Untouched "L1" home (handle_set_permissions claim_env "B1" larger 50 estate).0
    × Untouched "L1" home (handle_upgrade_claim claim_env "B1" larger 50 estate).0
    × Untouched "L1" home (handle_add_member claim_env "B1" larger 50 estate).0
    × Untouched "L1" home (handle_remove_member claim_env "B1" larger 50 estate).0
    × Untouched "L1" home (handle_deed_land claim_env "B1" larger 50 estate).0
claim_handlers-Untouched_example =
    claim_handlers-Untouched claim_env "B1" larger 50 estate "L1" home home-there outsider

-- The owner of the land is gone.
abbrev abandoned : Upkeep
abandoned = record {
  claims = ("L1", home) ∷ [];
  orgs = [];
  inventories = ("B1", []) ∷ [];
  told = [];
}

abbrev config : Config
config = record { day_ticks = 6000; maintenance_cost = []; world_id = "W1" }

abandoned-IsNobody : IsNobody (trim_space "A1") abandoned
unfolding lookup trim_space
abandoned-IsNobody = (refl, refl)

abandoned-alone : lookup {V = LandClaim} "L1" [] ≡ none
unfolding lookup
abandoned-alone = refl

abandoned-there : lookup "L1" abandoned.claims ≡ some home
unfolding lookup
abandoned-there = refl

tick_claims_maintenance_decay_example :
    (after : LandClaim) × (lookup "L1"
        (tick_claims_maintenance config 6100 (tick_claims_maintenance config 100 abandoned)).claims
      ≡ some after)
    × ((flags : ClaimFlags) → for_land false after.maintenance_stage flags ≡ wild_permissions)
    × ((claims : Map LandClaim) (orgs : Map Organization) (agent_id : String) (pos : Vec3i)
        → land_at claims pos ≡ some after
        → is_land_member orgs agent_id after ≡ false
        → (permissions_for claims orgs agent_id pos).1 ≡ wild_permissions)
tick_claims_maintenance_decay_example =
    tick_claims_maintenance_decay config abandoned "L1" home 100 6100 refl (abandoned-alone, tt)
      abandoned-there abandoned-IsNobody (omega arith) (omega arith) (omega arith) (omega arith)
      (omega arith)
