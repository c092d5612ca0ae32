-- ===== src/Governance/Land/Handlers.antt =====
-- internal/sim/world/feature/governance/instants/claim_handlers.go and claims/task_claim.go: the
-- handlers that change lands. They return the lands, the inventory of the agent, and the event that
-- the agent gets. The audit log is left out.
use voxelcraft_ai.Prelude.{
  ℕ, String, Bool, true, false, ◌&&◌, ◌||◌, not, Option, none, some, [], ◌∷◌, str_eq, ◌==◌,
  if◌then◌else◌, add64, sub64, lt_int, le_int, Map, lookup, insert, delete, get,
}
use voxelcraft_ai.Kernel.Vec.{Vec3i, same_pos}
use voxelcraft_ai.Kernel.Event.{Event, ar, created, claim_upgraded}
use voxelcraft_ai.Contracts.Container.{take_item}
use voxelcraft_ai.Economy.Inventory.{has_items}
use voxelcraft_ai.Economy.Trade.Validation.{Check, pass, reject}
use voxelcraft_ai.Governance.Rules.{default_claim_type_for_world, default_claim_flags}
use voxelcraft_ai.Governance.Land.{
  LandClaim, Organization, is_land_admin, validate_set_permissions_input, apply_policy_flags,
  validate_upgrade_input, validate_upgrade_radius, upgrade_cost, validate_member_mutation_input,
  normalize_new_owner, validate_deed_input, upgrade_overlaps, claim_overlaps, validate_land_admin,
  is_there,
}

pub record Estate : Type 0 where
  pub claims : Map LandClaim
  pub inventory : Map ℕ

-- ClaimInstantEnv, as instants_adapter_factory.go builds it: the organisations, the agents that there
-- are, and the blocks.
pub record ClaimEnv : Type 0 where
  pub orgs : Map Organization
  pub agent_exists : String → Bool
  pub block_name_at : Vec3i → String

-- protocol.InstantReq, as far as these handlers read it.
pub record ClaimReq : Type 0 where
  pub id : String
  pub land_id : String
  pub policy : Option (Map Bool)
  pub member_id : String
  pub new_owner : String
  pub radius : ℕ

abbrev pub Outcome : Type 0
Outcome = Estate × Event

-- w.agents[ownerID] != nil || w.orgByID(ownerID) != nil
unfoldable pub owner_exists : ClaimEnv → String → Bool
owner_exists env owner =
    env.agent_exists owner || (not (str_eq owner "") && is_there (lookup owner env.orgs))

-- The loop that takes the cost.
unfoldable pub pay_cost : Map ℕ → Map ℕ → Map ℕ
pay_cost inventory [] = inventory
pay_cost inventory ((item, n) ∷ cost) = pay_cost (take_item item n inventory) cost

module _ (env : ClaimEnv) (agent_id : String) (inst : ClaimReq) (now : ℕ) where
  abbrev pub refuse : String → String → Estate → Outcome
  refuse code msg s = (s, ar now inst.id false code msg)

  -- if ok, code, msg := …; !ok { … return }
  unfoldable pub checked : Check → Estate → Outcome → Outcome
  checked pass s next = next
  checked (reject code msg) s next = refuse code msg s

  -- land := env.GetLand(inst.LandID), and ValidateLandAdmin
  unfoldable pub with_land : Option LandClaim → Estate → (LandClaim → Outcome) → Outcome
  unfolding checked validate_land_admin
  with_land none s next =
      checked (validate_land_admin false false) s (s, ar now inst.id true "" "ok")
  with_land (some land) s next =
      checked (validate_land_admin true (is_land_admin env.orgs agent_id land)) s (next land)

  -- A write through the pointer to the land.
  abbrev pub put_land : LandClaim → Estate → Estate
  put_land land s = record s { claims = insert inst.land_id land s.claims }

  abbrev pub done : Estate → Outcome
  done s = (s, ar now inst.id true "" "ok")

  abbrev pub policy_of : Option (Map Bool) → Map Bool
  policy_of none = []
  policy_of (some policy) = policy

  unfoldable pub handle_set_permissions : Estate → Outcome
  unfolding checked with_land
  handle_set_permissions s = checked (validate_set_permissions_input inst.land_id inst.policy) s (
      with_land (lookup inst.land_id s.claims) s λ land. done (
        put_land (record land { flags = apply_policy_flags land.flags (policy_of inst.policy) }) s))

  -- From the cost on.
  unfoldable pub upgrade_for : LandClaim → Map ℕ → Estate → Outcome
  upgrade_for land [] s = refuse "E_BAD_REQUEST" "no upgrade needed" s
  upgrade_for land (entry ∷ rest) s =
      let cost = entry ∷ rest in
      if not (has_items s.inventory cost)
      then refuse "E_NO_RESOURCE" "missing upgrade materials" s
      else if upgrade_overlaps land.anchor inst.radius land.land_id s.claims
      then refuse "E_CONFLICT" "claim overlaps existing land" s
      else (
        record {
          claims = insert inst.land_id (record land { radius = inst.radius }) s.claims;
          inventory = pay_cost s.inventory cost;
        },
        claim_upgraded now inst.id inst.land_id inst.radius,
      )

  unfoldable pub upgrade_land : LandClaim → Estate → Outcome
  unfolding upgrade_for checked
  upgrade_land land s =
      if le_int 1 land.maintenance_stage
      then refuse "E_NO_PERMISSION" "land maintenance stage disallows expansion" s
      else checked (validate_upgrade_radius land.radius inst.radius) s (
          if not (str_eq (env.block_name_at land.anchor) "CLAIM_TOTEM")
          then refuse "E_INVALID_TARGET" "claim totem missing" s
          else upgrade_for land (upgrade_cost land.radius inst.radius) s)

  unfoldable pub handle_upgrade_claim : Estate → Outcome
  unfolding checked with_land upgrade_land
  handle_upgrade_claim s =
      checked (validate_upgrade_input inst.land_id inst.radius) s
        (with_land (lookup inst.land_id s.claims) s λ land. upgrade_land land s)

  unfoldable pub handle_add_member : Estate → Outcome
  unfolding checked with_land
  handle_add_member s = checked (validate_member_mutation_input inst.land_id inst.member_id) s (
      with_land (lookup inst.land_id s.claims) s λ land.
        done (put_land (record land { members = insert inst.member_id true land.members }) s))

  unfoldable pub handle_remove_member : Estate → Outcome
  unfolding checked with_land
  handle_remove_member s = checked (validate_member_mutation_input inst.land_id inst.member_id) s (
      with_land (lookup inst.land_id s.claims) s
        λ land. done (put_land (record land { members = delete inst.member_id land.members }) s))

  unfoldable pub deed_to : String → LandClaim → Estate → Outcome
  unfolding owner_exists
  deed_to owner land s =
      if str_eq owner ""
      then refuse "E_BAD_REQUEST" "bad new_owner" s
      else if not (owner_exists env owner)
      then refuse "E_INVALID_TARGET" "new owner not found" s
      else done (put_land (record land { owner = owner }) s)

  unfoldable pub handle_deed_land : Estate → Outcome
  unfolding checked with_land deed_to
  handle_deed_land s = checked (validate_deed_input inst.land_id inst.new_owner) s (
      with_land (lookup inst.land_id s.claims) s
        λ land. deed_to (normalize_new_owner inst.new_owner) land s)

-- ClaimTaskEnv: the functions of the world that the task asks, and the ids of two blocks.
pub record ClaimTaskEnv : Type 0 where
  pub in_bounds : Vec3i → Bool
  pub can_build_at : String → Vec3i → Bool
  pub air_block_id : ℕ
  pub claim_totem_block_id : Option ℕ
  pub world_type : String
  pub day_ticks : ℕ
  pub new_land_id : String → String

pub record TaskReq : Type 0 where
  pub id : String
  pub anchor : Vec3i
  pub radius : ℕ

-- The lands, the inventory and the blocks.
pub record ClaimSite : Type 0 where
  pub estate : Estate
  pub block_at : Vec3i → ℕ

-- r <= 0 is 32, and r > 128 is 128
unfoldable pub claim_radius : ℕ → ℕ
claim_radius radius =
    let r = if le_int radius 0 then 32 else radius in if lt_int 128 r then 128 else r

module _ (env : ClaimTaskEnv) (agent_id : String) (tr : TaskReq) (now : ℕ) where
  abbrev refuse_task : String → String → ClaimSite → ClaimSite × Event
  refuse_task code msg w = (w, ar now tr.id false code msg)

  unfoldable pub new_claim : String → ℕ → LandClaim
  new_claim land_id r =
      let claim_type = default_claim_type_for_world env.world_type in
      record {
        land_id = land_id;
        owner = agent_id;
        claim_type = claim_type;
        anchor = tr.anchor;
        radius = r;
        flags = default_claim_flags claim_type;
        members = [];
        maintenance_due_tick = if lt_int 0 env.day_ticks then add64 now env.day_ticks else 0;
        maintenance_stage = 0;
      }

  -- m[item]--
  abbrev less_one : String → Map ℕ → Map ℕ
  less_one item m = insert item (sub64 (get m item) 1) m

  -- From the id of the totem's block on.
  unfoldable pub place_claim : ℕ → Option ℕ → ClaimSite → ClaimSite × Event
  unfolding new_claim
  place_claim r none w = refuse_task "E_INTERNAL" "missing CLAIM_TOTEM block" w
  place_claim r (some totem) w =
      let land_id = env.new_land_id agent_id in
      (
        record {
          estate = record {
            claims = insert land_id (new_claim land_id r) w.estate.claims;
            inventory = less_one "CRYSTAL_SHARD" (less_one "BATTERY" w.estate.inventory);
          };
          block_at = λ p. if same_pos p tr.anchor then totem else w.block_at p;
        },
        created now tr.id land_id,
      )

  unfoldable pub handle_task_claim_land : Bool → ClaimSite → ClaimSite × Event
  unfolding place_claim claim_radius
  handle_task_claim_land allow_claims w =
      let r = claim_radius tr.radius in
      let inventory = w.estate.inventory in
      if not allow_claims
      then refuse_task "E_NO_PERMISSION" "claims disabled in this world" w
      else if not (tr.anchor.y == 0)
      then refuse_task "E_INVALID_TARGET" "2D world requires y==0" w
      else if not (env.in_bounds tr.anchor)
      then refuse_task "E_INVALID_TARGET" "out of bounds" w
      else if not (env.can_build_at agent_id tr.anchor)
      then refuse_task "E_NO_PERMISSION" "cannot claim here" w
      else if lt_int (get inventory "BATTERY") 1 || lt_int (get inventory "CRYSTAL_SHARD") 1
      then refuse_task "E_NO_RESOURCE" "need BATTERY + CRYSTAL_SHARD" w
      else if claim_overlaps tr.anchor r w.estate.claims
      then refuse_task "E_CONFLICT" "claim overlaps existing land" w
      else if not (w.block_at tr.anchor == env.air_block_id)
      then refuse_task "E_BLOCKED" "anchor occupied" w
      else place_claim r env.claim_totem_block_id w
