-- ===== src/Governance/Upkeep.antt =====
-- The upkeep of lands: internal/sim/world/feature/governance/runtime/maintenance.go and the part of
-- governance_facade.go that gives it the world. An agent has its inventory under its id, and what
-- agents are told is listed in order.
pub mod Payment
pub mod Decay
use voxelcraft_ai.Prelude.{
  ℕ, String, Bool, true, false, Option, none, some, List, [], ◌∷◌, ◌++◌, str_eq, ◌==◌, ltb,
  if◌then◌else◌, le_int, Map, lookup, insert,
}
use voxelcraft_ai.Kernel.Event.{Event, maintenance}
use voxelcraft_ai.Kernel.Sort.{sort_strings, keys}
use voxelcraft_ai.Kernel.Text.{trim_space}
use voxelcraft_ai.Economy.Inventory.{has_items, deduct_items}
use voxelcraft_ai.Governance.Rules.{effective_cost, next_due, next_stage}
use voxelcraft_ai.Governance.Land.{LandClaim, Organization}
use voxelcraft_ai.Governance.Orgs.{treasury_for, put_treasury}

pub record Upkeep : Type 0 where
  pub claims : Map LandClaim
  pub orgs : Map Organization
  pub inventories : Map (Map ℕ)
  pub told : List (String × Event)

-- w.cfg
pub record Config : Type 0 where
  pub day_ticks : ℕ
  pub maintenance_cost : Map ℕ
  pub world_id : String

module _ (cfg : Config) where
  -- The owner is an organisation.
  unfoldable pub pay_from_org : String → Map ℕ → Organization → Upkeep → Bool × Upkeep
  unfolding put_treasury
  pay_from_org owner cost org w =
      let (tr, org') = treasury_for cfg.world_id org in
      if has_items tr cost
      then (
        true,
        record w {
          orgs = insert owner (put_treasury cfg.world_id (deduct_items tr cost) org') w.orgs;
        },
      )
      else (false, record w { orgs = insert owner org' w.orgs })

  -- The owner is an agent, if it is anybody.
  unfoldable pub pay_from_agent : String → Map ℕ → Option (Map ℕ) → Upkeep → Bool × Upkeep
  pay_from_agent owner cost none w = (false, w)
  pay_from_agent owner cost (some inventory) w =
      if has_items inventory cost
      then (
        true,
        record w { inventories = insert owner (deduct_items inventory cost) w.inventories },
      )
      else (false, w)

  unfoldable pub pay_by : String → Map ℕ → Option Organization → Upkeep → Bool × Upkeep
  unfolding pay_from_org pay_from_agent
  pay_by owner cost (some org) w = pay_from_org owner cost org w
  pay_by owner cost none w = pay_from_agent owner cost (lookup owner w.inventories) w

  -- PayMaintenance
  unfoldable pub pay_maintenance : LandClaim → Upkeep → Bool × Upkeep
  unfolding pay_by
  pay_maintenance c w =
      let owner = trim_space c.owner in
      if str_eq owner ""
      then (false, w)
      else pay_by owner (effective_cost cfg.maintenance_cost) (lookup owner w.orgs) w

  abbrev is_there : Option (Map ℕ) → Bool
  is_there none = false
  is_there (some m) = true

  -- Notify: only an owner that is an agent is told.
  unfoldable pub notify : ℕ → LandClaim → String → Upkeep → Upkeep
  notify now c status w =
      if is_there (lookup c.owner w.inventories)
      then record w {
        told =
            w.told
            ++ (
              c.owner,
              maintenance now c.land_id status c.maintenance_stage c.maintenance_due_tick,
            )
              ∷ [];
      }
      else w

  -- The land after its day has come.
  abbrev pub aged : ℕ → Bool → LandClaim → LandClaim
  aged now paid c = record c {
    maintenance_stage = next_stage c.maintenance_stage paid;
    maintenance_due_tick = next_due now c.maintenance_due_tick cfg.day_ticks;
  }

  unfoldable pub settle_land : ℕ → String → LandClaim → Bool × Upkeep → Upkeep
  unfolding notify
  settle_land now id c (paid, w) =
      let c' = aged now paid c in
      notify now c' (if paid then "PAID" else "LATE") (record w { claims = insert id c' w.claims })

  unfoldable pub tick_land : ℕ → String → Option LandClaim → Upkeep → Upkeep
  unfolding settle_land pay_maintenance
  tick_land now id none w = w
  tick_land now id (some c) w =
      if c.maintenance_due_tick == 0
      then record w {
        claims =
            insert id
              (record c {
                maintenance_due_tick = next_due now c.maintenance_due_tick cfg.day_ticks;
              })
              w.claims;
      }
      else if ltb now c.maintenance_due_tick
      then w
      else settle_land now id c (pay_maintenance c w)

  unfoldable pub tick_lands : ℕ → List String → Upkeep → Upkeep
  unfolding tick_land
  tick_lands now [] w = w
  tick_lands now (id ∷ ids) w = tick_lands now ids (tick_land now id (lookup id w.claims) w)

  -- TickClaimsMaintenance
  unfoldable pub tick_claims_maintenance : ℕ → Upkeep → Upkeep
  unfolding tick_lands
  tick_claims_maintenance now w =
      if le_int cfg.day_ticks 0 then w else tick_lands now (sort_strings (keys w.claims)) w
