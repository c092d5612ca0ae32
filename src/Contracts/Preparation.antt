-- ===== src/Contracts/Preparation.antt =====
-- The `Prepare` functions of internal/sim/world/feature/contracts/validation/validation.go.
use voxelcraft_ai.Prelude.{ℕ, String, Bool, true, ◌&&◌, Option, str_eq, if◌then◌else◌, [], Map}
use voxelcraft_ai.Economy.Inventory.{has_items}
use voxelcraft_ai.Contracts.Core.{ContractState}
use voxelcraft_ai.Contracts.Lifecycle.{normalize_kind, build_deadline, scale_deposit, can_submit}
use voxelcraft_ai.Contracts.Validation.{
  PostValidationInput, AcceptValidationInput, SubmitValidationInput,
}

pub record PostPrep : Type 0 where
  pub validation : PostValidationInput
  pub resolved_kind : String
  pub deadline : ℕ

pub record PostPrepInput : Type 0 where
  pub terminal_id : String
  pub terminal_type : String
  pub distance : ℕ
  pub kind : String
  pub requirements : Map ℕ
  pub reward : Map ℕ
  pub blueprint_id : String
  pub has_enough_reward : Bool
  pub now_tick : ℕ
  pub deadline_tick : ℕ
  pub duration_ticks : ℕ
  pub day_ticks : ℕ

unfoldable pub prepare_post : PostPrepInput → PostPrep
prepare_post p =
    let kind = normalize_kind p.kind in
    record {
      validation = record {
        terminal_id = p.terminal_id;
        has_terminal = str_eq p.terminal_type "CONTRACT_TERMINAL";
        distance = p.distance;
        kind = kind;
        requirements = p.requirements;
        reward = p.reward;
        is_build = str_eq kind "BUILD";
        blueprint_id = p.blueprint_id;
        has_enough_reward = p.has_enough_reward;
      };
      resolved_kind = kind;
      deadline = build_deadline p.now_tick p.deadline_tick p.duration_ticks p.day_ticks;
    }

pub record AcceptPrepInput : Type 0 where
  pub has_contract : Bool
  pub state : Option ContractState
  pub terminal_type : String
  pub terminal_matches : Bool
  pub distance : ℕ
  pub now_tick : ℕ
  pub deadline_tick : ℕ
  pub base_deposit : Map ℕ
  pub deposit_mult : ℕ
  pub inventory : Map ℕ

pub record AcceptPrep : Type 0 where
  pub validation : AcceptValidationInput
  pub required_deposit : Map ℕ

-- The loop over the required deposit is that of `has_items`.
unfoldable pub prepare_accept : AcceptPrepInput → AcceptPrep
prepare_accept p =
    let required = if p.has_contract then scale_deposit p.base_deposit p.deposit_mult else [] in
    record {
      validation = record {
        has_contract = p.has_contract;
        state = p.state;
        terminal_match = str_eq p.terminal_type "CONTRACT_TERMINAL" && p.terminal_matches;
        distance = p.distance;
        now_tick = p.now_tick;
        deadline_tick = p.deadline_tick;
        has_enough_deposit = if p.has_contract then has_items p.inventory required else true;
      };
      required_deposit = required;
    }

pub record SubmitPrepInput : Type 0 where
  pub has_contract : Bool
  pub state : Option ContractState
  pub is_acceptor : Bool
  pub terminal_type : String
  pub terminal_matches : Bool
  pub distance : ℕ
  pub now_tick : ℕ
  pub deadline_tick : ℕ
  pub kind : String
  pub requirements_ok : Bool
  pub build_ok : Bool

unfoldable pub prepare_submit_validation : SubmitPrepInput → SubmitValidationInput
prepare_submit_validation p = record {
  has_contract = p.has_contract;
  state = p.state;
  is_acceptor = p.is_acceptor;
  terminal_match = str_eq p.terminal_type "CONTRACT_TERMINAL" && p.terminal_matches;
  distance = p.distance;
  now_tick = p.now_tick;
  deadline_tick = p.deadline_tick;
  can_submit_it = can_submit p.kind p.requirements_ok p.build_ok;
}
