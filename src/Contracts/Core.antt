-- ===== src/Contracts/Core.antt =====
-- internal/sim/world/feature/contracts/core/core.go: what a tick does to a contract, and the
-- settlement that follows.
use voxelcraft_ai.Prelude.{
  ℕ, ◌≤◌, ◌≡◌, String, Bool, true, false, ◌&&◌, ◌||◌, ◌⊎◌, arith, ltb, str_eq, if◌then◌else◌, ◌↔◌,
}

-- modelpkg.ContractState
pub data ContractState : Type 0 where
  open_state accepted completed failed : ContractState

pub data TickDecision : Type 0 where
  noop fail_missing_target expire_open timeout_accepted complete_deliver complete_build :
      TickDecision

pub record TickInput : Type 0 where
  pub state : ContractState
  pub kind : String
  pub now_tick : ℕ
  pub deadline_tick : ℕ
  pub has_terminal : Bool
  pub requirements_ok : Bool
  pub build_placed : Bool
  pub build_stable : Bool

abbrev pub is_supply : String → Bool
is_supply kind = str_eq kind "GATHER" || str_eq kind "DELIVER"

-- The rest of `DecideTick` for a contract with a terminal.
decide_state : ContractState → TickInput → TickDecision
decide_state open_state t = if ltb t.deadline_tick t.now_tick then expire_open else noop
decide_state accepted t =
    if ltb t.deadline_tick t.now_tick
    then timeout_accepted
    else if is_supply t.kind
    then if t.requirements_ok then complete_deliver else noop
    else if str_eq t.kind "BUILD"
    then if t.build_placed && t.build_stable then complete_build else noop
    else noop
decide_state _ t = noop

is_live : ContractState → Bool
is_live open_state = true
is_live accepted = true
is_live _ = false

unfoldable pub decide_tick : TickInput → TickDecision
unfolding is_live decide_state
decide_tick t =
    if is_live t.state
    then if t.has_terminal then decide_state t.state t else fail_missing_target
    else noop

pub data PayoutTarget : Type 0 where
  nobody poster acceptor : PayoutTarget

pub record SettlementPlan : Type 0 where
  pub mark_failed : Bool
  pub mark_completed : Bool
  pub consume_requirements : Bool
  pub requirements_to_poster : Bool
  pub reward_to : PayoutTarget
  pub deposit_to : PayoutTarget
  pub penalize_acceptor_law : Bool
  pub audit_reason : String

-- SettlementPlan{}
abbrev no_plan : SettlementPlan
no_plan = record {
  mark_failed = false;
  mark_completed = false;
  consume_requirements = false;
  requirements_to_poster = false;
  reward_to = nobody;
  deposit_to = nobody;
  penalize_acceptor_law = false;
  audit_reason = "";
}

unfoldable pub plan_settlement : TickDecision → SettlementPlan
plan_settlement fail_missing_target = record no_plan { mark_failed = true }
plan_settlement expire_open = record no_plan {
  mark_failed = true;
  reward_to = poster;
  audit_reason = "CONTRACT_TIMEOUT";
}
plan_settlement timeout_accepted = record no_plan {
  mark_failed = true;
  reward_to = poster;
  deposit_to = poster;
  penalize_acceptor_law = true;
  audit_reason = "CONTRACT_TIMEOUT";
}
plan_settlement complete_deliver = record no_plan {
  mark_completed = true;
  consume_requirements = true;
  requirements_to_poster = true;
  reward_to = acceptor;
  deposit_to = acceptor;
  audit_reason = "AUTO_COMPLETE";
}
plan_settlement complete_build = record no_plan {
  mark_completed = true;
  reward_to = acceptor;
  deposit_to = acceptor;
  audit_reason = "AUTO_COMPLETE";
}
plan_settlement noop = no_plan

-- A tick pays the acceptor exactly when the contract is accepted, has its terminal, is not
-- overdue, and its goods are there or its building stands.
pub decide_tick_pays_acceptor :
    (t : TickInput)
    → ((plan_settlement (decide_tick t)).reward_to ≡ acceptor) ↔ (
        (t.state ≡ accepted)
        × (t.has_terminal ≡ true)
        × (t.now_tick ≤ t.deadline_tick)
        × (((is_supply t.kind ≡ true) × (t.requirements_ok ≡ true))
            ⊎ ((is_supply t.kind ≡ false)
                × (str_eq t.kind "BUILD" ≡ true)
                × (t.build_placed ≡ true)
                × (t.build_stable ≡ true))))
unfolding decide_tick plan_settlement
decide_tick_pays_acceptor t = ground arith
