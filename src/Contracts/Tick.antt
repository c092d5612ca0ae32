-- ===== src/Contracts/Tick.antt =====
-- `tickContracts` and `contractTerminalTransfer` of internal/sim/world/contracts_facade.go. The
-- audit entries, the statistics and the fun scores are not in the state; of `BuildTickAudit`, the
-- credits that it grants are.
pub mod Plans
pub mod Payees
use voxelcraft_ai.Prelude.{
  ℕ, String, Bool, true, false, ◌&&◌, Option, none, some, [], ◌∷◌, if◌then◌else◌, Map, insert,
  str_eq,
}
use voxelcraft_ai.Economy.Heap.{Heap}
use voxelcraft_ai.Contracts.Container.{Container, available_count}
use voxelcraft_ai.Contracts.Core.{
  ContractState, open_state, accepted, completed, failed, TickDecision, noop, fail_missing_target,
  expire_open, timeout_accepted, complete_deliver, complete_build, decide_tick, plan_settlement,
  TickInput, SettlementPlan, PayoutTarget, nobody, poster, acceptor,
}
use voxelcraft_ai.Contracts.Lifecycle.{has_available, needs_requirements_consumption}
use voxelcraft_ai.Contracts.Runtime.{payout_agent, apply_terminal_transfer}
use voxelcraft_ai.Contracts.State.{Contract, Site, put_container}
use voxelcraft_ai.Contracts.Reputation.{add_trade_credit, add_build_credit, add_law_penalty}
use voxelcraft_ai.Contracts.Handlers.{ContractEnv}

-- contractTerminalTransfer, for a terminal that is there
abbrev pub contract_terminal_transfer :
    Site → Heap × Container → Map ℕ → String → Bool → Heap × Container
contract_terminal_transfer w s items to unreserved =
    apply_terminal_transfer w.agents s to unreserved items

abbrev is_accepted : ContractState → Bool
is_accepted accepted = true
is_accepted _ = false

abbrev is_there : Option Container → Bool
is_there none = false
is_there (some t) = true

abbrev goods_available : Contract → Option Container → Bool
goods_available c none = false
goods_available c (some t) = has_available c.requirements (available_count t)

module _ (env : ContractEnv) (now : ℕ) where
  -- What the tick finds out for the decision.
  unfoldable pub tick_input : Contract → Option Container → TickInput
  tick_input c term =
      let asked = is_there term && is_accepted c.state in
      let built = asked && str_eq c.kind "BUILD" && env.placed c in
      record {
        state = c.state;
        kind = c.kind;
        now_tick = now;
        deadline_tick = c.deadline_tick;
        has_terminal = is_there term;
        requirements_ok = asked && needs_requirements_consumption c.kind && goods_available c term;
        build_placed = built;
        build_stable = built && env.stable c;
      }

  abbrev is_nobody : PayoutTarget → Bool
  is_nobody nobody = true
  is_nobody _ = false

  -- if target != PayoutNone { w.contractTerminalTransfer(..., true) }
  abbrev pub pay_to : Site → Contract → PayoutTarget → Map ℕ → Heap × Container → Heap × Container
  pay_to w c target items s =
      if is_nobody target
      then s
      else contract_terminal_transfer w s items (payout_agent c.poster c.acceptor target) true

  -- The transfers of a plan.
  unfoldable pub pay_plan : Site → Contract → SettlementPlan → Container → Heap × Container
  pay_plan w c plan term =
      let taken =
        if plan.consume_requirements && plan.requirements_to_poster
        then contract_terminal_transfer w (w.heap, term) c.requirements c.poster false
        else (w.heap, term) in
      pay_to w c plan.deposit_to c.deposit (pay_to w c plan.reward_to c.reward taken)

  abbrev pub next_state : SettlementPlan → ContractState → ContractState
  next_state plan s =
      if plan.mark_completed then completed else if plan.mark_failed then failed else s

  -- The credits that `BuildTickAudit` grants.
  unfoldable pub credit_for : TickDecision → Contract → Site → Site
  credit_for complete_deliver c w = add_trade_credit c.acceptor w
  credit_for complete_build c w = add_build_credit c.acceptor w
  credit_for _ c w = w

  -- A plan at a terminal that is there.
  unfoldable pub settle_tick : String → Contract → TickDecision → Container → Site → Site
  unfolding pay_plan credit_for
  settle_tick key c decision term w =
      let plan = plan_settlement decision in
      let (h, term') = pay_plan w c plan term in
      let w' = put_container term' (record w { heap = h }) in
      let c' : Contract = record c { state = next_state plan c.state } in
      let done : Site = record w' { contracts = insert key c' w'.contracts } in
      credit_for decision c (
        if plan.penalize_acceptor_law
        then add_law_penalty c.acceptor "CONTRACT_TIMEOUT" done
        else done)

  unfoldable pub apply_decision : String → Contract → TickDecision → Option Container → Site → Site
  unfolding settle_tick
  apply_decision key c noop term w = w
  apply_decision key c fail_missing_target term w =
      let c' : Contract = record c { state = failed } in
      record w { contracts = insert key c' w.contracts }
  apply_decision key c decision none w = w
  apply_decision key c decision (some t) w = settle_tick key c decision t w

  -- One round of the loop; contracts that are not live get no decision.
  unfoldable pub tick_contract : String → Contract → Site → Site
  unfolding apply_decision tick_input
  tick_contract key c w =
      let term = w.containers c.terminal_pos in
      apply_decision key c (decide_tick (tick_input c term)) term w

  unfoldable pub tick_each : Map Contract → Site → Site
  unfolding tick_contract
  tick_each [] w = w
  tick_each ((key, c) ∷ rest) w = tick_each rest (tick_contract key c w)

  -- tickContracts
  unfoldable pub tick_contracts : Site → Site
  unfolding tick_each
  tick_contracts w = tick_each w.contracts w
