-- ===== src/Contracts/Tick/Plans.antt =====
-- What a settlement plan takes from the terminal (contracts_facade.go, contracts/core/core.go).
use voxelcraft_ai.Prelude.{
  ℕ, ◌+◌, ◌-◌, ◌<◌, ◌≡◌, refl, ◌∙◌, String, Bool, true, false, none, some, arith, str_eq,
  if◌then◌else◌, half, Map, HasDistinctKeys, get, Option,
}
use voxelcraft_ai.Economy.Heap.{Heap}
use voxelcraft_ai.Economy.Inventory.Transfer.{IsPositive}
use voxelcraft_ai.Contracts.Container.{Container, available_count}
use voxelcraft_ai.Contracts.Core.{
  open_state, accepted, TickDecision, noop, fail_missing_target, expire_open, timeout_accepted,
  complete_deliver, complete_build, plan_settlement, decide_tick,
}
use voxelcraft_ai.Contracts.Lifecycle.{has_available, needs_requirements_consumption}
use voxelcraft_ai.Contracts.Runtime.{payout_agent, apply_terminal_transfer}
use voxelcraft_ai.Contracts.Runtime.Places.{apply_terminal_transfer_pos}
use voxelcraft_ai.Contracts.Runtime.Drains.{apply_terminal_transfer-Drains}
use voxelcraft_ai.Contracts.State.{Contract, Site}
use voxelcraft_ai.Contracts.Handlers.{ContractEnv}
use voxelcraft_ai.Contracts.Tick.{tick_input, pay_plan}
use voxelcraft_ai.Contracts.Escrow.{IsSoundContract}

-- What a decision pays out of escrow, of an item.
abbrev pub paid_by : TickDecision → Contract → String → ℕ
paid_by noop c j = 0
paid_by fail_missing_target c j = 0
paid_by expire_open c j = get c.reward j
paid_by timeout_accepted c j = get c.reward j + get c.deposit j
paid_by complete_deliver c j = get c.reward j + get c.deposit j
paid_by complete_build c j = get c.reward j + get c.deposit j

-- What it takes beside that.
abbrev pub taken_by : TickDecision → Contract → String → ℕ
taken_by complete_deliver c j = get c.requirements j
taken_by _ c j = 0

module _ (env : ContractEnv) (now : ℕ) where
  -- What a decision presumes of the contract and its terminal.
  abbrev pub Due : TickDecision → Contract → Option Container → Type 0
  Due noop c term = Unit
  Due fail_missing_target c term = term ≡ none
  Due expire_open c term = c.state ≡ open_state
  Due timeout_accepted c term = c.state ≡ accepted
  Due complete_deliver c none = ⊥
  Due complete_deliver c (some t) =
      (c.state ≡ accepted) × (has_available c.requirements (available_count t) ≡ true)
  Due complete_build c term = c.state ≡ accepted

  decided :
      (c : Contract) (term : Option Container) (d : TickDecision)
      → decide_tick (tick_input env now c term) ≡ d
      → Due d c term
  unfolding decide_tick tick_input needs_requirements_consumption
  decided c term noop e = tt
  decided c none fail_missing_target e = refl
  decided c (some t) fail_missing_target e = ground (arith, e)
  decided c none expire_open e = ground (arith, e)
  decided c (some t) expire_open e = ground (arith, e)
  decided c none timeout_accepted e = ground (arith, e)
  decided c (some t) timeout_accepted e = ground (arith, e)
  decided c none complete_deliver e = ground (arith, e)
  decided c (some t) complete_deliver e = ground (arith, e)
  decided c none complete_build e = ground (arith, e)
  decided c (some t) complete_build e = ground (arith, e)

  pub decide_tick-Due :
      (c : Contract) (term : Option Container)
      → Due (decide_tick (tick_input env now c term)) c term
  decide_tick-Due c term = decided c term _ refl

  module _ (w : Site) (c : Contract) (t : Container) (j : String) (sound : IsSoundContract c)
      (b : get t.inventory j < half) (f : get t.reserved j < half) where
    abbrev Leaves : ℕ → ℕ → Heap × Container → Type 0
    Leaves n m s =
        (get s.1.inventory j ≡ get t.inventory j - n) × (get s.1.reserved j ≡ get t.reserved j - m)

    pay :
        (n m : ℕ) (s : Heap × Container) (to : String) (u : Bool) (items : Map ℕ)
        → str_eq to "" ≡ false
        → HasDistinctKeys items
        → IsPositive items
        → Leaves n m s
        → Leaves
            (n + get items j)
            (m + (if u then get items j else 0))
            (apply_terminal_transfer w.agents s to u items)
    pay n m s to u items named d p before =
        let less =
          apply_terminal_transfer-Drains w.agents to u j s items named d p
            (omega (arith, before.0, b)) (omega (arith, before.1, f)) in
        (omega (arith, less.0, before.0), omega (arith, less.1, before.1))

    pay_reward :
        (n m : ℕ) (s : Heap × Container) (to : String)
        → str_eq to "" ≡ false
        → Leaves n m s
        → Leaves
            (n + get c.reward j)
            (m + get c.reward j)
            (apply_terminal_transfer w.agents s to true c.reward)
    pay_reward n m s to named before =
        pay n m s to true c.reward named sound.reward_distinct sound.reward_positive before

    pay_both :
        (n m : ℕ) (s : Heap × Container) (to : String)
        → str_eq to "" ≡ false
        → Leaves n m s
        → let r = apply_terminal_transfer w.agents s to true c.reward in
          Leaves
            (n + get c.reward j + get c.deposit j)
            (m + get c.reward j + get c.deposit j)
            (apply_terminal_transfer w.agents r to true c.deposit)
    pay_both n m s to named before =
        pay _ _ _ to true c.deposit named sound.deposit_distinct sound.deposit_positive
          (pay_reward n m s to named before)

    at_start : Leaves 0 0 (w.heap, t)
    at_start = (omega arith, omega arith)

    -- What a plan takes from the terminal is what the decision is to take and to pay.
    pub pay_plan-Leaves :
        (d : TickDecision)
        → Due d c (some t)
        → Leaves
            (taken_by d c j + paid_by d c j)
            (paid_by d c j)
            (pay_plan env now w c (plan_settlement d) t)
    unfolding pay_plan plan_settlement payout_agent
    pay_plan-Leaves noop due = at_start
    pay_plan-Leaves fail_missing_target due = at_start
    pay_plan-Leaves expire_open due =
        let r = pay_reward 0 0 (w.heap, t) c.poster sound.poster_named at_start in
        (omega (arith, r.0), omega (arith, r.1))
    pay_plan-Leaves timeout_accepted due =
        let r = pay_both 0 0 (w.heap, t) c.poster sound.poster_named at_start in
        (omega (arith, r.0), omega (arith, r.1))
    pay_plan-Leaves complete_deliver due =
        let goods =
          pay 0 0 (w.heap, t) c.poster false c.requirements sound.poster_named
            sound.requirements_distinct sound.requirements_positive at_start in
        let delivered =
          apply_terminal_transfer w.agents (w.heap, t) c.poster false c.requirements in
        let r = pay_both _ _ delivered c.acceptor (sound.acceptor_named due.0) goods in
        (omega (arith, r.0), omega (arith, r.1))
    pay_plan-Leaves complete_build due =
        let r = pay_both 0 0 (w.heap, t) c.acceptor (sound.acceptor_named due) at_start in
        (omega (arith, r.0), omega (arith, r.1))

  module _ (w : Site) (c : Contract) (t : Container) where
    pub pay_plan_pos :
        (d : TickDecision) → (pay_plan env now w c (plan_settlement d) t).1.pos ≡ t.pos
    unfolding pay_plan plan_settlement payout_agent
    pay_plan_pos noop = refl
    pay_plan_pos fail_missing_target = refl
    pay_plan_pos expire_open = apply_terminal_transfer_pos _ _ _ _ _
    pay_plan_pos timeout_accepted =
        apply_terminal_transfer_pos _ _ _ _ _ ∙ apply_terminal_transfer_pos _ _ _ _ _
    pay_plan_pos complete_deliver =
        apply_terminal_transfer_pos _ _ _ _ _
        ∙ apply_terminal_transfer_pos _ _ _ _ _
        ∙ apply_terminal_transfer_pos _ _ _ _ _
    pay_plan_pos complete_build =
        apply_terminal_transfer_pos _ _ _ _ _ ∙ apply_terminal_transfer_pos _ _ _ _ _
