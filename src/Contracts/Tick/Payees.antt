-- ===== src/Contracts/Tick/Payees.antt =====
-- Whom a tick pays, and how much (internal/sim/world/contracts_facade.go).
use voxelcraft_ai.Prelude.{
  ℕ, ◌+◌, ◌<◌, ◌≡◌, refl, ◌∙◌, ap, subst, insert, String, true, false, some, arith, str_eq,
  if◌then◌else◌, half, get,
}
use voxelcraft_ai.Kernel.Vec.{same_pos, same_pos_refl}
use voxelcraft_ai.Contracts.Container.{Container}
use voxelcraft_ai.Contracts.Core.{
  TickDecision, noop, fail_missing_target, expire_open, timeout_accepted, complete_deliver,
  complete_build, plan_settlement, decide_tick,
}
use voxelcraft_ai.Contracts.Runtime.{payout_agent, apply_terminal_transfer}
use voxelcraft_ai.Contracts.Runtime.Transfers.{account, apply_terminal_transfer-Transfers}
use voxelcraft_ai.Contracts.State.{Contract, Site, put_container}
use voxelcraft_ai.Contracts.Handlers.{ContractEnv}
use voxelcraft_ai.Contracts.Reputation.{add_law_penalty}
use voxelcraft_ai.Contracts.Tick.{
  tick_input, next_state, pay_plan, settle_tick, apply_decision, tick_contract,
}
use voxelcraft_ai.Contracts.Tick.Plans.{Due, decide_tick-Due, paid_by, pay_plan_pos}
use voxelcraft_ai.Contracts.Escrow.{IsSoundContract}
use voxelcraft_ai.Contracts.Escrow.Tick.{credit_for-Keeps, penalized-Keeps}

-- The decisions by which one agent gets all that is paid, and who that is.
abbrev pub PaysOne : TickDecision → Type 0
PaysOne expire_open = Unit
PaysOne timeout_accepted = Unit
PaysOne complete_build = Unit
PaysOne _ = ⊥

abbrev pub payee : TickDecision → Contract → String
payee complete_build c = c.acceptor
payee _ c = c.poster

module _ (env : ContractEnv) (now : ℕ) (w : Site) (c : Contract) (t : Container) (j : String)
    (sound : IsSoundContract c) (b : get t.inventory j < half) (f : get t.reserved j < half) where
  pay_both :
      (to : String)
      → str_eq to "" ≡ false
      → account w.agents to true j (w.heap, t) + (get c.reward j + get c.deposit j) < half
      → let s = apply_terminal_transfer w.agents (w.heap, t) to true c.reward in
        account w.agents to true j (apply_terminal_transfer w.agents s to true c.deposit)
        ≡ account w.agents to true j (w.heap, t) + (get c.reward j + get c.deposit j)
  pay_both to named room =
      let s = apply_terminal_transfer w.agents (w.heap, t) to true c.reward in
      let first =
        apply_terminal_transfer-Transfers w.agents to true j (w.heap, t) c.reward named
          sound.reward_distinct sound.reward_positive b f (omega (arith, room)) in
      let second =
        apply_terminal_transfer-Transfers w.agents to true j s c.deposit named
          sound.deposit_distinct sound.deposit_positive (omega (arith, first.0, b))
          (omega (arith, first.1, f)) (omega (arith, first.2, room)) in
      omega (arith, first.2, second.2)

  account-pay_plan :
      (d : TickDecision)
      → PaysOne d
      → Due env now d c (some t)
      → let before = account w.agents (payee d c) true j (w.heap, t) in
        before + (get c.reward j + get c.deposit j) < half
        → account w.agents (payee d c) true j (pay_plan env now w c (plan_settlement d) t)
          ≡ before + paid_by d c j
  unfolding pay_plan plan_settlement payout_agent
  account-pay_plan noop one due room = elim one [ ]
  account-pay_plan fail_missing_target one due room = elim one [ ]
  account-pay_plan complete_deliver one due room = elim one [ ]
  account-pay_plan expire_open one due room =
      (apply_terminal_transfer-Transfers w.agents c.poster true j (w.heap, t) c.reward
        sound.poster_named sound.reward_distinct sound.reward_positive b f (omega (arith, room))).2
  account-pay_plan timeout_accepted one due room = pay_both c.poster sound.poster_named room
  account-pay_plan complete_build one due room = pay_both c.acceptor (sound.acceptor_named due) room

  -- The payee's account after the tick, at the terminal as it then is.
  abbrev pub PaysOut : TickDecision → Site → Type 0
  PaysOut d after =
      (t' : Container) × (after.containers t.pos ≡ some t')
      × (account w.agents (payee d c) true j (after.heap, t')
          ≡ account w.agents (payee d c) true j (w.heap, t) + paid_by d c j)

  settle_tick_pays :
      (key : String) (d : TickDecision)
      → PaysOne d
      → Due env now d c (some t)
      → account w.agents (payee d c) true j (w.heap, t) + (get c.reward j + get c.deposit j) < half
      → PaysOut d (settle_tick env now key c d t w)
  unfolding settle_tick put_container
  settle_tick_pays key d one due room =
      let s = pay_plan env now w c (plan_settlement d) t in
      let c' : Contract = record c { state = next_state env now (plan_settlement d) c.state } in
      let done : Site = record w {
        heap = s.0;
        containers = (put_container s.1 w).containers;
        contracts = insert key c' w.contracts;
      } in
      let fine : Site =
        if (plan_settlement d).penalize_acceptor_law
        then add_law_penalty c.acceptor "CONTRACT_TIMEOUT" done
        else done in
      let k = credit_for-Keeps env now d c fine in
      let l = penalized-Keeps env now (plan_settlement d).penalize_acceptor_law c.acceptor done in
      let there : same_pos t.pos s.1.pos ≡ true =
        rw (pay_plan_pos env now w c t d) (same_pos_refl t.pos) in
      (
        s.1,
        ap (λ f. f t.pos) (k.1 ∙ l.1) ∙ rw there refl,
        ap (λ h. account w.agents (payee d c) true j (h, s.1)) (k.0 ∙ l.0)
            ∙ account-pay_plan d one due room,
      )

  decided_pays :
      (key : String) (d : TickDecision)
      → PaysOne d
      → Due env now d c (some t)
      → account w.agents (payee d c) true j (w.heap, t) + (get c.reward j + get c.deposit j) < half
      → PaysOut d (apply_decision env now key c d (some t) w)
  unfolding apply_decision
  decided_pays key noop one due room = elim one [ ]
  decided_pays key fail_missing_target one due room = elim one [ ]
  decided_pays key complete_deliver one due room = elim one [ ]
  decided_pays key expire_open one due room = settle_tick_pays key expire_open one due room
  decided_pays key timeout_accepted one due room =
      settle_tick_pays key timeout_accepted one due room
  decided_pays key complete_build one due room = settle_tick_pays key complete_build one due room

  -- For a sound contract at its terminal, with counts below 2 ^ 63: a tick that lets it expire
  -- while it is open pays the poster the reward; one that lets it expire while it is accepted pays
  -- the poster the reward and the deposit; one that completes its building pays the acceptor both.
  -- An agent that is away is owed the same.
  pub tick_contract_pays :
      (key : String) (d : TickDecision)
      → w.containers c.terminal_pos ≡ some t
      → decide_tick (tick_input env now c (some t)) ≡ d
      → PaysOne d
      → account w.agents (payee d c) true j (w.heap, t) + (get c.reward j + get c.deposit j) < half
      → PaysOut d (tick_contract env now key c w)
  unfolding tick_contract
  tick_contract_pays key d found decided one room =
      let due =
        subst (λ e. Due env now e c (some t)) decided (decide_tick-Due env now c (some t)) in
      rw (found, decided) (decided_pays key d one due room)
