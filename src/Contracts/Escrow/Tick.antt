-- ===== src/Contracts/Escrow/Tick.antt =====
-- Settling a contract in a tick keeps the terminals backed (internal/sim/world/contracts_facade.go).
pub mod Rounds
pub mod Loop
use voxelcraft_ai.Prelude.{
  ℕ, ◌+◌, ◌-◌, ◌<◌, ◌≤◌, ◌≡◌, refl, ◌∙◌, sym, ap, String, Bool, true, false, Option, none, some, [],
  ◌∷◌, arith, str_eq, if◌then◌else◌, half, Map, get, lookup, insert, inl, inr, All, lookup-All,
  Bool-cases, HasDistinctKeys, lookup-insert, Option-cases,
}
use voxelcraft_ai.Kernel.Vec.{Vec3i, same_pos, same_pos_refl}
use voxelcraft_ai.Economy.Heap.{Heap}
use voxelcraft_ai.Contracts.Container.{Container}
use voxelcraft_ai.Contracts.Container.Ledger.{has_available-le}
use voxelcraft_ai.Contracts.Core.{
  ContractState, open_state, accepted, completed, failed, TickDecision, noop, fail_missing_target,
  expire_open, timeout_accepted, complete_deliver, complete_build, plan_settlement, decide_tick,
}
use voxelcraft_ai.Contracts.State.{Contract, Site, Keeps, put_container}
use voxelcraft_ai.Contracts.Reputation.{
  add_trade_credit-Keeps, add_build_credit-Keeps, add_law_penalty, add_law_penalty-Keeps,
}
use voxelcraft_ai.Contracts.Handlers.{ContractEnv}
use voxelcraft_ai.Contracts.Tick.{
  tick_input, next_state, pay_plan, credit_for, settle_tick, apply_decision, tick_contract,
  tick_each, tick_contracts,
}
use voxelcraft_ai.Contracts.Tick.Plans.{
  Due, decide_tick-Due, taken_by, paid_by, pay_plan-Leaves, pay_plan_pos,
}
use voxelcraft_ai.Contracts.Escrow.{
  held_at, stake, escrow, Backs, IsBacked, IsPlaced, IsSoundContract, escrow-insert, held_at-le,
  held_at_here, held_at_away, settle-IsBacked,
}
use voxelcraft_ai.Contracts.Escrow.Handlers.{Keeps-IsBacked}

-- The decisions that settle at the terminal.
abbrev Settles : TickDecision → Type 0
Settles noop = ⊥
Settles fail_missing_target = ⊥
Settles _ = Unit

module _ (env : ContractEnv) (now : ℕ) where
  -- A settling decision pays all that the contract holds, and closes it.
  stake_paid :
      (d : TickDecision) (c : Contract) (t : Container) (j : String)
      → Settles d
      → Due env now d c (some t)
      → (stake c.state (get c.reward j) (get c.deposit j) ≡ paid_by d c j)
        × (stake (next_state env now (plan_settlement d) c.state) (get c.reward j) (get c.deposit j)
            ≡ 0)
  unfolding plan_settlement
  stake_paid noop c t j s due = elim s [ ]
  stake_paid fail_missing_target c t j s due = elim s [ ]
  stake_paid expire_open c t j s due = rw due (refl, refl)
  stake_paid timeout_accepted c t j s due = rw due (refl, refl)
  stake_paid complete_deliver c t j s due = rw due.0 (refl, refl)
  stake_paid complete_build c t j s due = rw due (refl, refl)

  goods_there :
      (d : TickDecision) (c : Contract) (t : Container) (j : String)
      → Due env now d c (some t)
      → IsSoundContract c
      → get t.reserved j ≤ get t.inventory j
      → get t.inventory j < half
      → taken_by d c j + get t.reserved j ≤ get t.inventory j
  goods_there noop c t j due sound low b = omega (arith, low)
  goods_there fail_missing_target c t j due sound low b = omega (arith, low)
  goods_there expire_open c t j due sound low b = omega (arith, low)
  goods_there timeout_accepted c t j due sound low b = omega (arith, low)
  goods_there complete_deliver c t j due sound low b =
      has_available-le t c.requirements j sound.requirements_positive low b due.1
  goods_there complete_build c t j due sound low b = omega (arith, low)

  pub credit_for-Keeps :
      (d : TickDecision) (c : Contract) (w : Site) → Keeps w (credit_for env now d c w)
  unfolding credit_for
  credit_for-Keeps complete_deliver c w = add_trade_credit-Keeps c.acceptor w
  credit_for-Keeps complete_build c w = add_build_credit-Keeps c.acceptor w
  credit_for-Keeps noop c w = (refl, refl, refl)
  credit_for-Keeps fail_missing_target c w = (refl, refl, refl)
  credit_for-Keeps expire_open c w = (refl, refl, refl)
  credit_for-Keeps timeout_accepted c w = (refl, refl, refl)

  pub penalized-Keeps :
      (due : Bool) (id : String) (w : Site)
      → Keeps w (if due then add_law_penalty id "CONTRACT_TIMEOUT" w else w)
  penalized-Keeps true id w = add_law_penalty-Keeps id "CONTRACT_TIMEOUT" w
  penalized-Keeps false id w = (refl, refl, refl)

  module _ (p : Vec3i) (j : String) where
    pub settle_tick-IsBacked :
        (key : String) (c : Contract) (d : TickDecision) (t : Container) (w : Site)
        → lookup key w.contracts ≡ some c
        → w.containers t.pos ≡ some t
        → c.terminal_pos ≡ t.pos
        → Settles d
        → Due env now d c (some t)
        → IsSoundContract c
        → IsBacked p j w
        → IsBacked p j (settle_tick env now key c d t w)
    unfolding settle_tick put_container
    settle_tick-IsBacked key c d t w found stands its settles due sound b =
        let s = pay_plan env now w c (plan_settlement d) t in
        let next = next_state env now (plan_settlement d) c.state in
        let c' : Contract = record c { state = next } in
        let m = insert key c' w.contracts in
        let done : Site = record w {
          heap = s.0;
          containers = (put_container s.1 w).containers;
          contracts = m;
        } in
        let fine : Site =
          if (plan_settlement d).penalize_acceptor_law
          then add_law_penalty c.acceptor "CONTRACT_TIMEOUT" done
          else done in
        let here : same_pos c.terminal_pos t.pos ≡ true = rw its (same_pos_refl t.pos) in
        let here' : same_pos t.pos c.terminal_pos ≡ true = rw its (same_pos_refl t.pos) in
        let paid = stake_paid d c t j settles due in
        Keeps-IsBacked p j fine (credit_for env now d c fine) (credit_for-Keeps d c fine) (
          Keeps-IsBacked p j done fine (penalized-Keeps _ c.acceptor done) (
            settle-IsBacked p j w t s.1 m stands (pay_plan_pos env now w c t d) b
              (λ backs. omega (
                arith,
                backs,
                paid,
                pay_plan-Leaves env now w c t j sound backs.2 (omega (arith, backs)) d due,
                goods_there d c t j due sound backs.1 backs.2,
                escrow-insert t.pos j key c c' w.contracts found,
                held_at-le t.pos j key c w.contracts found,
                held_at_here t.pos j c here refl,
                held_at_here t.pos j c' here refl,
              ))
              (λ away. omega (
                arith,
                escrow-insert p j key c c' w.contracts found,
                held_at_away p t.pos j c here' away,
                held_at_away p t.pos j c' here' away,
              ))))
