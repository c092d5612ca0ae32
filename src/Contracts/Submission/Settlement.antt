-- ===== src/Contracts/Submission/Settlement.antt =====
-- The runs of `HandleSubmitContract` (feature/contracts/instants/lifecycle_handlers.go), and what
-- the settlement does to the counts of one item.
use mathlib.Core.Option.{some-injective}
use voxelcraft_ai.Prelude.{
  ℕ, ◌+◌, ◌-◌, ◌<◌, ◌≤◌, ◌≡◌, refl, ap, ◌∙◌, String, true, Option, none, some, arith, str_eq,
  if◌then◌else◌, half, get, lookup, inl, inr, ◌⊎◌, Bool-cases,
}
use voxelcraft_ai.Kernel.Vec.{same_pos}
use voxelcraft_ai.Kernel.Agent.{Agent}
use voxelcraft_ai.Economy.Heap.{Heap, cell}
use voxelcraft_ai.Economy.Trade.Validation.{Check, pass, reject}
use voxelcraft_ai.Contracts.Container.{Container, available_count, owed_to}
use voxelcraft_ai.Contracts.Container.Ledger.{has_available-le}
use voxelcraft_ai.Contracts.Core.{accepted}
use voxelcraft_ai.Contracts.Lifecycle.{can_submit, has_available, needs_requirements_consumption}
use voxelcraft_ai.Contracts.Validation.{SubmitValidationInput, validate_submit}
use voxelcraft_ai.Contracts.Preparation.{prepare_submit_validation}
use voxelcraft_ai.Contracts.Runtime.Payouts.{payout_items-Pays, consume_requirements-Owes}
use voxelcraft_ai.Contracts.Runtime.{consume_requirements_to_poster, payout_items}
use voxelcraft_ai.Contracts.State.{Contract, Site, Keeps, notify-Keeps}
use voxelcraft_ai.Contracts.Handlers.{ContractReq, ContractEnv, terminal}
use voxelcraft_ai.Contracts.Submission.{
  submit_validation, settle_at, submit_at, submit_checked, submit_ids, handle_submit_contract,
}
use voxelcraft_ai.Contracts.Escrow.{IsSoundContract}

validate_submit_pass :
    (v : SubmitValidationInput)
    → validate_submit v ≡ pass
    → (v.state ≡ some accepted)
      × (v.is_acceptor ≡ true)
      × (v.terminal_match ≡ true)
      × (v.can_submit_it ≡ true)
unfolding validate_submit
validate_submit_pass v e = ground arith

module _ (env : ContractEnv) (a : Agent) (inst : ContractReq) (now : ℕ) where
  -- The run that completes the contract: it is accepted by the agent, this is its terminal, and its
  -- goods are there.
  pub record Submits (w after : Site) : Type 0 where
    pub c : Contract
    pub term : Container
    pub found : lookup inst.contract_id w.contracts ≡ some c
    pub here : terminal env a inst now w ≡ some term
    pub is_accepted : c.state ≡ accepted
    pub is_acceptor : str_eq c.acceptor a.id ≡ true
    pub is_its_terminal : same_pos term.pos c.terminal_pos ≡ true
    pub goods_there :
        needs_requirements_consumption c.kind ≡ true
        → has_available c.requirements (available_count term) ≡ true
    pub submits : after ≡ submit_at env a inst now c term w

  submit_checked_cases :
      (w : Site) (k : Check) (found : Option Contract) (term : Option Container)
      → validate_submit (submit_validation env a inst now found term) ≡ k
      → lookup inst.contract_id w.contracts ≡ found
      → terminal env a inst now w ≡ term
      → Keeps w (submit_checked env a inst now k found term w)
        ⊎ Submits w (submit_checked env a inst now k found term w)
  unfolding submit_checked prepare_submit_validation can_submit needs_requirements_consumption
  submit_checked_cases w (reject code msg) found term e f t = inl (notify-Keeps _ _ w)
  submit_checked_cases w pass none none e f t = inl (refl, refl, refl)
  submit_checked_cases w pass none (some term) e f t = inl (refl, refl, refl)
  submit_checked_cases w pass (some c) none e f t = inl (refl, refl, refl)
  submit_checked_cases w pass (some c) (some term) e f t =
      let (state, mine, matched, able) = validate_submit_pass _ e in
      inr (record {
        c = c;
        term = term;
        found = f;
        here = t;
        is_accepted = some-injective _ _ state;
        is_acceptor = mine;
        is_its_terminal = ground (arith, matched);
        goods_there = λ need. ground (arith, able, need);
        submits = refl;
      })

  submit_ids_cases :
      (w : Site) (k : Check)
      → let found = lookup inst.contract_id w.contracts in
        let term = terminal env a inst now w in
        Keeps w (submit_ids env a inst now k found term w)
        ⊎ Submits w (submit_ids env a inst now k found term w)
  unfolding submit_ids
  submit_ids_cases w (reject code msg) = inl (notify-Keeps _ _ w)
  submit_ids_cases w pass = submit_checked_cases w _ _ _ refl refl refl

  pub handle_submit_contract_cases :
      (w : Site)
      → Keeps w (handle_submit_contract env a inst now w)
        ⊎ Submits w (handle_submit_contract env a inst now w)
  unfolding handle_submit_contract
  handle_submit_contract_cases w = submit_ids_cases w _

-- What the poster gets of an item.
abbrev pub goods_of : Contract → String → ℕ
goods_of c j = if needs_requirements_consumption c.kind then get c.requirements j else 0

-- What the acceptor gets of an item.
abbrev pub stake_of : Contract → String → ℕ
stake_of c j = get c.reward j + get c.deposit j

module _ (c : Contract) (t : Container) (j : String) (sound : IsSoundContract c) where
  goods_lem :
      get t.inventory j < half
      → owed_to t c.poster j + get c.requirements j < half
      → let t' =
          if needs_requirements_consumption c.kind
          then consume_requirements_to_poster t c.poster c.requirements
          else t in
        (get t'.inventory j ≡ get t.inventory j - goods_of c j)
        × (owed_to t' c.poster j ≡ owed_to t c.poster j + goods_of c j)
        × (t'.reserved ≡ t.reserved)
  goods_lem b o = elim (Bool-cases (needs_requirements_consumption c.kind)) [
    | inl need ↦
        let owes =
          consume_requirements-Owes t c.poster c.requirements j sound.requirements_distinct
            sound.requirements_positive b o in
        rw need (owes.0, owes.1, owes.2)
    | inr none_due ↦ rw none_due (omega arith, omega arith, refl)
  ]

  pub goods-le :
      (needs_requirements_consumption c.kind ≡ true
        → has_available c.requirements (available_count t) ≡ true)
      → get t.reserved j ≤ get t.inventory j
      → get t.inventory j < half
      → goods_of c j + get t.reserved j ≤ get t.inventory j
  goods-le there low b = elim (Bool-cases (needs_requirements_consumption c.kind)) [
    | inl need ↦
        rw need (has_available-le t c.requirements j sound.requirements_positive low b (there need))
    | inr none_due ↦ rw none_due (omega (arith, low))
  ]

  -- The goods go to the poster's account, the stake to the acceptor, and both leave the terminal.
  pub settle_at_lem :
      (env : ContractEnv) (a : Agent) (inst : ContractReq) (now : ℕ) (h : Heap)
      → (needs_requirements_consumption c.kind ≡ true
          → has_available c.requirements (available_count t) ≡ true)
      → get t.reserved j ≤ get t.inventory j
      → get t.inventory j < half
      → stake_of c j ≤ get t.reserved j
      → cell h a.inventory j + stake_of c j < half
      → owed_to t c.poster j + get c.requirements j < half
      → let s = settle_at env a inst now c t h in
        (cell s.0 a.inventory j ≡ cell h a.inventory j + stake_of c j)
        × (get s.1.inventory j + (goods_of c j + stake_of c j) ≡ get t.inventory j)
        × (get s.1.reserved j + stake_of c j ≡ get t.reserved j)
        × (owed_to s.1 c.poster j ≡ owed_to t c.poster j + goods_of c j)
  unfolding settle_at
  settle_at_lem env a inst now h there low b covered room o =
      let t' =
        if needs_requirements_consumption c.kind
        then consume_requirements_to_poster t c.poster c.requirements
        else t in
      let goods = goods_lem b o in
      let enough = goods-le there low b in
      let s = payout_items (h, t') a.inventory c.reward in
      let reserved : get t'.reserved j ≡ get t.reserved j = ap (λ m. get m j) goods.2 in
      let first =
        payout_items-Pays (h, t') a.inventory c.reward j sound.reward_distinct sound.reward_positive
          (omega (arith, room)) (omega (arith, goods.0, b)) (omega (arith, reserved, low, b)) in
      let second =
        payout_items-Pays s a.inventory c.deposit j sound.deposit_distinct sound.deposit_positive
          (omega (arith, room, first)) (omega (arith, goods.0, b, first))
          (omega (arith, reserved, low, b, first)) in
      let owed : (payout_items s a.inventory c.deposit).1.owed ≡ t'.owed = second.4 ∙ first.4 in
      (
        omega (arith, first, second),
        omega (arith, first, second, goods.0, enough, covered),
        omega (arith, first, second, reserved, covered),
        rw owed goods.1,
      )
