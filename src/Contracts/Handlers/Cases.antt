-- ===== src/Contracts/Handlers/Cases.antt =====
-- The runs of feature/contracts/instants/lifecycle_handlers.go that change more than messages.
use voxelcraft_ai.Prelude.{
  ℕ, ◌≡◌, refl, String, true, Option, none, some, arith, lookup, inl, inr, ◌⊎◌,
}
use mathlib.Core.Option.{some-injective}
use voxelcraft_ai.Kernel.Vec.{same_pos}
use voxelcraft_ai.Kernel.Agent.{Agent}
use voxelcraft_ai.Economy.Inventory.{has_items, stacks_to_map}
use voxelcraft_ai.Economy.Trade.Validation.{Check, pass, reject}
use voxelcraft_ai.Contracts.Container.{Container}
use voxelcraft_ai.Contracts.Core.{open_state}
use voxelcraft_ai.Contracts.Lifecycle.{scale_deposit, deposit_multiplier}
use voxelcraft_ai.Contracts.Validation.{
  PostValidationInput, validate_post, AcceptValidationInput, validate_accept,
}
use voxelcraft_ai.Contracts.Preparation.{prepare_post, prepare_accept}
use voxelcraft_ai.Contracts.State.{Contract, Site, Keeps, notify-Keeps}
use voxelcraft_ai.Contracts.Handlers.{
  ContractReq, ContractEnv, terminal, post_prep, post_at, post_checked, handle_post_contract,
  accept_prep, accept_at, accept_checked, accept_ids, handle_accept_contract,
}

pub validate_post_pass :
    (v : PostValidationInput)
    → validate_post v ≡ pass
    → (v.has_enough_reward ≡ true) × (v.has_terminal ≡ true)
unfolding validate_post
validate_post_pass v e = ground arith

pub validate_accept_pass :
    (v : AcceptValidationInput)
    → validate_accept v ≡ pass
    → (v.state ≡ some open_state) × (v.terminal_match ≡ true) × (v.has_enough_deposit ≡ true)
unfolding validate_accept
validate_accept_pass v e = ground arith

module _ (env : ContractEnv) (a : Agent) (inst : ContractReq) (now : ℕ) where
  -- The run that posts: the terminal is there, and the agent holds the reward.
  pub record Posts (w after : Site) : Type 0 where
    pub term : Container
    pub kind : String
    pub deadline : ℕ
    pub here : terminal env a inst now w ≡ some term
    pub enough : has_items (w.heap a.inventory) (stacks_to_map inst.reward) ≡ true
    pub posted : after ≡ post_at env a inst now kind deadline term w

  post_checked_cases :
      (day : ℕ) (w : Site) (c : Check) (found : Option Container)
      → let prep = post_prep env a inst now day w in
        validate_post prep.validation ≡ c
        → terminal env a inst now w ≡ found
        → Keeps w (post_checked env a inst now prep c found w)
          ⊎ Posts w (post_checked env a inst now prep c found w)
  unfolding post_checked prepare_post
  post_checked_cases day w (reject code msg) found e t = inl (notify-Keeps _ _ w)
  post_checked_cases day w pass none e t = inl (refl, refl, refl)
  post_checked_cases day w pass (some term) e t = inr (record {
    term = term;
    kind = (post_prep env a inst now day w).resolved_kind;
    deadline = (post_prep env a inst now day w).deadline;
    here = t;
    enough = (validate_post_pass _ e).0;
    posted = refl;
  })

  pub handle_post_contract_cases :
      (day : ℕ) (w : Site)
      → Keeps w (handle_post_contract env a inst now day w)
        ⊎ Posts w (handle_post_contract env a inst now day w)
  unfolding handle_post_contract
  handle_post_contract_cases day w = post_checked_cases day w _ _ refl refl

  -- The run that accepts: the contract is open, this is its terminal, and the agent holds the
  -- deposit.
  pub record Accepts (w after : Site) : Type 0 where
    pub c : Contract
    pub term : Container
    pub found : lookup inst.contract_id w.contracts ≡ some c
    pub here : terminal env a inst now w ≡ some term
    pub is_open : c.state ≡ open_state
    pub is_its_terminal : same_pos term.pos c.terminal_pos ≡ true
    pub enough :
        has_items (w.heap a.inventory) (scale_deposit c.deposit (deposit_multiplier a.rep_trade))
        ≡ true
    pub accepts :
        after
        ≡ accept_at env a inst now
            (scale_deposit c.deposit (deposit_multiplier a.rep_trade))
            c
            term
            w

  accept_checked_cases :
      (w : Site) (k : Check) (found : Option Contract) (term : Option Container)
      → let prep = accept_prep env a inst now found term w in
        validate_accept prep.validation ≡ k
        → lookup inst.contract_id w.contracts ≡ found
        → terminal env a inst now w ≡ term
        → Keeps w (accept_checked env a inst now prep.required_deposit k found term w)
          ⊎ Accepts w (accept_checked env a inst now prep.required_deposit k found term w)
  unfolding accept_checked prepare_accept
  accept_checked_cases w (reject code msg) found term e f t = inl (notify-Keeps _ _ w)
  accept_checked_cases w pass none none e f t = inl (refl, refl, refl)
  accept_checked_cases w pass none (some term) e f t = inl (refl, refl, refl)
  accept_checked_cases w pass (some c) none e f t = inl (refl, refl, refl)
  accept_checked_cases w pass (some c) (some term) e f t =
      let (opened, matched, enough) = validate_accept_pass _ e in
      inr (record {
        c = c;
        term = term;
        found = f;
        here = t;
        is_open = some-injective _ _ opened;
        is_its_terminal = ground (arith, matched);
        enough = enough;
        accepts = refl;
      })

  accept_ids_cases :
      (w : Site) (k : Check)
      → let found = lookup inst.contract_id w.contracts in
        let term = terminal env a inst now w in
        Keeps w (accept_ids env a inst now k found term w)
        ⊎ Accepts w (accept_ids env a inst now k found term w)
  unfolding accept_ids
  accept_ids_cases w (reject code msg) = inl (notify-Keeps _ _ w)
  accept_ids_cases w pass = accept_checked_cases w _ _ _ refl refl refl

  pub handle_accept_contract_cases :
      (w : Site)
      → Keeps w (handle_accept_contract env a inst now w)
        ⊎ Accepts w (handle_accept_contract env a inst now w)
  unfolding handle_accept_contract
  handle_accept_contract_cases w = accept_ids_cases w _
