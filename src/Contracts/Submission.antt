-- ===== src/Contracts/Submission.antt =====
-- `HandleSubmitContract` and `HandleClaimOwed` of internal/sim/world/feature/contracts/instants.
pub mod Settlement
use voxelcraft_ai.Prelude.{
  ℕ, String, Bool, true, false, not, ◌&&◌, ◌||◌, Option, none, some, List, [], ◌∷◌, str_eq,
  if◌then◌else◌, lt_int, Map, lookup, insert,
}
use voxelcraft_ai.Kernel.Vec.{Vec3i, manhattan, same_pos}
use voxelcraft_ai.Kernel.Event.{ar}
use voxelcraft_ai.Kernel.Agent.{Agent}
use voxelcraft_ai.Economy.Heap.{Heap, bump}
use voxelcraft_ai.Economy.Trade.Validation.{Check, pass, reject}
use voxelcraft_ai.Contracts.Container.{Container, available_count, claim_owed}
use voxelcraft_ai.Contracts.Core.{completed}
use voxelcraft_ai.Contracts.Lifecycle.{has_available, needs_requirements_consumption}
use voxelcraft_ai.Contracts.Validation.{
  SubmitValidationInput, validate_submit, validate_lifecycle_ids,
}
use voxelcraft_ai.Contracts.Preparation.{prepare_submit_validation}
use voxelcraft_ai.Contracts.Runtime.{consume_requirements_to_poster, payout_items}
use voxelcraft_ai.Contracts.State.{Contract, Site, put_container, notify}
use voxelcraft_ai.Contracts.Reputation.{add_trade_credit, add_build_credit}
use voxelcraft_ai.Contracts.Handlers.{
  ContractReq, ContractEnv, check_build_contract, type_of, matches, with_heap, refuse, terminal,
}

-- for item, n := range owed { if n > 0 { a.Inventory[item] += n } }
pub pay_owed : Heap → ℕ → Map ℕ → Heap
pay_owed h to [] = h
pay_owed h to ((item, n) ∷ owed) = pay_owed (if lt_int 0 n then bump h to item n else h) to owed

abbrev pub is_terminal_of : Contract → Option Container → Bool
is_terminal_of c term = str_eq (type_of term) "CONTRACT_TERMINAL" && matches c.terminal_pos term

abbrev pub available_at : Option Container → String → ℕ
available_at none item = 0
available_at (some t) item = available_count t item

abbrev pub distance_at : Agent → Contract → Option Container → ℕ
distance_at a c none = 0
distance_at a c (some t) = if is_terminal_of c (some t) then manhattan a.pos t.pos else 0

module _ (env : ContractEnv) (a : Agent) (inst : ContractReq) (now : ℕ) where
  abbrev pub submit_validation : Option Contract → Option Container → SubmitValidationInput
  submit_validation none term = prepare_submit_validation (record {
    has_contract = false;
    state = none;
    is_acceptor = false;
    terminal_type = "";
    terminal_matches = false;
    distance = 0;
    now_tick = now;
    deadline_tick = 0;
    kind = "";
    requirements_ok = false;
    build_ok = false;
  })
  submit_validation (some c) term =
      let here = is_terminal_of c term in
      prepare_submit_validation (record {
        has_contract = true;
        state = some c.state;
        is_acceptor = str_eq c.acceptor a.id;
        terminal_type = type_of term;
        terminal_matches = here;
        distance = distance_at a c term;
        now_tick = now;
        deadline_tick = c.deadline_tick;
        kind = c.kind;
        requirements_ok =
            here
            && needs_requirements_consumption c.kind
            && has_available c.requirements (available_at term);
        build_ok = here && str_eq c.kind "BUILD" && check_build_contract env c;
      })

  -- The OnSubmitted hook.
  abbrev pub credit : Contract → Site → Site
  credit c w =
      if needs_requirements_consumption c.kind
      then add_trade_credit a.id w
      else if str_eq c.kind "BUILD"
      then add_build_credit a.id w
      else w

  -- The goods go to the poster, and the reward and the deposit to the agent.
  unfoldable pub settle_at : Contract → Container → Heap → Heap × Container
  settle_at c term h =
      let term' =
        if needs_requirements_consumption c.kind
        then consume_requirements_to_poster term c.poster c.requirements
        else term in
      payout_items (payout_items (h, term') a.inventory c.reward) a.inventory c.deposit

  unfoldable pub submit_at : Contract → Container → Site → Site
  unfolding settle_at
  submit_at c term w =
      let (h, term') = settle_at c term w.heap in
      let w' = put_container term' (with_heap h w) in
      let c' : Contract = record c { state = completed } in
      notify a.id (ar now inst.id true "" "completed")
        (credit c (record w' { contracts = insert inst.contract_id c' w'.contracts }))

  -- From the result of `ValidateSubmit` on; without a contract or a terminal it never passes.
  pub submit_checked : Check → Option Contract → Option Container → Site → Site
  unfolding submit_at
  submit_checked (reject code msg) found term w = refuse env a inst now code msg w
  submit_checked pass (some c) (some t) w = submit_at c t w
  submit_checked pass _ _ w = w

  pub submit_ids : Check → Option Contract → Option Container → Site → Site
  unfolding submit_checked
  submit_ids (reject code msg) found term w = refuse env a inst now code msg w
  submit_ids pass found term w =
      submit_checked (validate_submit (submit_validation found term)) found term w

  pub handle_submit_contract : Site → Site
  unfolding submit_ids
  handle_submit_contract w =
      submit_ids (validate_lifecycle_ids inst.contract_id inst.terminal_id)
        (lookup inst.contract_id w.contracts) (terminal env a inst now w) w

  -- From the distance check on; an empty claim pays nothing.
  claim_at : Container → Site → Site
  unfolding pay_owed
  claim_at term w =
      if lt_int 3 (manhattan a.pos term.pos)
      then refuse env a inst now "E_BLOCKED" "too far" w
      else (let (owed, term') = claim_owed a.id term in
          let w' = put_container term' w in
          elim owed [
            | [] ↦ notify a.id (ar now inst.id true "" "nothing owed") w'
            | e ∷ more ↦
                notify a.id (ar now inst.id true "" "claimed")
                  (with_heap (pay_owed w.heap a.inventory (e ∷ more)) w')
          ])

  pub handle_claim_owed : Site → Site
  unfolding claim_at
  handle_claim_owed w =
      if str_eq inst.terminal_id ""
      then refuse env a inst now "E_BAD_REQUEST" "missing terminal_id" w
      else elim (terminal env a inst now w) [
        | none ↦ refuse env a inst now "E_INVALID_TARGET" "terminal not found" w
        | some term ↦ claim_at term w
      ]
