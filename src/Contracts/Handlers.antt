-- ===== src/Contracts/Handlers.antt =====
-- internal/sim/world/feature/contracts/instants: posting, accepting and submitting a contract, and
-- claiming what is owed. The `env == nil` branches are left out, since an environment is given, and
-- of the hooks (instants_contracts_handlers.go) the audit entries.
pub mod Cases
use voxelcraft_ai.Prelude.{
  ℕ, String, Bool, true, false, not, ◌&&◌, ◌||◌, Option, none, some, List, [], ◌∷◌, str_eq,
  if◌then◌else◌, lt_int, Map, lookup, insert,
}
use voxelcraft_ai.Kernel.Vec.{Vec3i, manhattan, same_pos}
use voxelcraft_ai.Kernel.Event.{ar, created}
use voxelcraft_ai.Kernel.Agent.{Agent}
use voxelcraft_ai.Blueprint.{normalize_rotation}
use voxelcraft_ai.Economy.Heap.{Heap, bump}
use voxelcraft_ai.Economy.Inventory.{has_items, stacks_to_map}
use voxelcraft_ai.Economy.Trade.Validation.{Check, pass, reject}
use voxelcraft_ai.Contracts.Container.{Container, available_count, claim_owed}
use voxelcraft_ai.Contracts.Core.{ContractState, open_state, accepted, completed}
use voxelcraft_ai.Contracts.Lifecycle.{
  deposit_multiplier, has_available, needs_requirements_consumption,
}
use voxelcraft_ai.Contracts.Validation.{
  validate_post, validate_accept, validate_submit, validate_lifecycle_ids,
}
use voxelcraft_ai.Contracts.Preparation.{
  PostPrep, prepare_post, AcceptPrep, prepare_accept, prepare_submit_validation,
}
use voxelcraft_ai.Contracts.Runtime.{escrow_items, consume_requirements_to_poster, payout_items}
use voxelcraft_ai.Contracts.State.{
  Contract, Site, put_contract, put_container, notify, new_contract_id, get_container_by_id,
}
use voxelcraft_ai.Contracts.Reputation.{add_trade_credit, add_build_credit}

-- The fields of protocol.InstantReq that the contract handlers read.
pub record ContractReq : Type 0 where
  pub id : String
  pub terminal_id : String
  pub contract_id : String
  pub contract_kind : String
  pub requirements : List (String × ℕ)
  pub reward : List (String × ℕ)
  pub deposit : List (String × ℕ)
  pub blueprint_id : String
  pub anchor : Vec3i
  pub rotation : ℕ
  pub deadline_tick : ℕ
  pub duration_ticks : ℕ

-- What the handlers ask of the rest of the world: how an id of a container reads, and whether the
-- building of a contract stands.
pub record ContractEnv : Type 0 where
  pub parse_container_id : String → Option (String × Vec3i)
  pub placed : Contract → Bool
  pub stable : Contract → Bool

-- CheckBuildContract
abbrev pub check_build_contract : ContractEnv → Contract → Bool
check_build_contract env c = if env.placed c then env.stable c else false

abbrev origin : Vec3i
origin = record { x = 0; y = 0; z = 0 }

abbrev pub type_of : Option Container → String
type_of none = ""
type_of (some t) = t.type

abbrev pub distance_to : Vec3i → Option Container → ℕ
distance_to p none = 0
distance_to p (some t) = manhattan p t.pos

abbrev pub matches : Vec3i → Option Container → Bool
matches expected none = false
matches expected (some t) = same_pos t.pos expected

abbrev pub with_heap : Heap → Site → Site
with_heap h w = record w { heap = h }

module _ (env : ContractEnv) (a : Agent) (inst : ContractReq) (now : ℕ) where
  -- a.AddEvent(ar(nowTick, inst.ID, false, code, msg))
  abbrev pub refuse : String → String → Site → Site
  refuse code msg w = notify a.id (ar now inst.id false code msg) w

  abbrev pub terminal : Site → Option Container
  terminal w = get_container_by_id w (env.parse_container_id inst.terminal_id)

  abbrev pub post_prep : ℕ → Site → PostPrep
  post_prep day w =
      let term = terminal w in
      let reward = stacks_to_map inst.reward in
      prepare_post (record {
        terminal_id = inst.terminal_id;
        terminal_type = type_of term;
        distance = distance_to a.pos term;
        kind = inst.contract_kind;
        requirements = stacks_to_map inst.requirements;
        reward = reward;
        blueprint_id = inst.blueprint_id;
        has_enough_reward = has_items (w.heap a.inventory) reward;
        now_tick = now;
        deadline_tick = inst.deadline_tick;
        duration_ticks = inst.duration_ticks;
        day_ticks = day;
      })

  -- The contract that is posted.
  unfoldable pub new_contract : String → String → ℕ → Container → Contract
  new_contract cid kind deadline term =
      let build = str_eq kind "BUILD" in
      record {
        contract_id = cid;
        terminal_pos = term.pos;
        poster = a.id;
        acceptor = "";
        kind = kind;
        requirements = stacks_to_map inst.requirements;
        reward = stacks_to_map inst.reward;
        deposit = stacks_to_map inst.deposit;
        blueprint_id = if build then inst.blueprint_id else "";
        anchor = if build then inst.anchor else origin;
        rotation = if build then normalize_rotation inst.rotation else 0;
        created_tick = now;
        deadline_tick = deadline;
        state = open_state;
      }

  -- From the escrow of the reward on.
  unfoldable pub post_at : String → ℕ → Container → Site → Site
  unfolding new_contract
  post_at kind deadline term w =
      let (h, term') = escrow_items (w.heap, term) a.inventory (stacks_to_map inst.reward) in
      let (cid, w') = new_contract_id (put_container term' (with_heap h w)) in
      notify a.id (created now inst.id cid) (put_contract (new_contract cid kind deadline term) w')

  -- From the result of `ValidatePost` on; without a terminal it never passes.
  pub post_checked : PostPrep → Check → Option Container → Site → Site
  unfolding post_at
  post_checked prep (reject code msg) term w = refuse code msg w
  post_checked prep pass none w = w
  post_checked prep pass (some term) w = post_at prep.resolved_kind prep.deadline term w

  pub handle_post_contract : ℕ → Site → Site
  unfolding post_checked
  handle_post_contract day w =
      let prep = post_prep day w in post_checked prep (validate_post prep.validation) (terminal w) w

  abbrev pub accept_prep : Option Contract → Option Container → Site → AcceptPrep
  accept_prep none term w = prepare_accept (record {
    has_contract = false;
    state = none;
    terminal_type = "";
    terminal_matches = false;
    distance = 0;
    now_tick = now;
    deadline_tick = 0;
    base_deposit = [];
    deposit_mult = deposit_multiplier a.rep_trade;
    inventory = w.heap a.inventory;
  })
  accept_prep (some c) term w = prepare_accept (record {
    has_contract = true;
    state = some c.state;
    terminal_type = type_of term;
    terminal_matches = matches c.terminal_pos term;
    distance = distance_to a.pos term;
    now_tick = now;
    deadline_tick = c.deadline_tick;
    base_deposit = c.deposit;
    deposit_mult = deposit_multiplier a.rep_trade;
    inventory = w.heap a.inventory;
  })

  -- The deposit is put into escrow, and the contract accepted.
  unfoldable pub accept_at : Map ℕ → Contract → Container → Site → Site
  accept_at deposit c term w =
      let (h, term') = escrow_items (w.heap, term) a.inventory deposit in
      let c' : Contract = record c { deposit = deposit; acceptor = a.id; state = accepted } in
      let w' = put_container term' (with_heap h w) in
      notify a.id (ar now inst.id true "" "accepted")
        (record w' { contracts = insert inst.contract_id c' w'.contracts })

  -- From the result of `ValidateAccept` on; without a contract or a terminal it never passes.
  pub accept_checked : Map ℕ → Check → Option Contract → Option Container → Site → Site
  unfolding accept_at
  accept_checked deposit (reject code msg) found term w = refuse code msg w
  accept_checked deposit pass (some c) (some t) w = accept_at deposit c t w
  accept_checked deposit pass _ _ w = w

  accept_ids : Check → Option Contract → Option Container → Site → Site
  unfolding accept_checked
  accept_ids (reject code msg) found term w = refuse code msg w
  accept_ids pass found term w =
      let prep = accept_prep found term w in
      accept_checked prep.required_deposit (validate_accept prep.validation) found term w

  pub handle_accept_contract : Site → Site
  unfolding accept_ids
  handle_accept_contract w =
      accept_ids (validate_lifecycle_ids inst.contract_id inst.terminal_id)
        (lookup inst.contract_id w.contracts) (terminal w) w
