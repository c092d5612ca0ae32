-- ===== src/Contracts/Validation.antt =====
-- internal/sim/world/feature/contracts/validation/validation.go.
use voxelcraft_ai.Prelude.{
  ℕ, String, Bool, true, false, not, ◌&&◌, ◌||◌, str_eq, ltb, lt_int, Option, some, if◌then◌else◌,
  Map, is_blank,
}
use voxelcraft_ai.Economy.Trade.Validation.{Check, pass, reject}
use voxelcraft_ai.Contracts.Core.{ContractState, open_state, accepted}
use voxelcraft_ai.Contracts.Lifecycle.{validate_post_input}

pub record PostValidationInput : Type 0 where
  pub terminal_id : String
  pub has_terminal : Bool
  pub distance : ℕ
  pub kind : String
  pub requirements : Map ℕ
  pub reward : Map ℕ
  pub is_build : Bool
  pub blueprint_id : String
  pub has_enough_reward : Bool

-- The checks that follow `ValidatePostInput`.
after_post_input : PostValidationInput → Check → Check
after_post_input v (reject code msg) = reject code msg
after_post_input v pass =
    if v.is_build && str_eq v.blueprint_id ""
    then reject "E_BAD_REQUEST" "missing blueprint_id"
    else if not v.has_enough_reward
    then reject "E_NO_RESOURCE" "insufficient reward items"
    else pass

unfoldable pub validate_post : PostValidationInput → Check
unfolding after_post_input
validate_post v =
    if str_eq v.terminal_id ""
    then reject "E_BAD_REQUEST" "missing terminal_id"
    else if not v.has_terminal
    then reject "E_INVALID_TARGET" "contract terminal not found"
    else if lt_int 3 v.distance
    then reject "E_BLOCKED" "too far"
    else if str_eq v.kind ""
    then reject "E_BAD_REQUEST" "bad contract_kind"
    else after_post_input v (validate_post_input v.kind v.requirements v.reward)

-- Where there is no contract, its state is the empty text, here `none`.
abbrev is_state_open : Option ContractState → Bool
is_state_open (some open_state) = true
is_state_open _ = false

abbrev is_state_accepted : Option ContractState → Bool
is_state_accepted (some accepted) = true
is_state_accepted _ = false

pub record AcceptValidationInput : Type 0 where
  pub has_contract : Bool
  pub state : Option ContractState
  pub terminal_match : Bool
  pub distance : ℕ
  pub now_tick : ℕ
  pub deadline_tick : ℕ
  pub has_enough_deposit : Bool

unfoldable pub validate_accept : AcceptValidationInput → Check
validate_accept v =
    if not v.has_contract
    then reject "E_INVALID_TARGET" "contract not found"
    else if not (is_state_open v.state)
    then reject "E_CONFLICT" "contract not open"
    else if not v.terminal_match
    then reject "E_INVALID_TARGET" "terminal mismatch"
    else if lt_int 3 v.distance
    then reject "E_BLOCKED" "too far"
    else if ltb v.deadline_tick v.now_tick
    then reject "E_CONFLICT" "contract expired"
    else if not v.has_enough_deposit
    then reject "E_NO_RESOURCE" "insufficient deposit"
    else pass

pub record SubmitValidationInput : Type 0 where
  pub has_contract : Bool
  pub state : Option ContractState
  pub is_acceptor : Bool
  pub terminal_match : Bool
  pub distance : ℕ
  pub now_tick : ℕ
  pub deadline_tick : ℕ
  pub can_submit_it : Bool

unfoldable pub validate_submit : SubmitValidationInput → Check
validate_submit v =
    if not v.has_contract
    then reject "E_INVALID_TARGET" "contract not found"
    else if not (is_state_accepted v.state) || not v.is_acceptor
    then reject "E_NO_PERMISSION" "not acceptor"
    else if not v.terminal_match
    then reject "E_INVALID_TARGET" "terminal mismatch"
    else if lt_int 3 v.distance
    then reject "E_BLOCKED" "too far"
    else if ltb v.deadline_tick v.now_tick
    then reject "E_CONFLICT" "contract expired"
    else if not v.can_submit_it
    then reject "E_BLOCKED" "requirements not met"
    else pass

unfoldable pub validate_lifecycle_ids : String → String → Check
validate_lifecycle_ids contract_id terminal_id =
    if is_blank contract_id || is_blank terminal_id
    then reject "E_BAD_REQUEST" "missing contract_id/terminal_id"
    else pass
