-- ===== src/Contracts/Lifecycle.antt =====
-- internal/sim/world/feature/contracts/lifecycle/logic.go, reputation/reputation.go, and
-- `NormalizeKind` of core/core.go.
pub mod Deposits
use Prim.Native.Char.{code}
use mathlib.Core.List.{reverse}
use voxelcraft_ai.Prelude.{
  ℕ, suc, ◌-◌, ◌*◌, ◌≤◌, ◌<◌, refl, String, Bool, true, false, ◌&&◌, ◌||◌, List, [], ◌∷◌, map,
  arith, leb, ltb, ◌==◌, str_eq, is_space, not, if◌then◌else◌, word, add64, sub64, mul64, le_int,
  lt_int, Map, All,
}
use voxelcraft_ai.Kernel.Text.{codes, trim_upper, same}
use voxelcraft_ai.Economy.Trade.Validation.{Check, pass, reject}

-- The empty text is the kind of no contract.
unfoldable pub normalize_kind : String → String
normalize_kind k =
    let name = trim_upper k in
    if same name (codes "GATHER")
    then "GATHER"
    else if same name (codes "DELIVER")
    then "DELIVER"
    else if same name (codes "BUILD")
    then "BUILD"
    else ""

unfoldable pub build_deadline : ℕ → ℕ → ℕ → ℕ → ℕ
build_deadline now explicit duration day =
    if explicit == 0
    then (let d = if le_int duration 0 then day else duration in
        add64 now (if lt_int d 0 then 0 else d))
    else explicit

is_empty : Map ℕ → Bool
is_empty [] = true
is_empty (e ∷ m) = false

unfoldable pub validate_post_input : String → Map ℕ → Map ℕ → Check
unfolding is_empty
validate_post_input kind requirements reward =
    if is_empty reward
    then reject "E_BAD_REQUEST" "missing reward"
    else if not (str_eq kind "BUILD") && is_empty requirements
    then reject "E_BAD_REQUEST" "missing requirements"
    else pass

-- The two loops of `ScaleDeposit` differ in the factor only.
scale_by : ℕ → Map ℕ → Map ℕ
scale_by factor [] = []
scale_by factor ((item, n) ∷ base) =
    let rest = scale_by factor base in
    if str_eq item "" || le_int n 0 then rest else (item, mul64 n factor) ∷ rest

unfoldable pub scale_deposit : Map ℕ → ℕ → Map ℕ
unfolding scale_by
scale_deposit base multiplier = scale_by (if le_int multiplier 1 then 1 else multiplier) base

unfoldable pub can_submit : String → Bool → Bool → Bool
can_submit kind requirements_ok build_ok =
    if str_eq kind "GATHER" || str_eq kind "DELIVER"
    then requirements_ok
    else str_eq kind "BUILD" && build_ok

unfoldable pub needs_requirements_consumption : String → Bool
needs_requirements_consumption kind = str_eq kind "GATHER" || str_eq kind "DELIVER"

unfoldable pub clamp_reputation : ℕ → ℕ
clamp_reputation v = if lt_int v 0 then 0 else if lt_int 1000 v then 1000 else v

unfoldable pub deposit_multiplier : ℕ → ℕ
deposit_multiplier rep = if le_int 500 rep then 1 else if le_int 300 rep then 2 else 3

-- (trade, law); -12, -8 and -4 as patterns.
unfoldable pub law_penalty_delta : String → ℕ × ℕ
law_penalty_delta reason =
    if str_eq reason "CONTRACT_TIMEOUT" then (sub64 0 12, sub64 0 8) else (0, sub64 0 4)

-- A reputation that a delta moves stays between 0 and 1000.
pub clamp_reputation_bounds : (v : ℕ) → v < word → clamp_reputation v ≤ 1000
unfolding clamp_reputation
clamp_reputation_bounds v h = ground arith

unfoldable pub has_available : Map ℕ → (String → ℕ) → Bool
has_available [] available = true
has_available ((item, n) ∷ req) available =
    let rest = has_available req available in if lt_int (available item) n then false else rest
