-- ===== src/Economy/Trade/Validation.antt =====
-- internal/sim/world/feature/economy/instants/instants.go: (ok, code, msg) is `pass` or a `reject`.
use voxelcraft_ai.Prelude.{
  ℕ, String, Bool, true, false, Option, none, some, [], ◌∷◌, if◌then◌else◌, Map, is_blank,
}

pub data Check : Type 0 where
  pass : Check
  reject : (code message : String) → Check

unfoldable pub validate_offer_trade_input : Bool → String → Check
validate_offer_trade_input allow_trade to =
    if allow_trade
    then if is_blank to then reject "E_BAD_REQUEST" "missing to" else pass
    else reject "E_NO_PERMISSION" "trade disabled in this world"

unfoldable pub validate_trade_lifecycle_input : Bool → String → Check
validate_trade_lifecycle_input allow_trade trade_id =
    if allow_trade
    then if is_blank trade_id then reject "E_BAD_REQUEST" "missing trade_id" else pass
    else reject "E_NO_PERMISSION" "trade disabled in this world"

-- err != nil || len(m) == 0, where the error is `none`.
empty_or_error : Option (Map ℕ) → Bool
empty_or_error none = true
empty_or_error (some []) = true
empty_or_error (some (e ∷ m)) = false

unfoldable pub validate_trade_offer_pairs : Option (Map ℕ) → Option (Map ℕ) → Check
unfolding empty_or_error
validate_trade_offer_pairs offer request =
    if empty_or_error offer
    then reject "E_BAD_REQUEST" "bad offer"
    else if empty_or_error request
    then reject "E_BAD_REQUEST" "bad request"
    else pass
