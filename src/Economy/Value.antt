-- ===== src/Economy/Value.antt =====
-- internal/sim/world/feature/economy/value/value.go: item prices, and which trades serve both sides.
use voxelcraft_ai.Prelude.{
  ℕ, ◌*◌, ◌≤◌, ◌<◌, ◌≡◌, ◌↔◌, String, Bool, true, false, ◌||◌, [], ◌∷◌, arith, str_eq,
  if◌then◌else◌, half, add64, mul64, lt_int, le_int, Map,
}

abbrev pub trade_fair_min_pct : ℕ
trade_fair_min_pct = 50

-- The `switch` of `ItemTradeValue`.
abbrev prices : Map ℕ
prices =
    ("PLANK", 1)
    ∷ ("LOG", 2)
    ∷ ("STONE", 1)
    ∷ ("GRAVEL", 1)
    ∷ ("DIRT", 1)
    ∷ ("SAND", 1)
    ∷ ("BRICK", 1)
    ∷ ("GLASS", 1)
    ∷ ("METAL_PLATE", 1)
    ∷ ("STICK", 1)
    ∷ ("COAL", 2)
    ∷ ("IRON_ORE", 3)
    ∷ ("COPPER_ORE", 3)
    ∷ ("IRON_INGOT", 5)
    ∷ ("COPPER_INGOT", 4)
    ∷ ("CRYSTAL_SHARD", 20)
    ∷ ("WIRE", 1)
    ∷ ("BATTERY", 30)
    ∷ ("CONVEYOR", 36)
    ∷ ("SENSOR", 52)
    ∷ ("CLAIM_TOTEM", 26)
    ∷ ("CONTRACT_TERMINAL", 80)
    ∷ ("BERRIES", 1)
    ∷ ("BREAD", 3)
    ∷ ("RAW_MEAT", 1)
    ∷ ("COOKED_MEAT", 5)
    ∷ []

price_in : Map ℕ → String → ℕ
price_in [] item = 1
price_in ((k, v) ∷ rest) item = if str_eq k item then v else price_in rest item

pub item_trade_value : String → ℕ
unfolding price_in
item_trade_value item = price_in prices item

-- The keys are summed in sorted order in the source; the wrapping sum is the same in any order.
pub trade_value : Map ℕ → ℕ
trade_value [] = 0
trade_value ((k, n) ∷ items) =
    let rest = trade_value items in
    if str_eq k "" || le_int n 0 then rest else add64 (mul64 (item_trade_value k) n) rest

unfoldable pub trade_mutual_benefit : ℕ → ℕ → Bool
trade_mutual_benefit offer request =
    if le_int offer 0 || le_int request 0
    then false
    else (let swapped = lt_int request offer in
        let least = if swapped then request else offer in
        let most = if swapped then offer else request in
        le_int (mul64 most trade_fair_min_pct) (mul64 least 100))

-- For positive values below 2 ^ 63 / 100, a trade serves both sides exactly when neither side is
-- worth more than twice the other.
pub trade_mutual_benefit_lem :
    (offer request : ℕ)
    → 0 < offer
    → 0 < request
    → offer * 100 < half
    → request * 100 < half
    → (trade_mutual_benefit offer request ≡ true) ↔ ((offer ≤ 2 * request) × (request ≤ 2 * offer))
unfolding trade_mutual_benefit
trade_mutual_benefit_lem offer request a b c d = ground arith
