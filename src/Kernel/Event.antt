-- ===== src/Kernel/Event.antt =====
-- The events that the modelled handlers deliver to an agent (`protocol.Event` maps, one constructor
-- for each shape that the code builds), and `actionResult` of internal/sim/world/action_apply.go.
use voxelcraft_ai.Prelude.{
  ℕ, String, Bool, true, false, List, [], ◌∷◌, ◌||◌, str_eq, if◌then◌else◌, Map,
}

pub data Event : Type 0 where
  -- ACTION_RESULT with ref, ok, code and message
  action_result : (tick : ℕ) (ref : String) (ok : Bool) (code message : String) → Event
  -- the same with cooldown_ticks and cooldown_until_tick
  rate_limited : (tick : ℕ) (ref code message : String) (cooldown until : ℕ) → Event
  -- ACTION_RESULT with ok and the id of what was created (trade_id, contract_id, land_id, org_id)
  created : (tick : ℕ) (ref id : String) → Event
  -- ACTION_RESULT with ok, land_id and radius
  claim_upgraded : (tick : ℕ) (ref land_id : String) (radius : ℕ) → Event
  -- MAINTENANCE
  maintenance : (tick : ℕ) (land_id status : String) (stage next_due : ℕ) → Event
  trade_offer : (tick : ℕ) (trade_id from : String) (offer request : Map ℕ) → Event
  trade_declined : (tick : ℕ) (trade_id by : String) → Event
  trade_done : (tick : ℕ) (trade_id with_agent : String) → Event

member : String → List String → Bool
member k [] = false
member k (x ∷ xs) = str_eq x k || member k xs

abbrev known_codes : List String
known_codes =
    "E_PROTO_BAD_REQUEST" ∷ "E_WORLD_BUSY" ∷ "E_WORLD_NOT_FOUND" ∷ "E_WORLD_DENIED"
    ∷ "E_WORLD_COOLDOWN" ∷ "E_BAD_REQUEST" ∷ "E_NO_PERMISSION" ∷ "E_NO_RESOURCE"
    ∷ "E_INVALID_TARGET" ∷ "E_RATE_LIMIT" ∷ "E_CONFLICT" ∷ "E_BLOCKED" ∷ "E_STALE" ∷ "E_INTERNAL"
    ∷ []

pub is_known_code : String → Bool
unfolding member
is_known_code code = if str_eq code "" then true else member code known_codes

unfoldable pub ar : ℕ → String → Bool → String → String → Event
unfolding is_known_code
ar tick ref ok code message =
    if is_known_code code
    then action_result tick ref ok code message
    else action_result tick ref ok "E_INTERNAL"
        (if str_eq message "" then "unknown error code" else message)
