-- ===== src/Economy/Trade.antt =====
-- internal/sim/world/feature/economy/instants: the trade handlers. An agent is named by its id, and
-- the handlers act on the world's maps; what they ask of the world beside that is the interface
-- `TradeEnv`, as in the source. The `env == nil` branches are left out: an environment is given.
pub mod State
pub mod Validation
pub mod Keeps
pub mod Safety
pub mod Openings
use voxelcraft_ai.Prelude.{
  ℕ, ◌+◌, String, Bool, true, false, not, ◌&&◌, ◌||◌, Option, none, some, List, [], ◌∷◌, str_eq,
  if◌then◌else◌, add64, Map, lookup, insert, delete, is_blank,
}
use voxelcraft_ai.Kernel.Vec.{Vec3i}
use voxelcraft_ai.Kernel.Event.{
  Event, ar, rate_limited, created, trade_offer, trade_declined, trade_done,
}
use voxelcraft_ai.Kernel.Agent.{Agent, add_event, rate_limit_allow}
use voxelcraft_ai.Economy.Floats.{Floats}
use voxelcraft_ai.Economy.Heap.{Heap}
use voxelcraft_ai.Economy.Inventory.{
  Value, has_items, parse_item_pairs, apply_transfer_with_tax, calc_tax,
}
use voxelcraft_ai.Economy.Value.{item_trade_value, trade_value, trade_mutual_benefit}
use State.{World, Trade, tell, put_agent}
use Validation.{
  Check, pass, reject, validate_offer_trade_input, validate_trade_lifecycle_input,
  validate_trade_offer_pairs,
}

module _ (fl : Floats) where
  open fl use {Float}

  -- The fields of protocol.InstantReq that the trade handlers read.
  pub record TradeReq : Type 0 where
    pub id : String
    pub to : String
    pub trade_id : String
    pub offer : List (List (Value fl))
    pub request : List (List (Value fl))

  pub record TradeTaxResolution : Type 0 where
    pub rate : Float
    pub sink : Option ℕ  -- the address of the map, or nil
    pub land_id : String
    pub tax_to : String

  pub record TradeAcceptOutcome : Type 0 where
    pub trade : Trade
    pub from : String
    pub to : String
    pub value_offer : ℕ
    pub value_req : ℕ
    pub mutual_ok : Bool
    pub tax : TradeTaxResolution
    pub tax_paid_off : Map ℕ
    pub tax_paid_req : Map ℕ
    pub completed_at : ℕ

  pub record TradeEnv : Type 0 where
    pub can_trade : World → String → Vec3i → Bool  -- PermissionsFor(id, pos)["can_trade"]
    pub new_trade_id : World → String × World
    pub resolve_trade_tax : World → Trade → Agent → Agent → ℕ → TradeTaxResolution
    pub on_completed : World → TradeAcceptOutcome → World

  module _ (env : TradeEnv) (a : Agent) (inst : TradeReq) (now : ℕ) where
    -- a.AddEvent(ar(nowTick, inst.ID, false, code, msg))
    abbrev pub refuse : String → String → World → World
    refuse code msg w = tell a.id (ar now inst.id false code msg) w

    -- The last part of `HandleOfferTrade`: the trade is stored, and both sides are told.
    pub open_trade : Agent → Map ℕ → Map ℕ → World → World
    open_trade to offer request w =
        let (trade_id, w') = env.new_trade_id w in
        let trade : Trade = record {
          trade_id = trade_id;
          from = a.id;
          to = to.id;
          offer = offer;
          request = request;
          created_tick = now;
        } in
        if str_eq trade_id ""
        then refuse "E_INTERNAL" "trade id allocation failed" w'
        else tell a.id (created now inst.id trade_id) (
            tell to.id (trade_offer now trade_id a.id offer request)
              (record w' { trades = insert trade_id trade w'.trades }))

    offer_pairs : Agent → Option (Map ℕ) → Option (Map ℕ) → World → World
    unfolding open_trade
    offer_pairs to offer request w = elim (validate_trade_offer_pairs offer request) [
      | reject code msg ↦ refuse code msg w
      | pass ↦ elim offer [
        | none ↦ w
        | some o ↦ elim request [ none ↦ w | some r ↦ open_trade to o r w ]
      ]
    ]

    -- From the permission check on.
    offer_permitted : World → World
    unfolding offer_pairs
    offer_permitted w =
        if env.can_trade w a.id a.pos
        then elim (lookup inst.to w.agents) [
          | none ↦ refuse "E_INVALID_TARGET" "target not found" w
          | some to ↦
              offer_pairs to (parse_item_pairs fl inst.offer) (parse_item_pairs fl inst.request) w
        ]
        else refuse "E_NO_PERMISSION" "trade not allowed here" w

    unfoldable pub handle_offer_trade : Bool → ℕ → ℕ → World → World
    unfolding offer_permitted
    handle_offer_trade allow_trade window max w =
        elim (validate_offer_trade_input allow_trade inst.to) [
          | reject code msg ↦ refuse code msg w
          | pass ↦
              let ((ok, cd), a') = rate_limit_allow a "OFFER_TRADE" now window max in
              let w' = put_agent a' w in
              if ok
              then offer_permitted w'
              else tell a.id
                  (rate_limited now inst.id "E_RATE_LIMIT" "too many OFFER_TRADE" cd (add64 now cd))
                  w'
        ]

    -- from != nil: the offering agent is told, if it is still there.
    tell_offerer : Trade → World → World
    tell_offerer tr w = elim (lookup tr.from w.agents) [
      | none ↦ w
      | some from ↦ tell from.id (trade_declined now tr.trade_id a.id) w
    ]

    -- From the lookup of the trade on.
    decline_found : Option Trade → World → World
    unfolding tell_offerer
    decline_found none w = refuse "E_INVALID_TARGET" "trade not found" w
    decline_found (some tr) w =
        if str_eq tr.to a.id
        then tell a.id (ar now inst.id true "" "declined")
            (tell_offerer tr (record w { trades = delete inst.trade_id w.trades }))
        else refuse "E_NO_PERMISSION" "not your trade" w

    pub handle_decline_trade : Bool → World → World
    unfolding decline_found
    handle_decline_trade allow_trade w =
        elim (validate_trade_lifecycle_input allow_trade inst.trade_id) [
          | reject code msg ↦ refuse code msg w
          | pass ↦ decline_found (lookup inst.trade_id w.trades) w
        ]

    -- The two transfers, the deletion of the trade, the hook and the messages.
    pub settle : Trade → Agent → World → World
    settle tr from w =
        let tax = env.resolve_trade_tax w tr from a now in
        let h =
          apply_transfer_with_tax fl w.heap from.inventory a.inventory tr.offer tax.sink tax.rate in
        let h' =
          apply_transfer_with_tax fl h a.inventory from.inventory tr.request tax.sink tax.rate in
        let done = record w { heap = h'; trades = delete inst.trade_id w.trades } in
        let v_offer = trade_value tr.offer in
        let v_req = trade_value tr.request in
        let outcome : TradeAcceptOutcome = record {
          trade = tr;
          from = from.id;
          to = a.id;
          value_offer = v_offer;
          value_req = v_req;
          mutual_ok = trade_mutual_benefit v_offer v_req;
          tax = tax;
          tax_paid_off = calc_tax fl tr.offer tax.rate;
          tax_paid_req = calc_tax fl tr.request tax.rate;
          completed_at = now;
        } in
        tell a.id (ar now inst.id true "" "ok") (
          tell a.id (trade_done now tr.trade_id from.id)
            (tell from.id (trade_done now tr.trade_id a.id) (env.on_completed done outcome)))

    -- The checks on the two parties.
    accept_between : Trade → Agent → World → World
    accept_between tr from w =
        if not (env.can_trade w from.id from.pos) || not (env.can_trade w a.id a.pos)
        then refuse "E_NO_PERMISSION" "trade not allowed here" w
        else if not (has_items (w.heap from.inventory) tr.offer)
            || not (has_items (w.heap a.inventory) tr.request)
        then refuse "E_NO_RESOURCE" "missing items" w
        else settle tr from w

    -- From the lookup of the trade on.
    accept_found : Option Trade → World → World
    accept_found none w = refuse "E_INVALID_TARGET" "trade not found" w
    accept_found (some tr) w =
        if str_eq tr.to a.id
        then elim (lookup tr.from w.agents) [
          | none ↦
              refuse "E_INVALID_TARGET" "trader offline"
                (record w { trades = delete inst.trade_id w.trades })
          | some from ↦ accept_between tr from w
        ]
        else refuse "E_NO_PERMISSION" "not your trade" w

    pub handle_accept_trade : Bool → World → World
    unfolding accept_found
    handle_accept_trade allow_trade w =
        elim (validate_trade_lifecycle_input allow_trade inst.trade_id) [
          | reject code msg ↦ refuse code msg w
          | pass ↦ accept_found (lookup inst.trade_id w.trades) w
        ]
