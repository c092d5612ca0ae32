-- ===== src/Economy/Trade/Openings.antt =====
-- How trades are opened and declined (feature/economy/instants/trade_handlers.go).
use voxelcraft_ai.Prelude.{
  ℕ, ◌≡◌, refl, ◌∙◌, ap, add64, Bool, Option, none, some, str_eq, eq_iff, if◌then◌else◌, Map,
  lookup, insert, delete, Bool-cases, Option-cases, inl, inr, ◌⊎◌,
}
use voxelcraft_ai.Kernel.Event.{Event, rate_limited}
use voxelcraft_ai.Kernel.Agent.{Agent, rate_limit_allow}
use voxelcraft_ai.Economy.Floats.{Floats}
use voxelcraft_ai.Economy.Inventory.{parse_item_pairs}
use voxelcraft_ai.Economy.Trade.State.{World, Trade, tell, tell_maps, put_agent}
use voxelcraft_ai.Economy.Trade.Validation.{
  Check, pass, reject, validate_offer_trade_input, validate_trade_offer_pairs,
  validate_trade_lifecycle_input,
}
use voxelcraft_ai.Economy.Trade.{
  TradeReq, TradeEnv, refuse, tell_offerer, decline_found, handle_decline_trade, open_trade,
  offer_pairs, offer_permitted, handle_offer_trade,
}

module _ (fl : Floats) (env : TradeEnv fl) (a : Agent) (inst : TradeReq fl) (now : ℕ) where
  -- No items move, and at most the named trade goes, if it is addressed to the agent.
  abbrev Declines : World → World → Type 0
  Declines w after =
      (after.heap ≡ w.heap)
      × ((after.trades ≡ w.trades)
          ⊎ ((tr : Trade) × (lookup inst.trade_id w.trades ≡ some tr)
              × (tr.to ≡ a.id)
              × (after.trades ≡ delete inst.trade_id w.trades)))

  tell_offerer_maps :
      (tr : Trade) (w : World)
      → ((tell_offerer fl env a inst now tr w).heap ≡ w.heap)
        × ((tell_offerer fl env a inst now tr w).trades ≡ w.trades)
  unfolding tell_offerer
  tell_offerer_maps tr w = elim (Option-cases (lookup tr.from w.agents)) [
    | inl offline ↦ rw (offline, tell_offerer) (refl, refl)
    | inr (from, online) ↦ rw (online, tell_offerer) (tell_maps _ _ _)
  ]

  decline_found-Declines :
      (found : Option Trade) (w : World)
      → lookup inst.trade_id w.trades ≡ found
      → Declines w (decline_found fl env a inst now found w)
  unfolding decline_found
  decline_found-Declines none w e = let kept = tell_maps a.id _ w in (kept.0, inl kept.1)
  decline_found-Declines (some tr) w e = elim (Bool-cases (str_eq tr.to a.id)) [
    | inr other ↦ rw other (let kept = tell_maps a.id _ w in (kept.0, inl kept.1))
    | inl mine ↦
        let less : World = record w { trades = delete inst.trade_id w.trades } in
        let told = tell_offerer_maps tr less in
        let last = tell_maps a.id _ (tell_offerer fl env a inst now tr less) in
        rw mine (last.0 ∙ told.0, inr (tr, e, (eq_iff tr.to a.id).0 mine, last.1 ∙ told.1))
  ]

  -- Declining moves no item and removes no trade but the named one, and that one only for the
  -- agent to whom it is addressed.
  pub handle_decline_trade_lem :
      (allow_trade : Bool) (w : World)
      → Declines w (handle_decline_trade fl env a inst now allow_trade w)
  unfolding handle_decline_trade
  handle_decline_trade_lem allow_trade w =
      checked (validate_trade_lifecycle_input allow_trade inst.trade_id)
    where
      checked :
          (c : Check)
          → Declines w (elim c as (λ _. World) [
            | reject code msg ↦ refuse fl env a inst now code msg w
            | pass ↦ decline_found fl env a inst now (lookup inst.trade_id w.trades) w
          ])
      checked pass = decline_found-Declines _ w refl
      checked (reject code msg) = let kept = tell_maps a.id _ w in (kept.0, inl kept.1)

  -- No items move, and at most one trade is stored: from the agent, with what was read.
  abbrev Opens : World → World → Type 0
  Opens w after =
      (after.heap ≡ w.heap)
      × ((after.trades ≡ w.trades)
          ⊎ ((tr : Trade) × (tr.from ≡ a.id)
              × (parse_item_pairs fl inst.offer ≡ some tr.offer)
              × (parse_item_pairs fl inst.request ≡ some tr.request)
              × (after.trades ≡ insert tr.trade_id tr w.trades)))

  -- Allocating an id changes neither the inventories nor the trades.
  pub record AllocatesOnly : Type 0 where
    pub id_heap : (w : World) → (env.new_trade_id w).1.heap ≡ w.heap
    pub id_trades : (w : World) → (env.new_trade_id w).1.trades ≡ w.trades

  refused :
      (w w' : World) (e : Event)
      → w'.heap ≡ w.heap
      → w'.trades ≡ w.trades
      → Opens w (tell a.id e w')
  refused w w' e h t = ((tell_maps a.id e w').0 ∙ h, inl ((tell_maps a.id e w').1 ∙ t))

  open_trade-Opens :
      (to : Agent) (offer request : Map ℕ) (w : World)
      → AllocatesOnly
      → parse_item_pairs fl inst.offer ≡ some offer
      → parse_item_pairs fl inst.request ≡ some request
      → Opens w (open_trade fl env a inst now to offer request w)
  unfolding open_trade
  open_trade-Opens to offer request w k o r = elim (Bool-cases (str_eq (env.new_trade_id w).0 "")) [
    | inl failed ↦ rw failed (refused w _ _ (k.id_heap w) (k.id_trades w))
    | inr fresh ↦ rw fresh (
      (tell_maps _ _ _).0 ∙ (tell_maps _ _ _).0 ∙ k.id_heap w,
      inr (
        record {
          trade_id = (env.new_trade_id w).0;
          from = a.id;
          to = to.id;
          offer = offer;
          request = request;
          created_tick = now;
        },
        refl,
        o,
        r,
        (tell_maps _ _ _).1
            ∙ (tell_maps _ _ _).1
            ∙ ap (insert (env.new_trade_id w).0 _) (k.id_trades w),
      ),
    )
  ]

  offer_pairs-Opens :
      (to : Agent) (offer request : Option (Map ℕ)) (w : World)
      → AllocatesOnly
      → parse_item_pairs fl inst.offer ≡ offer
      → parse_item_pairs fl inst.request ≡ request
      → Opens w (offer_pairs fl env a inst now to offer request w)
  unfolding offer_pairs
  offer_pairs-Opens to offer request w k o r =
      checked (validate_trade_offer_pairs offer request) offer request o r
    where
      checked :
          (c : Check) (offer request : Option (Map ℕ))
          → parse_item_pairs fl inst.offer ≡ offer
          → parse_item_pairs fl inst.request ≡ request
          → Opens w (elim c as (λ _. World) [
            | reject code msg ↦ refuse fl env a inst now code msg w
            | pass ↦ elim offer as (λ _. World) [
              | none ↦ w
              | some o ↦ elim request as (λ _. World) [
                | none ↦ w
                | some r ↦ open_trade fl env a inst now to o r w
              ]
            ]
          ])
      checked (reject code msg) offer request o r = refused w w _ refl refl
      checked pass none request o r = (refl, inl refl)
      checked pass (some offer) none o r = (refl, inl refl)
      checked pass (some offer) (some request) o r = open_trade-Opens to offer request w k o r

  offer_permitted-Opens :
      (w : World) → AllocatesOnly → Opens w (offer_permitted fl env a inst now w)
  unfolding offer_permitted
  offer_permitted-Opens w k = elim (Bool-cases (env.can_trade w a.id a.pos)) [
    | inr barred ↦ rw barred (refused w w _ refl refl)
    | inl permitted ↦ rw permitted (elim (Option-cases (lookup inst.to w.agents)) [
      | inl missing ↦ rw (missing, offer_permitted) (refused w w _ refl refl)
      | inr (to, there) ↦ rw (there, offer_permitted) (offer_pairs-Opens to _ _ w k refl refl)
    ])
  ]

  -- Where allocating an id changes neither inventories nor trades, offering a trade moves no item
  -- and stores at most one trade, which is from the agent, with the two sides that were read from
  -- the request.
  pub handle_offer_trade_lem :
      (allow_trade : Bool) (window max : ℕ) (w : World)
      → AllocatesOnly
      → Opens w (handle_offer_trade fl env a inst now allow_trade window max w)
  unfolding handle_offer_trade put_agent
  handle_offer_trade_lem allow_trade window max w k =
      checked (validate_offer_trade_input allow_trade inst.to)
    where
      limited : World
      limited = put_agent (rate_limit_allow a "OFFER_TRADE" now window max).1 w

      checked :
          (c : Check)
          → Opens w (elim c as (λ _. World) [
            | reject code msg ↦ refuse fl env a inst now code msg w
            | pass ↦
                let ((ok, cd), a') = rate_limit_allow a "OFFER_TRADE" now window max in
                let w' = put_agent a' w in
                if ok
                then offer_permitted fl env a inst now w'
                else tell a.id
                    (rate_limited now inst.id "E_RATE_LIMIT" "too many OFFER_TRADE" cd
                      (add64 now cd))
                    w'
          ])
      checked (reject code msg) = refused w w _ refl refl
      checked pass = elim (Bool-cases (rate_limit_allow a "OFFER_TRADE" now window max).0.0) [
        | inl ok ↦ rw ok (offer_permitted-Opens limited k)
        | inr over ↦ rw over (refused w limited _ refl refl)
      ]
