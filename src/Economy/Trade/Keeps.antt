-- ===== src/Economy/Trade/Keeps.antt =====
-- What the trade handlers of feature/economy/instants/trade_handlers.go leave alone.
use voxelcraft_ai.Prelude.{
  ℕ, ◌≡◌, refl, ◌∙◌, Bool, true, false, Option, none, some, arith, str_eq, lookup, delete,
  Bool-cases, Option-cases, inl, inr, ◌⊎◌,
}
use voxelcraft_ai.Kernel.Agent.{Agent}
use voxelcraft_ai.Kernel.Event.{ar}
use voxelcraft_ai.Economy.Floats.{Floats}
use voxelcraft_ai.Economy.Inventory.{has_items, apply_transfer_with_tax}
use voxelcraft_ai.Economy.Trade.State.{World, Trade, tell_maps}
use voxelcraft_ai.Economy.Trade.Validation.{Check, pass, reject, validate_trade_lifecycle_input}
use voxelcraft_ai.Economy.Trade.{
  TradeReq, TradeEnv, TradeAcceptOutcome, refuse, settle, accept_between, accept_found,
  handle_accept_trade,
}

module _ (fl : Floats) where
  -- The hook only records the trade: it moves no items and opens or closes no trade.
  pub record IsQuiet (env : TradeEnv fl) : Type 0 where
    pub hook_heap : (w : World) (o : TradeAcceptOutcome fl) → (env.on_completed w o).heap ≡ w.heap
    pub hook_trades :
        (w : World) (o : TradeAcceptOutcome fl) → (env.on_completed w o).trades ≡ w.trades

  module _ (env : TradeEnv fl) (a : Agent) (inst : TradeReq fl) (now : ℕ) where
    pub settle_maps :
        (tr : Trade) (from : Agent) (w : World)
        → IsQuiet env
        → let tax = env.resolve_trade_tax w tr from a now in
          let h =
            apply_transfer_with_tax fl w.heap from.inventory a.inventory tr.offer tax.sink
              tax.rate in
          ((settle fl env a inst now tr from w).heap
            ≡ apply_transfer_with_tax fl h a.inventory from.inventory tr.request tax.sink tax.rate)
          × ((settle fl env a inst now tr from w).trades ≡ delete inst.trade_id w.trades)
    unfolding settle
    settle_maps tr from w q = (
      (tell_maps _ _ _).0 ∙ (tell_maps _ _ _).0 ∙ (tell_maps _ _ _).0 ∙ q.hook_heap _ _,
      (tell_maps _ _ _).1 ∙ (tell_maps _ _ _).1 ∙ (tell_maps _ _ _).1 ∙ q.hook_trades _ _,
    )

    -- The one run of `HandleAcceptTrade` that changes inventories: the trade is open and addressed
    -- to the agent, and both sides hold what they give.
    pub record Settles (w after : World) : Type 0 where
      pub tr : Trade
      pub from : Agent
      pub found : lookup inst.trade_id w.trades ≡ some tr
      pub offerer : lookup tr.from w.agents ≡ some from
      pub addressee : str_eq tr.to a.id ≡ true
      pub offer_held : has_items (w.heap from.inventory) tr.offer ≡ true
      pub request_held : has_items (w.heap a.inventory) tr.request ≡ true
      pub settled : after ≡ settle fl env a inst now tr from w

    accept_between_cases :
        (tr : Trade) (from : Agent) (w : World)
        → ((accept_between fl env a inst now tr from w).heap ≡ w.heap)
          ⊎ ((has_items (w.heap from.inventory) tr.offer ≡ true)
              × (has_items (w.heap a.inventory) tr.request ≡ true)
              × (accept_between fl env a inst now tr from w ≡ settle fl env a inst now tr from w))
    unfolding accept_between
    accept_between_cases tr from w = ground (
      arith,
      tell_maps a.id (ar now inst.id false "E_NO_PERMISSION" "trade not allowed here") w,
      tell_maps a.id (ar now inst.id false "E_NO_RESOURCE" "missing items") w,
    )

    accept_found_cases :
        (found : Option Trade) (w : World)
        → lookup inst.trade_id w.trades ≡ found
        → ((accept_found fl env a inst now found w).heap ≡ w.heap)
          ⊎ Settles w (accept_found fl env a inst now found w)
    unfolding accept_found
    accept_found_cases none w e = inl (tell_maps _ _ _).0
    accept_found_cases (some tr) w e = elim (Bool-cases (str_eq tr.to a.id)) [
      | inr other ↦ inl (rw other (tell_maps _ _ _).0)
      | inl mine ↦ elim (Option-cases (lookup tr.from w.agents)) [
        | inl offline ↦ inl (rw (mine, offline, accept_found) (tell_maps _ _ _).0)
        | inr (from, online) ↦ elim (accept_between_cases tr from w) [
          | inl kept ↦ inl (rw (mine, online, accept_found) kept)
          | inr (offer, request, done) ↦ inr (record {
            tr = tr;
            from = from;
            found = e;
            offerer = online;
            addressee = mine;
            offer_held = offer;
            request_held = request;
            settled = rw (mine, online, accept_found) done;
          })
        ]
      ]
    ]

    -- Accepting a trade settles it or leaves every inventory as it is.
    pub handle_accept_trade_cases :
        (allow_trade : Bool) (w : World)
        → ((handle_accept_trade fl env a inst now allow_trade w).heap ≡ w.heap)
          ⊎ Settles w (handle_accept_trade fl env a inst now allow_trade w)
    unfolding handle_accept_trade
    handle_accept_trade_cases allow_trade w =
        checked (validate_trade_lifecycle_input allow_trade inst.trade_id)
      where
        checked :
            (c : Check)
            → (elim c as (λ _. World) [
              | reject code msg ↦ refuse fl env a inst now code msg w
              | pass ↦ accept_found fl env a inst now (lookup inst.trade_id w.trades) w
            ]).heap
                ≡ w.heap
              ⊎ Settles w (elim c as (λ _. World) [
                | reject code msg ↦ refuse fl env a inst now code msg w
                | pass ↦ accept_found fl env a inst now (lookup inst.trade_id w.trades) w
              ])
        checked pass = accept_found_cases _ w refl
        checked (reject code msg) = inl (tell_maps _ _ _).0
