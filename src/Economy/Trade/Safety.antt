-- ===== src/Economy/Trade/Safety.antt =====
-- What a trade does to the two inventories (feature/economy/instants/trade_handlers.go).
use voxelcraft_ai.Prelude.{
  ℕ, ◌+◌, ◌%◌, ◌<◌, ◌≡◌, ◌≢◌, refl, sym, ◌∙◌, ap, String, Bool, true, none, some, List, arith, word,
  half, All, HasDistinctKeys, lookup, lookup-All, lookup-delete, get, inl, inr, ◌⊎◌,
}
use mathlib.Core.Option.{some-injective}
use mathlib.Core.Path.{subst, subst₂}
use text.Mathlib.TextPositions.{eq_refl}
use voxelcraft_ai.Kernel.Agent.{Agent}
use voxelcraft_ai.Kernel.Event.{ar, trade_done}
use voxelcraft_ai.Economy.Floats.{Floats}
use voxelcraft_ai.Economy.Heap.{cell}
use voxelcraft_ai.Economy.Heap.Supply.{supply, times}
use voxelcraft_ai.Economy.Inventory.{has_items, apply_transfer, apply_transfer_with_tax, calc_tax}
use voxelcraft_ai.Economy.Inventory.Transfer.{
  IsPositive, IsCounted, lost, supply-apply_transfer_with_tax,
}
use voxelcraft_ai.Economy.Inventory.Outcome.{
  held, untaxed, apply_transfer_source, apply_transfer_target,
}
use voxelcraft_ai.Economy.Trade.State.{World, Trade, tell}
use voxelcraft_ai.Economy.Trade.{
  TradeReq, TradeEnv, TradeAcceptOutcome, settle, handle_accept_trade,
}
use voxelcraft_ai.Economy.Trade.Keeps.{IsQuiet, settle_maps, handle_accept_trade_cases}

-- A trade whose counts did not wrap when it was read.
pub record IsSound (tr : Trade) : Type 0 where
  pub offer_distinct : HasDistinctKeys tr.offer
  pub offer_positive : IsPositive tr.offer
  pub request_distinct : HasDistinctKeys tr.request
  pub request_positive : IsPositive tr.request

module _ (fl : Floats) (env : TradeEnv fl) (a : Agent) (inst : TradeReq fl) (now : ℕ) where
  -- The taxes that an outcome reports, where they have no sink.
  abbrev pub burnt : TradeAcceptOutcome fl → String → ℕ
  burnt o j = lost o.tax.sink (get o.tax_paid_off j) + lost o.tax.sink (get o.tax_paid_req j)

  -- The hook has got the outcome of the trade, and both sides have been told.
  pub record Reports (w : World) (tr : Trade) (from : Agent) (o : TradeAcceptOutcome fl)
      (after : World) : Type 0 where
    pub of_trade : o.trade ≡ tr
    pub taxed : o.tax ≡ env.resolve_trade_tax w tr from a now
    pub before : World
    pub told :
        after
        ≡ tell a.id (ar now inst.id true "" "ok") (
            tell a.id
              (trade_done now tr.trade_id from.id)
              (tell from.id (trade_done now tr.trade_id a.id) (env.on_completed before o)))

  settle-Reports :
      (tr : Trade) (from : Agent) (w : World)
      → let tax = env.resolve_trade_tax w tr from a now in
        (o : TradeAcceptOutcome fl) × Reports w tr from o (settle fl env a inst now tr from w)
        × ((j : String)
            → burnt o j
              ≡ lost tax.sink (get (calc_tax fl tr.offer tax.rate) j)
                + lost tax.sink (get (calc_tax fl tr.request tax.rate) j))
  unfolding settle
  settle-Reports tr from w =
      (_, record { of_trade = refl; taxed = refl; before = _; told = refl }, λ j. refl)

  -- The trade is settled: but for what the reported outcome says to be lost, each total stays.
  abbrev pub Settled : World → World → List ℕ → String → Type 0
  Settled w after rs j =
      (tr : Trade) × (from : Agent) × (o : TradeAcceptOutcome fl) × (lookup inst.trade_id w.trades
        ≡ some tr)
      × (lookup tr.from w.agents ≡ some from)
      × Reports w tr from o after
      × ((supply after.heap rs j + burnt o j) % word ≡ supply w.heap rs j % word)

  settle-supply :
      (tr : Trade) (from : Agent) (w : World) (rs : List ℕ) (j : String)
      → IsQuiet fl env
      → IsSound tr
      → times from.inventory rs ≡ 1
      → times a.inventory rs ≡ 1
      → IsCounted rs (env.resolve_trade_tax w tr from a now).sink
      → (o : TradeAcceptOutcome fl) × Reports w tr from o (settle fl env a inst now tr from w)
        × ((supply (settle fl env a inst now tr from w).heap rs j + burnt o j) % word
            ≡ supply w.heap rs j % word)
  settle-supply tr from w rs j q u f t k =
      let (o, reports, paid) = settle-Reports tr from w in
      let tax = env.resolve_trade_tax w tr from a now in
      let h =
        apply_transfer_with_tax fl w.heap from.inventory a.inventory tr.offer tax.sink tax.rate in
      (
        o,
        reports,
        rw ((settle_maps fl env a inst now tr from w q).0, paid j)
            (omega (
              arith,
              supply-apply_transfer_with_tax fl from.inventory a.inventory rs j w.heap tr.offer
                  tax.sink tax.rate f t k u.offer_distinct u.offer_positive,
              supply-apply_transfer_with_tax fl a.inventory from.inventory rs j h tr.request
                  tax.sink tax.rate t f k u.request_distinct u.request_positive,
            )),
      )

  -- Where the hook only records, the open trades are sound, and each inventory and sink stands
  -- once in a list of maps, accepting a trade creates and destroys no item: no map changes, or
  -- over the list each total stays the same modulo 2 ^ 64, but for a tax without a sink, which is
  -- what the outcome that the hook gets reports: its taxes on the offer and on the request, where
  -- its tax has no sink.
  pub handle_accept_trade-supply :
      (allow_trade : Bool) (w : World) (rs : List ℕ) (j : String)
      → IsQuiet fl env
      → All (λ e. IsSound e.1) w.trades
      → All (λ e. times e.1.inventory rs ≡ 1) w.agents
      → times a.inventory rs ≡ 1
      → ((tr : Trade) (from : Agent) → IsCounted rs (env.resolve_trade_tax w tr from a now).sink)
      → let after = handle_accept_trade fl env a inst now allow_trade w in
        (after.heap ≡ w.heap) ⊎ Settled w after rs j
  handle_accept_trade-supply allow_trade w rs j q u f t k =
      elim (handle_accept_trade_cases fl env a inst now allow_trade w) [
        | inl kept ↦ inl kept
        | inr s ↦
            let (o, reports, same) =
              settle-supply s.tr s.from w rs j q
                (lookup-All IsSound inst.trade_id w.trades u s.found)
                (lookup-All (λ (g : Agent). times g.inventory rs ≡ 1) s.tr.from w.agents f
                  s.offerer)
                t (k s.tr s.from) in
            inr (
              s.tr,
              s.from,
              o,
              s.found,
              s.offerer,
              subst (Reports w s.tr s.from o) (sym s.settled) reports,
              rw (s.settled) same,
            )
      ]

  settle-lookup :
      (tr : Trade) (from : Agent) (w : World)
      → IsQuiet fl env
      → lookup inst.trade_id (settle fl env a inst now tr from w).trades ≡ none
  settle-lookup tr from w q =
      rw ((settle_maps fl env a inst now tr from w q).1) (simp (lookup-delete, eq_refl))

  -- Where the hook only records, of two requests to accept one trade, one right after the other,
  -- by whomever and whenever, at most one moves items.
  pub handle_accept_trade_once :
      (allow_trade : Bool) (w : World) (b : Agent) (again : TradeReq fl) (later : ℕ)
      → IsQuiet fl env
      → again.trade_id ≡ inst.trade_id
      → let after = handle_accept_trade fl env a inst now allow_trade w in
        (after.heap ≡ w.heap)
        ⊎ ((handle_accept_trade fl env b again later allow_trade after).heap ≡ after.heap)
  handle_accept_trade_once allow_trade w b again later q same =
      elim (handle_accept_trade_cases fl env a inst now allow_trade w) [
        | inl kept ↦ inl kept
        | inr s ↦
            elim (handle_accept_trade_cases fl env b again later allow_trade
              (handle_accept_trade fl env a inst now allow_trade w)) [
                | inl kept ↦ inr kept
                | inr s' ↦
                    let gone = rw (← s.settled) at (settle-lookup s.tr s.from w q) in
                    cc (s'.found, gone, same)
              ]
      ]

  settle_swaps :
      (tr : Trade) (from : Agent) (w : World) (j : String)
      → IsQuiet fl env
      → IsSound tr
      → from.inventory ≢ a.inventory
      → fl.le_f (env.resolve_trade_tax w tr from a now).rate fl.zero_f ≡ true
      → has_items (w.heap from.inventory) tr.offer ≡ true
      → has_items (w.heap a.inventory) tr.request ≡ true
      → cell w.heap from.inventory j + get tr.request j < half
      → cell w.heap a.inventory j + get tr.offer j < half
      → let h = (settle fl env a inst now tr from w).heap in
        (cell h from.inventory j + get tr.offer j ≡ cell w.heap from.inventory j + get tr.request j)
        × (cell h a.inventory j + get tr.request j ≡ cell w.heap a.inventory j + get tr.offer j)
  settle_swaps tr from w j q u n free o r b c =
      let h = apply_transfer w.heap from.inventory a.inventory tr.offer in
      let n' : a.inventory ≢ from.inventory = λ e. n (sym e) in
      let gives =
        apply_transfer_source from.inventory a.inventory j w.heap tr.offer n u.offer_distinct
          (omega arith) in
      let gets =
        apply_transfer_target from.inventory a.inventory j w.heap tr.offer n u.offer_distinct
          (omega arith) in
      let tax = env.resolve_trade_tax w tr from a now in
      rw
        (
          (settle_maps fl env a inst now tr from w q).0,
          untaxed fl a.inventory from.inventory tax.sink j _ tr.request tax.rate free,
          untaxed fl from.inventory a.inventory tax.sink j w.heap tr.offer tax.rate free,
        )
        (omega (
          arith,
          gives,
          gets,
          held w.heap from.inventory tr.offer j u.offer_positive (omega arith) o,
          held w.heap a.inventory tr.request j u.request_positive (omega arith) r,
          apply_transfer_source a.inventory from.inventory j h tr.request n' u.request_distinct
              (rw gets (omega arith)),
          apply_transfer_target a.inventory from.inventory j h tr.request n' u.request_distinct
              (rw gives (omega arith)),
        ))

  -- Where the hook only records, the trade is sound and open, its parties have different
  -- inventories, no tax is due, and the counts stay below 2 ^ 63, accepting the trade swaps its
  -- two sides exactly, or changes no inventory.
  pub handle_accept_trade_swaps :
      (allow_trade : Bool) (w : World) (tr : Trade) (from : Agent) (j : String)
      → IsQuiet fl env
      → lookup inst.trade_id w.trades ≡ some tr
      → lookup tr.from w.agents ≡ some from
      → IsSound tr
      → from.inventory ≢ a.inventory
      → fl.le_f (env.resolve_trade_tax w tr from a now).rate fl.zero_f ≡ true
      → cell w.heap from.inventory j + get tr.request j < half
      → cell w.heap a.inventory j + get tr.offer j < half
      → let h = (handle_accept_trade fl env a inst now allow_trade w).heap in
        (h ≡ w.heap)
        ⊎ ((cell h from.inventory j + get tr.offer j
              ≡ cell w.heap from.inventory j + get tr.request j)
            × (cell h a.inventory j + get tr.request j
                ≡ cell w.heap a.inventory j + get tr.offer j))
  handle_accept_trade_swaps allow_trade w tr from j q found online u n free b c =
      elim (handle_accept_trade_cases fl env a inst now allow_trade w) [
        | inl kept ↦ inl kept
        | inr s ↦
            let t : s.tr ≡ tr = some-injective _ _ (sym s.found ∙ found) in
            let f : s.from ≡ from =
              some-injective _ _
                (sym s.offerer ∙ ap (λ (x : Trade). lookup x.from w.agents) t ∙ online) in
            inr (
              rw (s.settled, t, f)
                (settle_swaps tr from w j q u n free
                  (subst₂ (λ (x : Trade) (g : Agent). has_items (w.heap g.inventory) x.offer ≡ true)
                    t f s.offer_held)
                  (subst (λ (x : Trade). has_items (w.heap a.inventory) x.request ≡ true) t
                    s.request_held)
                  b c))
      ]
