-- ===== src/Tests/Trades.antt =====
-- A trade between two agents on taxed land.
use voxelcraft_ai.Prelude.{
  ℕ, suc, ◌+◌, ◌*◌, ◌^◌, ◌%◌, ◌≤◌, ◌≡◌, refl, true, [], ◌∷◌, none, some, arith, word, Map,
  HasDistinctKeys, get, lookup, insert, delete, ◌⊎◌, ◌↔◌, is_blank,
}
use voxelcraft_ai.Kernel.Agent.{rate_limit_allow, allow}
use voxelcraft_ai.Economy.Floats.{thousandths}
use voxelcraft_ai.Economy.Heap.{Heap, cell}
use voxelcraft_ai.Economy.Heap.Supply.{supply}
use voxelcraft_ai.Economy.Inventory.{
  text, float, has_items, apply_transfer_with_tax, calc_tax, parse_item_pairs,
}
use voxelcraft_ai.Economy.Inventory.Transfer.{supply-apply_transfer_with_tax}
use voxelcraft_ai.Economy.Inventory.Outcome.{apply_transfer_with_tax_source}
use voxelcraft_ai.Economy.Inventory.Parse.{tally, parse_item_pairs_lem, twice}
use voxelcraft_ai.Economy.Value.{trade_mutual_benefit, trade_mutual_benefit_lem}
use voxelcraft_ai.Economy.Trade.State.{World, Trade, put_agent, tell}
use voxelcraft_ai.Economy.Trade.Validation.{validate_offer_trade_input, validate_trade_offer_pairs}
use voxelcraft_ai.Economy.Trade.{
  TradeReq, TradeEnv, handle_accept_trade, handle_decline_trade, handle_offer_trade,
}
use voxelcraft_ai.Economy.Trade.Openings.{
  AllocatesOnly, handle_decline_trade_lem, handle_offer_trade_lem,
}
use voxelcraft_ai.Economy.Trade.Keeps.{IsQuiet}
use voxelcraft_ai.Economy.Trade.Safety.{
  IsSound, Settled, handle_accept_trade-supply, handle_accept_trade_once, handle_accept_trade_swaps,
}
use voxelcraft_ai.Tests.Data.{agent}

-- Address 1 is Ada's inventory, 2 is Bob's, and 3 the treasury of the land's owner.
abbrev purse : Heap
purse r = elim r [
  | suc k ↦ elim k [ suc _ ↦ ("COAL", 9) ∷ [] | _ ↦ ("LOG", 20) ∷ ("COAL", 1) ∷ [] ]
  | _ ↦ []
]

abbrev logs : Map ℕ
logs = ("LOG", 10) ∷ []

abbrev coal : Map ℕ
coal = ("COAL", 4) ∷ []

abbrev deal : Trade
deal = record {
  trade_id = "TR000001";
  from = "A1";
  to = "A2";
  offer = logs;
  request = coal;
  created_tick = 5;
}

abbrev market : World
market = record {
  agents = ("A1", agent "A1" 1) ∷ ("A2", agent "A2" 2) ∷ [];
  trades = ("TR000001", deal) ∷ [];
  heap = purse;
  next_trade_num = 1;
}

-- The land takes this share, in thousandths.
abbrev env : ℕ → TradeEnv thousandths
env rate = record {
  can_trade = λ w id p. true;
  new_trade_id = λ w. ("TR000002", w);
  resolve_trade_tax =
      λ w tr from to now. record { rate = rate; sink = some 3; land_id = "L1"; tax_to = "A3" };
  on_completed = λ w o. w;
}

abbrev accept : TradeReq thousandths
accept = record { id = "I1"; to = ""; trade_id = "TR000001"; offer = []; request = [] }

quiet : (rate : ℕ) → IsQuiet thousandths (env rate)
quiet rate = record { hook_heap = λ w o. refl; hook_trades = λ w o. refl }

deal-IsSound : IsSound deal
unfolding lookup
deal-IsSound = record {
  offer_distinct = (refl, tt);
  offer_positive = omega arith;
  request_distinct = (refl, tt);
  request_positive = omega arith;
}

supply-apply_transfer_with_tax_example :
    (supply (apply_transfer_with_tax thousandths purse 1 2 logs none 250) (1 ∷ 2 ∷ []) "LOG" + 2)
      % word
    ≡ 20
unfolding lookup cell calc_tax get
supply-apply_transfer_with_tax_example =
    supply-apply_transfer_with_tax thousandths 1 2 (1 ∷ 2 ∷ []) "LOG" purse logs none 250
      (omega arith) (omega arith) tt (refl, tt) (omega arith)

apply_transfer_with_tax_source_example :
    cell (apply_transfer_with_tax thousandths purse 1 2 logs (some 3) 250) 1 "LOG" + 10 ≡ 20
unfolding lookup cell has_items get
apply_transfer_with_tax_source_example =
    apply_transfer_with_tax_source thousandths 1 2 (some 3) "LOG" purse logs 250 (omega arith)
      (λ e. cc) (refl, tt) (omega arith) (omega arith) refl

trade_mutual_benefit_lem_example : (trade_mutual_benefit 20 8 ≡ true) ↔ ((20 ≤ 16) × (8 ≤ 40))
trade_mutual_benefit_lem_example =
    trade_mutual_benefit_lem 20 8 (omega arith) (omega arith) (omega arith) (omega arith)

handle_accept_trade-supply_example :
    let after = handle_accept_trade thousandths (env 250) (agent "A2" 2) accept 9 true market in
    (after.heap ≡ purse)
    ⊎ Settled thousandths (env 250) (agent "A2" 2) accept 9 market after (1 ∷ 2 ∷ 3 ∷ []) "LOG"
handle_accept_trade-supply_example =
    handle_accept_trade-supply thousandths (env 250) (agent "A2" 2) accept 9 true market
      (1 ∷ 2 ∷ 3 ∷ []) "LOG" (quiet 250) (deal-IsSound, tt) (omega arith) (omega arith)
      (λ tr from. omega arith)

handle_accept_trade_once_example :
    let after = handle_accept_trade thousandths (env 250) (agent "A2" 2) accept 9 true market in
    (after.heap ≡ purse)
    ⊎ ((handle_accept_trade thousandths (env 250) (agent "A2" 2) accept 9 true after).heap
        ≡ after.heap)
handle_accept_trade_once_example =
    handle_accept_trade_once thousandths (env 250) (agent "A2" 2) accept 9 true market
      (agent "A2" 2) accept 9 (quiet 250) refl

handle_accept_trade_swaps_example :
    let h = (handle_accept_trade thousandths (env 0) (agent "A2" 2) accept 9 true market).heap in
    (h ≡ purse) ⊎ ((cell h 1 "LOG" + 10 ≡ 20) × (cell h 2 "LOG" + 0 ≡ 10))
unfolding lookup cell get
handle_accept_trade_swaps_example =
    handle_accept_trade_swaps thousandths (env 0) (agent "A2" 2) accept 9 true market deal
      (agent "A1" 1) "LOG" (quiet 0) refl refl deal-IsSound (omega arith) refl (omega arith)
      (omega arith)

parse_item_pairs_lem_example :
    HasDistinctKeys {V = ℕ} (("LOG", 7) ∷ [])
    × (get (("LOG", 7) ∷ []) "LOG" % word
        ≡ tally thousandths "LOG" (twice thousandths "LOG" 3000 4000) % word)
unfolding parse_item_pairs get insert lookup
parse_item_pairs_lem_example =
    parse_item_pairs_lem thousandths (twice thousandths "LOG" 3000 4000) "LOG" refl

handle_decline_trade_lem_example :
    let after = handle_decline_trade thousandths (env 0) (agent "A2" 2) accept 9 true market in
    (after.heap ≡ purse)
    × ((after.trades ≡ market.trades)
        ⊎ ((tr : Trade) × (lookup "TR000001" market.trades ≡ some tr)
            × (tr.to ≡ "A2")
            × (after.trades ≡ delete "TR000001" market.trades)))
handle_decline_trade_lem_example =
    handle_decline_trade_lem thousandths (env 0) (agent "A2" 2) accept 9 true market

-- Ada offers logs for coal. An id is taken and counted.
abbrev office : TradeEnv thousandths
office = record (env 0) {
  new_trade_id = λ w. ("TR000002", record w { next_trade_num = suc w.next_trade_num });
}

abbrev offer : TradeReq thousandths
offer = record {
  id = "I2";
  to = "A2";
  trade_id = "";
  offer = (text "LOG" ∷ float 3000 ∷ []) ∷ [];
  request = (text "COAL" ∷ float 2000 ∷ []) ∷ [];
}

allocates : AllocatesOnly thousandths office (agent "A1" 1) offer 9
allocates = record { id_heap = λ w. refl; id_trades = λ w. refl }

handle_offer_trade_lem_example :
    let after = handle_offer_trade thousandths office (agent "A1" 1) offer 9 true 50 3 market in
    (after.heap ≡ purse)
    × ((after.trades ≡ market.trades)
        ⊎ ((tr : Trade) × (tr.from ≡ "A1")
            × (parse_item_pairs thousandths offer.offer ≡ some tr.offer)
            × (parse_item_pairs thousandths offer.request ≡ some tr.request)
            × (after.trades ≡ insert tr.trade_id tr market.trades)))
handle_offer_trade_lem_example =
    handle_offer_trade_lem thousandths office (agent "A1" 1) offer 9 true 50 3 market allocates

-- The offer is stored under the new id.
offer_stored :
    lookup "TR000002"
      (handle_offer_trade thousandths office (agent "A1" 1) offer 9 true 50 3 market).trades
    ≡ some (record {
      trade_id = "TR000002";
      from = "A1";
      to = "A2";
      offer = ("LOG", 3) ∷ [];
      request = ("COAL", 2) ∷ [];
      created_tick = 9;
    })
unfolding handle_offer_trade lookup validate_offer_trade_input is_blank rate_limit_allow allow
    put_agent insert validate_trade_offer_pairs parse_item_pairs tell get
offer_stored = refl

-- 2 ^ 62 and 2 ^ 62 + 5, as thousandths.
abbrev vast : ℕ
vast = 2 ^ 62 * 1000
