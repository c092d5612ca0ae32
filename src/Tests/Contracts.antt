-- ===== src/Tests/Contracts.antt =====
-- Contracts at a terminal.
use voxelcraft_ai.Prelude.{
  ◌+◌, ◌*◌, ◌<◌, ◌≤◌, ◌≡◌, refl, String, true, false, [], ◌∷◌, ◌⊎◌, ◌↔◌, arith, half, get, lookup,
  HasDistinctKeys, str_eq, sub64,
}
use voxelcraft_ai.Blueprint.{normalize_rotation, rotate_xz}
use voxelcraft_ai.Blueprint.Turns.{normalize_rotation_lem, rotate_xz-rotate_xz}
use voxelcraft_ai.Economy.Heap.{cell}
use voxelcraft_ai.Economy.Inventory.{stacks_to_map}
use voxelcraft_ai.Economy.Inventory.Transfer.{IsPositive}
use voxelcraft_ai.Economy.Inventory.Stacks.{tally_stacks, stacks_to_map_lem}
use voxelcraft_ai.Contracts.Container.{Container}
use voxelcraft_ai.Contracts.Runtime.Transfers.{account, account_of}
use voxelcraft_ai.Contracts.Core.{
  open_state, accepted, TickInput, timeout_accepted, plan_settlement, decide_tick, acceptor,
  is_supply, decide_tick_pays_acceptor,
}
use voxelcraft_ai.Contracts.State.{get_container_by_id}
use voxelcraft_ai.Contracts.Handlers.{handle_post_contract, handle_accept_contract}
use voxelcraft_ai.Contracts.Submission.{handle_submit_contract}
use voxelcraft_ai.Contracts.Tick.{tick_input, tick_contract, tick_contracts}
use voxelcraft_ai.Contracts.Tick.Payees.{PaysOut, tick_contract_pays}
use voxelcraft_ai.Contracts.Escrow.{IsBacked}
use voxelcraft_ai.Contracts.Escrow.Handlers.{
  handle_post_contract-IsBacked, handle_accept_contract-IsBacked,
}
use voxelcraft_ai.Contracts.Escrow.Submission.{handle_submit_contract-IsBacked}
use voxelcraft_ai.Contracts.Escrow.Tick.Loop.{tick_contracts-IsBacked}
use voxelcraft_ai.Tests.Data.{agent, origin}
use voxelcraft_ai.Tests.Terminal.{
  desk, job, purse, site, env, req, site-IsPlaced, accepted-IsBacked, open-IsBacked, quiet_site,
  quiet-IsBacked, has_room, job-IsSound, has_pay_room, logs_fit,
}

handle_post_contract-IsBacked_example :
    IsBacked origin "LOG" (handle_post_contract env (agent "A2" 2) req 9 6000 quiet_site)
unfolding lookup get_container_by_id
handle_post_contract-IsBacked_example =
    handle_post_contract-IsBacked env (agent "A2" 2) req 9 origin "LOG" 6000 quiet_site
      (site-IsPlaced 0 open_state) (quiet-IsBacked origin) logs_fit refl (has_room 0 open_state)

handle_accept_contract-IsBacked_example :
    IsBacked origin "LOG" (handle_accept_contract env (agent "A2" 2) req 9 (site 10 open_state))
handle_accept_contract-IsBacked_example =
    handle_accept_contract-IsBacked env (agent "A2" 2) req 9 origin "LOG" (site 10 open_state)
      (site-IsPlaced 10 open_state) (open-IsBacked origin)
      ((job-IsSound open_state, omega arith), tt) (has_room 10 open_state)

handle_submit_contract-IsBacked_example :
    IsBacked origin "LOG" (handle_submit_contract env (agent "A2" 2) req 9 (site 15 accepted))
handle_submit_contract-IsBacked_example =
    handle_submit_contract-IsBacked env (agent "A2" 2) req 9 origin "LOG" (site 15 accepted)
      (site-IsPlaced 15 accepted) (accepted-IsBacked origin) (job-IsSound accepted, tt) has_pay_room

tick_contracts-IsBacked_example : IsBacked origin "LOG" (tick_contracts env 200 (site 15 accepted))
unfolding lookup
tick_contracts-IsBacked_example =
    tick_contracts-IsBacked env 200 origin "LOG" (site 15 accepted) (refl, tt)
      (job-IsSound accepted, tt) (site-IsPlaced 15 accepted) (accepted-IsBacked origin)

stock_small : get (desk (("LOG", 15) ∷ [])).inventory "LOG" < half
unfolding get lookup
stock_small = omega arith

reserve_small : get (desk (("LOG", 15) ∷ [])).reserved "LOG" < half
unfolding get lookup
reserve_small = omega arith

poster_room :
    account (site 15 accepted).agents "A1" true "LOG" (purse, desk (("LOG", 15) ∷ []))
      + (get (job accepted).reward "LOG" + get (job accepted).deposit "LOG")
    < half
unfolding account_of cell get lookup
poster_room = omega arith

-- At tick 200 the contract is overdue.
tick_contract_pays_example :
    PaysOut env 200
      (site 15 accepted)
      (job accepted)
      (desk (("LOG", 15) ∷ []))
      "LOG"
      (job-IsSound accepted)
      stock_small
      reserve_small
      timeout_accepted
      (tick_contract env 200 "C000001" (job accepted) (site 15 accepted))
unfolding decide_tick tick_input
tick_contract_pays_example =
    tick_contract_pays env 200 (site 15 accepted) (job accepted) (desk (("LOG", 15) ∷ [])) "LOG"
      (job-IsSound accepted) stock_small reserve_small "C000001" timeout_accepted refl refl tt
      poster_room

abbrev overdue : TickInput
overdue = record {
  state = accepted;
  kind = "BUILD";
  now_tick = 9;
  deadline_tick = 9;
  has_terminal = true;
  requirements_ok = false;
  build_placed = true;
  build_stable = true;
}

decide_tick_pays_acceptor_example :
    ((plan_settlement (decide_tick overdue)).reward_to ≡ acceptor) ↔ (
      (accepted ≡ accepted)
      × (true ≡ true)
      × (9 ≤ 9)
      × (((is_supply "BUILD" ≡ true) × (false ≡ true))
          ⊎ ((is_supply "BUILD" ≡ false)
              × (str_eq "BUILD" "BUILD" ≡ true)
              × (true ≡ true)
              × (true ≡ true))))
decide_tick_pays_acceptor_example = decide_tick_pays_acceptor overdue

stacks_to_map_lem_example :
    HasDistinctKeys (stacks_to_map (("LOG", 7) ∷ []))
    × IsPositive (stacks_to_map (("LOG", 7) ∷ []))
    × ((j : String) → get (stacks_to_map (("LOG", 7) ∷ [])) j ≡ tally_stacks j (("LOG", 7) ∷ []))
stacks_to_map_lem_example = stacks_to_map_lem (("LOG", 7) ∷ []) logs_fit

normalize_rotation_lem_example :
    (normalize_rotation 3 ≡ 3)
    × (normalize_rotation (90 * 3) ≡ 3)
    × (normalize_rotation (sub64 0 (90 * 3)) ≡ 1)
normalize_rotation_lem_example = normalize_rotation_lem 3 (omega arith)

rotate_xz-rotate_xz_example : let r = rotate_xz 5 7 3 in rotate_xz r.0 r.1 2 ≡ rotate_xz 5 7 1
rotate_xz-rotate_xz_example = rotate_xz-rotate_xz 5 7 3 2 (omega arith) (omega arith)
