-- ===== src/Contracts/Escrow/Handlers.antt =====
-- Posting and accepting a contract keep the terminals backed (feature/contracts/instants).
use voxelcraft_ai.Prelude.{
  ℕ, ◌+◌, ◌<◌, ◌≤◌, ◌≡◌, refl, ◌∙◌, sym, ap, String, true, none, some, arith, half, Map, get,
  lookup, insert, inl, inr, HasDistinctKeys, All, lookup-All,
}
use voxelcraft_ai.Kernel.Vec.{Vec3i, same_pos, same_pos_refl}
use voxelcraft_ai.Kernel.Event.{Event}
use voxelcraft_ai.Kernel.Agent.{Agent}
use voxelcraft_ai.Economy.Heap.{cell}
use voxelcraft_ai.Economy.Inventory.{has_items, stacks_to_map}
use voxelcraft_ai.Economy.Inventory.Transfer.{IsPositive}
use voxelcraft_ai.Economy.Inventory.Outcome.{held}
use voxelcraft_ai.Economy.Inventory.Stacks.{Fits, stacks_to_map_lem}
use voxelcraft_ai.Contracts.Container.{Container}
use voxelcraft_ai.Contracts.Core.{open_state, accepted}
use voxelcraft_ai.Contracts.Lifecycle.Deposits.{Triples, scale_deposit-IsPositive}
use voxelcraft_ai.Contracts.Runtime.{escrow_items}
use voxelcraft_ai.Contracts.Runtime.Places.{escrow_items_pos}
use voxelcraft_ai.Contracts.Runtime.Payouts.{escrow_items-Escrows}
use voxelcraft_ai.Contracts.State.{
  Contract, Site, Keeps, notify-Keeps, notify, put_container, put_contract, new_contract_id,
  get_container_by_id_lem,
}
use voxelcraft_ai.Contracts.Handlers.{
  ContractReq, ContractEnv, terminal, new_contract, post_at, handle_post_contract, accept_at,
  handle_accept_contract,
}
use voxelcraft_ai.Contracts.Handlers.Cases.{
  handle_post_contract_cases, handle_accept_contract_cases,
}
use voxelcraft_ai.Contracts.Escrow.{
  IsBacked, IsPlaced, IsSoundContract, escrow-insert_new, escrow-insert, held_at_here, held_at_away,
  settle-IsBacked,
}

-- Being backed depends on the containers and the contracts only.
pub Keeps-IsBacked :
    (p : Vec3i) (j : String) (w after : Site) → Keeps w after → IsBacked p j w → IsBacked p j after
Keeps-IsBacked p j w after k b c e = rw k.2 (b c (sym (ap (λ f. f p) k.1) ∙ e))

pub notify-IsBacked :
    (p : Vec3i) (j id : String) (e : Event) (w : Site)
    → IsBacked p j w
    → IsBacked p j (notify id e w)
notify-IsBacked p j id e w = Keeps-IsBacked p j w (notify id e w) (notify-Keeps id e w)

module _ (env : ContractEnv) (a : Agent) (inst : ContractReq) (now : ℕ) where
  pub terminal_stands :
      (w : Site) (t : Container)
      → IsPlaced w
      → terminal env a inst now w ≡ some t
      → w.containers t.pos ≡ some t
  terminal_stands w t placed e =
      let (p, found) = get_container_by_id_lem w (env.parse_container_id inst.terminal_id) e in
      ap w.containers (placed p t found) ∙ found

  module _ (p : Vec3i) (j : String) where
    -- The agent's items and the terminal's are, together, fewer than 2 ^ 63.
    abbrev pub HasRoom : Site → Type 0
    HasRoom w =
        (t : Container)
        → terminal env a inst now w ≡ some t
        → cell w.heap a.inventory j + get t.inventory j < half

    post_at-IsBacked :
        (kind : String) (deadline : ℕ) (t : Container) (w : Site)
        → w.containers t.pos ≡ some t
        → IsBacked p j w
        → Fits inst.reward
        → lookup (new_contract_id w).0 w.contracts ≡ none
        → has_items (w.heap a.inventory) (stacks_to_map inst.reward) ≡ true
        → cell w.heap a.inventory j + get t.inventory j < half
        → IsBacked p j (post_at env a inst now kind deadline t w)
    unfolding post_at put_contract put_container new_contract_id new_contract
    post_at-IsBacked kind deadline t w found b fits fresh enough room =
        let reward = stacks_to_map inst.reward in
        let sound = stacks_to_map_lem inst.reward fits in
        let has = held w.heap a.inventory reward j sound.1 (omega (arith, room)) enough in
        let cid = (new_contract_id w).0 in
        let c = new_contract env a inst now cid kind deadline t in
        let s = escrow_items (w.heap, t) a.inventory reward in
        let moved = λ (low : get t.reserved j ≤ get t.inventory j).
          escrow_items-Escrows (w.heap, t) a.inventory reward j sound.0 sound.1 has
            (omega (arith, room)) (omega (arith, room, has)) (omega (arith, room, has, low)) in
        notify-IsBacked p j a.id _ _ (
          settle-IsBacked p j w t s.1 (insert cid c w.contracts) found
            (escrow_items_pos (w.heap, t) a.inventory reward) b
            (λ backs. omega (
              arith,
              moved backs.1,
              backs,
              escrow-insert_new t.pos j cid c w.contracts fresh,
              held_at_here t.pos j c (same_pos_refl t.pos) refl,
            ))
            (λ away. omega (
              arith,
              escrow-insert_new p j cid c w.contracts fresh,
              held_at_away p t.pos j c (same_pos_refl t.pos) away,
            )))

    -- Posting a contract keeps a terminal backed, at any position and for any item, where the
    -- containers are in their places, no contract has the next id, no item of the reward sums to 2
    -- ^ 63, and the items of the agent and the terminal are together fewer than 2 ^ 63.
    pub handle_post_contract-IsBacked :
        (day : ℕ) (w : Site)
        → IsPlaced w
        → IsBacked p j w
        → Fits inst.reward
        → lookup (new_contract_id w).0 w.contracts ≡ none
        → HasRoom w
        → IsBacked p j (handle_post_contract env a inst now day w)
    handle_post_contract-IsBacked day w placed b fits fresh room =
        elim (handle_post_contract_cases env a inst now day w) [
          | inl kept ↦ Keeps-IsBacked p j w (handle_post_contract env a inst now day w) kept b
          | inr done ↦ rw done.posted (
              post_at-IsBacked done.kind done.deadline done.term w
                (terminal_stands w done.term placed done.here) b fits fresh done.enough
                (room done.term done.here))
        ]

    accept_at-IsBacked :
        (deposit : Map ℕ) (c : Contract) (t : Container) (w : Site)
        → w.containers t.pos ≡ some t
        → lookup inst.contract_id w.contracts ≡ some c
        → c.state ≡ open_state
        → same_pos t.pos c.terminal_pos ≡ true
        → IsBacked p j w
        → HasDistinctKeys deposit
        → IsPositive deposit
        → has_items (w.heap a.inventory) deposit ≡ true
        → cell w.heap a.inventory j + get t.inventory j < half
        → IsBacked p j (accept_at env a inst now deposit c t w)
    unfolding accept_at put_container
    accept_at-IsBacked deposit c t w stands found opened its b d pos enough room =
        let has = held w.heap a.inventory deposit j pos (omega (arith, room)) enough in
        let c' : Contract = record c { deposit = deposit; acceptor = a.id; state = accepted } in
        let s = escrow_items (w.heap, t) a.inventory deposit in
        let moved = λ (low : get t.reserved j ≤ get t.inventory j).
          escrow_items-Escrows (w.heap, t) a.inventory deposit j d pos has (omega (arith, room))
            (omega (arith, room, has)) (omega (arith, room, has, low)) in
        let its' : same_pos c.terminal_pos t.pos ≡ true = ground arith in
        notify-IsBacked p j a.id _ _ (
          settle-IsBacked p j w t s.1 (insert inst.contract_id c' w.contracts) stands
            (escrow_items_pos (w.heap, t) a.inventory deposit) b
            (λ backs. omega (
              arith,
              moved backs.1,
              backs,
              escrow-insert t.pos j inst.contract_id c c' w.contracts found,
              held_at_here t.pos j c its' opened,
              held_at_here t.pos j c' its' refl,
            ))
            (λ away. omega (
              arith,
              escrow-insert p j inst.contract_id c c' w.contracts found,
              held_at_away p t.pos j c its away,
              held_at_away p t.pos j c' its away,
            )))

    -- Accepting a contract keeps a terminal backed, at any position and for any item, where the
    -- containers are in their places, the contracts are sound with deposits that can be tripled
    -- below 2 ^ 63, and the items of the agent and the terminal are together fewer than 2 ^ 63.
    pub handle_accept_contract-IsBacked :
        (w : Site)
        → IsPlaced w
        → IsBacked p j w
        → All (λ e. IsSoundContract e.1 × Triples e.1.deposit) w.contracts
        → HasRoom w
        → IsBacked p j (handle_accept_contract env a inst now w)
    handle_accept_contract-IsBacked w placed b sound room =
        elim (handle_accept_contract_cases env a inst now w) [
          | inl kept ↦ Keeps-IsBacked p j w (handle_accept_contract env a inst now w) kept b
          | inr done ↦
              let (good, triples) =
                lookup-All (λ c. IsSoundContract c × Triples c.deposit) inst.contract_id w.contracts
                  sound done.found in
              let deposit =
                scale_deposit-IsPositive done.c.deposit a.rep_trade good.deposit_distinct
                  good.deposit_positive triples in
              rw done.accepts (
                accept_at-IsBacked _ done.c done.term w
                  (terminal_stands w done.term placed done.here) done.found done.is_open
                  done.is_its_terminal b deposit.0 deposit.1 done.enough (room done.term done.here))
        ]
