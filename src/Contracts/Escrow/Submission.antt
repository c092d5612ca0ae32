-- ===== src/Contracts/Escrow/Submission.antt =====
-- Submitting a contract keeps the terminals backed (feature/contracts/instants/lifecycle_handlers.go).
use voxelcraft_ai.Prelude.{
  ℕ, ◌+◌, ◌<◌, ◌≡◌, refl, ◌∙◌, String, true, some, arith, str_eq, if◌then◌else◌, half, get, lookup,
  insert, inl, inr, All, lookup-All, Bool-cases,
}
use voxelcraft_ai.Kernel.Vec.{Vec3i, same_pos}
use voxelcraft_ai.Kernel.Agent.{Agent}
use voxelcraft_ai.Economy.Heap.{Heap, cell}
use voxelcraft_ai.Contracts.Container.{Container, available_count, owed_to}
use voxelcraft_ai.Contracts.Core.{accepted, completed}
use voxelcraft_ai.Contracts.Lifecycle.{has_available, needs_requirements_consumption}
use voxelcraft_ai.Contracts.Runtime.{consume_requirements_to_poster}
use voxelcraft_ai.Contracts.Runtime.Places.{consume_requirements_pos, payout_items_pos}
use voxelcraft_ai.Contracts.State.{Contract, Site, Keeps, put_container}
use voxelcraft_ai.Contracts.Reputation.{add_trade_credit-Keeps, add_build_credit-Keeps}
use voxelcraft_ai.Contracts.Handlers.{ContractReq, ContractEnv, terminal}
use voxelcraft_ai.Contracts.Submission.{credit, settle_at, submit_at, handle_submit_contract}
use voxelcraft_ai.Contracts.Submission.Settlement.{
  Submits, handle_submit_contract_cases, goods_of, stake_of, goods-le, settle_at_lem,
}
use voxelcraft_ai.Contracts.Escrow.{
  Backs, IsBacked, IsPlaced, IsSoundContract, escrow-insert, held_at-le, held_at_here, held_at_away,
  settle-IsBacked,
}
use voxelcraft_ai.Contracts.Escrow.Handlers.{Keeps-IsBacked, notify-IsBacked, terminal_stands}

module _ (env : ContractEnv) (a : Agent) (inst : ContractReq) (now : ℕ) where
  pub credit-Keeps : (c : Contract) (w : Site) → Keeps w (credit env a inst now c w)
  credit-Keeps c w = elim (Bool-cases (needs_requirements_consumption c.kind)) [
    | inl supplied ↦ rw supplied (add_trade_credit-Keeps a.id w)
    | inr other ↦ rw other (elim (Bool-cases (str_eq c.kind "BUILD")) [
      | inl built ↦ rw built (add_build_credit-Keeps a.id w)
      | inr neither ↦ rw neither (refl, refl, refl)
    ])
  ]

  pub settle_at_pos :
      (c : Contract) (t : Container) (h : Heap) → (settle_at env a inst now c t h).1.pos ≡ t.pos
  unfolding settle_at
  settle_at_pos c t h =
      payout_items_pos _ a.inventory c.deposit ∙ payout_items_pos _ a.inventory c.reward ∙ taken
    where
      taken :
          (if needs_requirements_consumption c.kind
            then consume_requirements_to_poster t c.poster c.requirements
            else t).pos
          ≡ t.pos
      taken = elim (Bool-cases (needs_requirements_consumption c.kind)) [
        | inl need ↦ rw need (consume_requirements_pos t c.poster c.requirements)
        | inr none_due ↦ rw none_due refl
      ]

  -- The agent's inventory and the poster's account have room for what the contract pays.
  abbrev pub HasPayRoom : String → Site → Type 0
  HasPayRoom j w =
      (c : Contract) (t : Container)
      → lookup inst.contract_id w.contracts ≡ some c
      → terminal env a inst now w ≡ some t
      → (cell w.heap a.inventory j + stake_of c j < half)
        × (owed_to t c.poster j + get c.requirements j < half)

  module _ (p : Vec3i) (j : String) where
    -- The facts of a settlement that `settle_at_lem` asks for.
    pub settled :
        (c : Contract) (t : Container) (w : Site)
        → lookup inst.contract_id w.contracts ≡ some c
        → c.state ≡ accepted
        → same_pos c.terminal_pos t.pos ≡ true
        → (needs_requirements_consumption c.kind ≡ true
            → has_available c.requirements (available_count t) ≡ true)
        → IsSoundContract c
        → Backs t.pos j w.contracts t
        → (cell w.heap a.inventory j + stake_of c j < half)
          × (owed_to t c.poster j + get c.requirements j < half)
        → let s = settle_at env a inst now c t w.heap in
          (cell s.0 a.inventory j ≡ cell w.heap a.inventory j + stake_of c j)
          × (get s.1.inventory j + (goods_of c j + stake_of c j) ≡ get t.inventory j)
          × (get s.1.reserved j + stake_of c j ≡ get t.reserved j)
          × (owed_to s.1 c.poster j ≡ owed_to t c.poster j + goods_of c j)
    settled c t w found state its goods sound backs room =
        settle_at_lem c t j sound env a inst now w.heap goods backs.1 backs.2
          (omega (
            arith,
            backs.0,
            held_at-le t.pos j inst.contract_id c w.contracts found,
            held_at_here t.pos j c its state,
          ))
          room.0 room.1

    submit_at-IsBacked :
        (w : Site) {after : Site} (s : Submits env a inst now w after)
        → w.containers s.term.pos ≡ some s.term
        → IsBacked p j w
        → IsSoundContract s.c
        → (cell w.heap a.inventory j + stake_of s.c j < half)
          × (owed_to s.term s.c.poster j + get s.c.requirements j < half)
        → IsBacked p j (submit_at env a inst now s.c s.term w)
    unfolding submit_at put_container
    submit_at-IsBacked w done stands b sound room =
        let c = done.c in
        let t = done.term in
        let c' : Contract = record c { state = completed } in
        let s = settle_at env a inst now c t w.heap in
        let its : same_pos c.terminal_pos t.pos ≡ true = ground (arith, done.is_its_terminal) in
        let m = insert inst.contract_id c' w.contracts in
        let before : Site = record w {
          heap = s.0;
          containers = (put_container s.1 w).containers;
          contracts = m;
        } in
        notify-IsBacked p j a.id _ (credit env a inst now c before) (
          Keeps-IsBacked p j before (credit env a inst now c before) (credit-Keeps c before) (
            settle-IsBacked p j w t s.1 m stands (settle_at_pos c t w.heap) b
              (λ backs. omega (
                arith,
                backs,
                settled c t w done.found done.is_accepted its done.goods_there sound backs room,
                goods-le c t j sound done.goods_there backs.1 backs.2,
                escrow-insert t.pos j inst.contract_id c c' w.contracts done.found,
                held_at_here t.pos j c its done.is_accepted,
                held_at_here t.pos j c' its refl,
              ))
              (λ away. omega (
                arith,
                escrow-insert p j inst.contract_id c c' w.contracts done.found,
                held_at_away p t.pos j c done.is_its_terminal away,
                held_at_away p t.pos j c' done.is_its_terminal away,
              ))))

    -- Submitting a contract keeps a terminal backed, at any position and for any item, where the
    -- containers are in their places, the contracts are sound, and what is paid and owed stays
    -- below 2 ^ 63.
    pub handle_submit_contract-IsBacked :
        (w : Site)
        → IsPlaced w
        → IsBacked p j w
        → All (λ e. IsSoundContract e.1) w.contracts
        → HasPayRoom j w
        → IsBacked p j (handle_submit_contract env a inst now w)
    handle_submit_contract-IsBacked w placed b sound room =
        elim (handle_submit_contract_cases env a inst now w) [
          | inl kept ↦ Keeps-IsBacked p j w (handle_submit_contract env a inst now w) kept b
          | inr done ↦ rw done.submits (
              submit_at-IsBacked w done
                (terminal_stands env a inst now w done.term placed done.here) b
                (lookup-All IsSoundContract inst.contract_id w.contracts sound done.found)
                (room done.c done.term done.found done.here))
        ]
