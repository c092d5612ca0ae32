-- ===== src/Contracts/Runtime/Places.antt =====
-- The transfers of feature/contracts/runtime/runtime.go leave a terminal where it is.
use voxelcraft_ai.Prelude.{
  ℕ, ◌≡◌, refl, ◌∙◌, String, Bool, Option, none, some, [], ◌∷◌, arith, Map, lookup,
}
use voxelcraft_ai.Kernel.Agent.{Agent}
use voxelcraft_ai.Economy.Heap.{Heap}
use voxelcraft_ai.Contracts.Container.{Container}
use voxelcraft_ai.Contracts.Container.Ledger.{reserve_pos, unreserve_pos, add_owed_pos}
use voxelcraft_ai.Contracts.Runtime.{
  take_stock, freed, escrow_item, escrow_items, consume_item, consume_requirements_to_poster,
  payout_item, payout_items, receive, transfer_item, transfer_items, apply_terminal_transfer,
}

pub escrow_items_pos :
    (s : Heap × Container) (from : ℕ) (items : Map ℕ) → (escrow_items s from items).1.pos ≡ s.1.pos
unfolding escrow_items escrow_item
escrow_items_pos s from [] = refl
escrow_items_pos s from ((item, n) ∷ items) =
    escrow_items_pos (escrow_item s from item n) from items ∙ reserve_pos item n _

consume_item_pos :
    (c : Container) (to item : String) (n : ℕ) → (consume_item c to item n).pos ≡ c.pos
unfolding consume_item
consume_item_pos c to item n = ground (arith, add_owed_pos to item n (take_stock item n c))

pub consume_requirements_pos :
    (c : Container) (to : String) (items : Map ℕ)
    → (consume_requirements_to_poster c to items).pos ≡ c.pos
unfolding consume_requirements_to_poster
consume_requirements_pos c to [] = refl
consume_requirements_pos c to ((item, n) ∷ items) =
    consume_requirements_pos (consume_item c to item n) to items ∙ consume_item_pos c to item n

payout_item_pos :
    (s : Heap × Container) (to : ℕ) (item : String) (n : ℕ)
    → (payout_item s to item n).1.pos ≡ s.1.pos
unfolding payout_item
payout_item_pos (h, c) to item n = ground (arith, unreserve_pos item n c)

pub payout_items_pos :
    (s : Heap × Container) (to : ℕ) (items : Map ℕ) → (payout_items s to items).1.pos ≡ s.1.pos
unfolding payout_items
payout_items_pos s to [] = refl
payout_items_pos s to ((item, n) ∷ items) =
    payout_items_pos (payout_item s to item n) to items ∙ payout_item_pos s to item n

receive_pos :
    (found : Option Agent) (to item : String) (n : ℕ) (s : Heap × Container)
    → (receive found to item n s).1.pos ≡ s.1.pos
unfolding receive
receive_pos none to item n (h, c) = add_owed_pos to item n c
receive_pos (some a) to item n (h, c) = refl

module _ (agents : Map Agent) (to : String) (u : Bool) where
  transfer_item_pos :
      (s : Heap × Container) (item : String) (n : ℕ)
      → (transfer_item agents s to u item n).1.pos ≡ s.1.pos
  unfolding transfer_item
  transfer_item_pos (h, c) item n = ground (
    arith,
    receive_pos (lookup to agents) to item n (h, take_stock item n (freed u item n c)),
    unreserve_pos item n c,
  )

  transfer_items_pos :
      (s : Heap × Container) (items : Map ℕ) → (transfer_items agents s to u items).1.pos ≡ s.1.pos
  unfolding transfer_items
  transfer_items_pos s [] = refl
  transfer_items_pos s ((item, n) ∷ items) =
      transfer_items_pos (transfer_item agents s to u item n) items ∙ transfer_item_pos s item n

  pub apply_terminal_transfer_pos :
      (s : Heap × Container) (items : Map ℕ)
      → (apply_terminal_transfer agents s to u items).1.pos ≡ s.1.pos
  unfolding apply_terminal_transfer
  apply_terminal_transfer_pos s items = ground (arith, transfer_items_pos s items)
