-- ===== src/Contracts/Runtime/Drains.antt =====
-- What `ApplyTerminalTransfer` of feature/contracts/runtime/runtime.go takes from the terminal.
use voxelcraft_ai.Prelude.{
  ℕ, ◌-◌, ◌<◌, ◌≡◌, refl, ◌∙◌, ap, String, Bool, false, Option, none, some, [], ◌∷◌, arith, str_eq,
  if◌then◌else◌, half, Map, HasDistinctKeys, get, lookup,
}
use voxelcraft_ai.Kernel.Agent.{Agent}
use voxelcraft_ai.Economy.Heap.{Heap}
use voxelcraft_ai.Economy.Inventory.Transfer.{IsPositive}
use voxelcraft_ai.Contracts.Container.{Container}
use voxelcraft_ai.Contracts.Container.Ledger.{positive-le_int, add_owed_kept}
use voxelcraft_ai.Contracts.Runtime.{
  take_stock, freed, receive, transfer_item, transfer_items, apply_terminal_transfer,
}
use voxelcraft_ai.Contracts.Runtime.Payouts.{get-cons}
use voxelcraft_ai.Contracts.Runtime.Transfers.{freed_lem}

receive_kept :
    (found : Option Agent) (to item : String) (n : ℕ) (s : Heap × Container)
    → ((receive found to item n s).1.inventory ≡ s.1.inventory)
      × ((receive found to item n s).1.reserved ≡ s.1.reserved)
unfolding receive
receive_kept none to item n (h, c) = add_owed_kept to item n c
receive_kept (some a) to item n (h, c) = (refl, refl)

module _ (agents : Map Agent) (to : String) (u : Bool) (j : String) where
  abbrev pub Drains : ℕ → Heap × Container → Heap × Container → Type 0
  Drains n s t =
      (get t.1.inventory j ≡ get s.1.inventory j - n)
      × (get t.1.reserved j ≡ get s.1.reserved j - (if u then n else 0))

  transfer_item-Drains :
      (s : Heap × Container) (item : String) (n : ℕ)
      → 0 < n
      → n < half
      → get s.1.inventory j < half
      → get s.1.reserved j < half
      → Drains (if str_eq item j then n else 0) s (transfer_item agents s to u item n)
  unfolding transfer_item
  transfer_item-Drains (h, c) item n p b e f =
      let less = freed_lem u item n c j p b e f in
      let kept =
        receive_kept (lookup to agents) to item n (h, take_stock item n (freed u item n c)) in
      rw (positive-le_int n p b)
        (ap (λ m. get m j) kept.0 ∙ less.0, ap (λ m. get m j) kept.1 ∙ less.1)

  transfer_items-Drains :
      (s : Heap × Container) (items : Map ℕ)
      → HasDistinctKeys items
      → IsPositive items
      → get s.1.inventory j < half
      → get s.1.reserved j < half
      → Drains (get items j) s (transfer_items agents s to u items)
  unfolding transfer_items get lookup
  transfer_items-Drains s [] d p e f = (omega arith, ground arith)
  transfer_items-Drains s ((item, n) ∷ items) d p e f =
      let sum = get-cons item n items j d.0 in
      let step = transfer_item-Drains s item n p.0.0 p.0.1 e f in
      let rest =
        transfer_items-Drains (transfer_item agents s to u item n) items d.1 p.1
          (omega (arith, step)) (omega (arith, step)) in
      (omega (arith, sum, step, rest), ground (arith, sum, step, rest))

  pub apply_terminal_transfer-Drains :
      (s : Heap × Container) (items : Map ℕ)
      → str_eq to "" ≡ false
      → HasDistinctKeys items
      → IsPositive items
      → get s.1.inventory j < half
      → get s.1.reserved j < half
      → Drains (get items j) s (apply_terminal_transfer agents s to u items)
  unfolding apply_terminal_transfer
  apply_terminal_transfer-Drains s items named d p e f =
      rw named (transfer_items-Drains s items d p e f)
