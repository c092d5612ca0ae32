-- ===== src/Contracts/Runtime/Transfers.antt =====
-- What `ApplyTerminalTransfer` of feature/contracts/runtime/runtime.go does to the counts of one
-- item, at the terminal and for the agent.
use voxelcraft_ai.Prelude.{
  ℕ, ◌+◌, ◌-◌, ◌<◌, ◌≡◌, refl, ◌∙◌, String, Bool, true, false, Option, none, some, [], ◌∷◌, arith,
  str_eq, if◌then◌else◌, half, Map, HasDistinctKeys, get, lookup,
}
use voxelcraft_ai.Kernel.Agent.{Agent}
use voxelcraft_ai.Economy.Heap.{Heap, cell}
use voxelcraft_ai.Economy.Inventory.Transfer.{IsPositive}
use voxelcraft_ai.Economy.Inventory.Outcome.{cell-bump}
use voxelcraft_ai.Contracts.Container.{Container, owed_to}
use voxelcraft_ai.Contracts.Container.Ledger.{
  positive-le_int, get-take_item, unreserve_lem, add_owed_lem,
}
use voxelcraft_ai.Contracts.Runtime.{
  take_stock, freed, receive, transfer_item, transfer_items, apply_terminal_transfer,
}
use voxelcraft_ai.Contracts.Runtime.Payouts.{get-cons}

-- What an agent holds or, while it is not in the world, is owed at the terminal.
unfoldable pub account_of : Option Agent → String → String → Heap × Container → ℕ
account_of none to j s = owed_to s.1 to j
account_of (some a) to j s = cell s.0 a.inventory j

receive_lem :
    (found : Option Agent) (to item : String) (n : ℕ) (j : String) (s : Heap × Container)
    → 0 < n
    → n < half
    → account_of found to j s < half
    → (account_of found to j (receive found to item n s)
        ≡ account_of found to j s + (if str_eq item j then n else 0))
      × ((receive found to item n s).1.inventory ≡ s.1.inventory)
      × ((receive found to item n s).1.reserved ≡ s.1.reserved)
      × ((receive found to item n s).1.pos ≡ s.1.pos)
unfolding receive account_of
receive_lem none to item n j (h, c) p b g = add_owed_lem item n c j p b to (omega arith)
receive_lem (some a) to item n j (h, c) p b g =
    (ground (arith, cell-bump h a.inventory item n a.inventory j), refl, refl, refl)

pub freed_lem :
    (u : Bool) (item : String) (n : ℕ) (c : Container) (j : String)
    → 0 < n
    → n < half
    → get c.inventory j < half
    → get c.reserved j < half
    → let d = take_stock item n (freed u item n c) in
      let m = if str_eq item j then n else 0 in
      (get d.inventory j ≡ get c.inventory j - m)
      × (get d.reserved j ≡ get c.reserved j - (if u then m else 0))
      × (d.owed ≡ c.owed)
      × (d.pos ≡ c.pos)
freed_lem true item n c j p b e f =
    let less = unreserve_lem item n c j p b f in
    (rw less.1 (get-take_item item n c.inventory j b e), less.0, less.2, less.3)
freed_lem false item n c j p b e f =
    (get-take_item item n c.inventory j b e, omega arith, refl, refl)

-- An agent's account depends on the heap and what is owed only.
account_of_owed :
    (found : Option Agent) (to j : String) (h : Heap) (c d : Container)
    → d.owed ≡ c.owed
    → account_of found to j (h, d) ≡ account_of found to j (h, c)
unfolding account_of
account_of_owed none to j h c d e = rw e refl
account_of_owed (some a) to j h c d e = refl

module _ (agents : Map Agent) (to : String) (u : Bool) (j : String) where
  abbrev pub account : Heap × Container → ℕ
  account s = account_of (lookup to agents) to j s

  abbrev pub Transfers : ℕ → Heap × Container → Heap × Container → Type 0
  Transfers n s t =
      (get t.1.inventory j ≡ get s.1.inventory j - n)
      × (get t.1.reserved j ≡ get s.1.reserved j - (if u then n else 0))
      × (account t ≡ account s + n)
      × (t.1.pos ≡ s.1.pos)

  transfer_item-Transfers :
      (s : Heap × Container) (item : String) (n : ℕ)
      → 0 < n
      → n < half
      → get s.1.inventory j < half
      → get s.1.reserved j < half
      → account s < half
      → Transfers (if str_eq item j then n else 0) s (transfer_item agents s to u item n)
  unfolding transfer_item
  transfer_item-Transfers (h, c) item n p b e f g =
      let d = take_stock item n (freed u item n c) in
      let less = freed_lem u item n c j p b e f in
      let kept = account_of_owed (lookup to agents) to j h c d less.2 in
      let got = receive_lem (lookup to agents) to item n j (h, d) p b (omega (arith, kept, g)) in
      rw (positive-le_int n p b)
        (rw got.1 less.0, rw got.2 less.1, omega (arith, got.0, kept), got.3 ∙ less.3)

  transfer_items-Transfers :
      (s : Heap × Container) (items : Map ℕ)
      → HasDistinctKeys items
      → IsPositive items
      → get s.1.inventory j < half
      → get s.1.reserved j < half
      → account s + get items j < half
      → Transfers (get items j) s (transfer_items agents s to u items)
  unfolding transfer_items get lookup
  transfer_items-Transfers s [] d p e f g = (omega arith, ground arith, omega arith, refl)
  transfer_items-Transfers s ((item, n) ∷ items) d p e f g =
      let sum = get-cons item n items j d.0 in
      let step = transfer_item-Transfers s item n p.0.0 p.0.1 e f (omega (arith, g)) in
      let rest =
        transfer_items-Transfers (transfer_item agents s to u item n) items d.1 p.1
          (omega (arith, step)) (omega (arith, step)) (omega (arith, step, sum)) in
      (
        omega (arith, sum, step, rest),
        ground (arith, sum, step, rest),
        omega (arith, sum, step, rest),
        rest.3 ∙ step.3,
      )

  pub apply_terminal_transfer-Transfers :
      (s : Heap × Container) (items : Map ℕ)
      → str_eq to "" ≡ false
      → HasDistinctKeys items
      → IsPositive items
      → get s.1.inventory j < half
      → get s.1.reserved j < half
      → account s + get items j < half
      → Transfers (get items j) s (apply_terminal_transfer agents s to u items)
  unfolding apply_terminal_transfer
  apply_terminal_transfer-Transfers s items named d p e f g =
      rw named (transfer_items-Transfers s items d p e f g)
