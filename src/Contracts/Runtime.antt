-- ===== src/Contracts/Runtime.antt =====
-- internal/sim/world/feature/contracts/runtime/runtime.go, with the callbacks that its callers
-- pass: they reserve and owe at the same terminal, and add to the inventory of an agent.
pub mod Places
pub mod Payouts
pub mod Drains
pub mod Transfers
use voxelcraft_ai.Prelude.{
  ℕ, String, Bool, true, false, ◌||◌, Option, none, some, List, [], ◌∷◌, ◌==◌, str_eq,
  if◌then◌else◌, le_int, Map, lookup,
}
use voxelcraft_ai.Kernel.Agent.{Agent}
use voxelcraft_ai.Economy.Heap.{Heap, bump, drain}
use voxelcraft_ai.Contracts.Container.{Container, add_item, take_item, reserve, unreserve, add_owed}
use voxelcraft_ai.Contracts.Core.{PayoutTarget, nobody, poster, acceptor}

-- PayoutAgent
unfoldable pub payout_agent : String → String → PayoutTarget → String
payout_agent p a nobody = ""
payout_agent p a poster = p
payout_agent p a acceptor = a

-- terminalInventory[item] -= n; if terminalInventory[item] <= 0 { delete(terminalInventory, item) }
abbrev pub take_stock : String → ℕ → Container → Container
take_stock item n c = record c { inventory = take_item item n c.inventory }

-- One round of the loop by which the handlers put an agent's items into escrow.
pub escrow_item : Heap × Container → ℕ → String → ℕ → Heap × Container
escrow_item (h, c) from item n =
    (drain h from item n, reserve item n (record c { inventory = add_item item n c.inventory }))

pub escrow_items : Heap × Container → ℕ → Map ℕ → Heap × Container
escrow_items s from [] = s
escrow_items s from ((item, n) ∷ items) = escrow_items (escrow_item s from item n) from items

pub consume_item : Container → String → String → ℕ → Container
consume_item c poster_id item n =
    if le_int n 0 then c else add_owed poster_id item n (take_stock item n c)

-- ConsumeRequirementsToPoster, where the poster is owed the items at the terminal.
pub consume_requirements_to_poster : Container → String → Map ℕ → Container
consume_requirements_to_poster c poster_id [] = c
consume_requirements_to_poster c poster_id ((item, n) ∷ items) =
    consume_requirements_to_poster (consume_item c poster_id item n) poster_id items

-- One round of `PayoutItems`.
pub payout_item : Heap × Container → ℕ → String → ℕ → Heap × Container
payout_item (h, c) to item n =
    if le_int n 0 then (h, c) else (bump h to item n, take_stock item n (unreserve item n c))

-- PayoutItems, to the inventory of an agent.
pub payout_items : Heap × Container → ℕ → Map ℕ → Heap × Container
payout_items s to [] = s
payout_items s to ((item, n) ∷ items) = payout_items (payout_item s to item n) to items

-- addAgentItem, and addOwedItem for an agent that is not in the world.
pub receive : Option Agent → String → String → ℕ → Heap × Container → Heap × Container
receive none to item n (h, c) = (h, add_owed to item n c)
receive (some a) to item n (h, c) = (bump h a.inventory item n, c)

abbrev pub freed : Bool → String → ℕ → Container → Container
freed unreserved item n c = if unreserved then unreserve item n c else c

-- One round of `ApplyTerminalTransfer`.
pub transfer_item : Map Agent → Heap × Container → String → Bool → String → ℕ → Heap × Container
unfolding receive
transfer_item agents (h, c) to unreserved item n =
    if le_int n 0
    then (h, c)
    else receive (lookup to agents) to item n (h, take_stock item n (freed unreserved item n c))

pub transfer_items : Map Agent → Heap × Container → String → Bool → Map ℕ → Heap × Container
transfer_items agents s to unreserved [] = s
transfer_items agents s to unreserved ((item, n) ∷ items) =
    transfer_items agents (transfer_item agents s to unreserved item n) to unreserved items

-- ApplyTerminalTransfer; a terminal's inventory is not nil.
unfoldable pub apply_terminal_transfer :
    Map Agent → Heap × Container → String → Bool → Map ℕ → Heap × Container
apply_terminal_transfer agents s to unreserved items =
    if str_eq to "" then s else transfer_items agents s to unreserved items
