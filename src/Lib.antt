-- ===== src/Lib.antt =====
-- The core of VoxelCraft.AI, a world server in Go in which agents mine, trade and contract: its
-- economy, its contracts, its government, its belts and the agents' event logs, under
-- internal/sim/world. The world is one loop that owns all state (runtime_loop.go); a handler runs to
-- its end before the next, so an operation is a function from state to state, and an interleaving is
-- a sequence of calls.
--
-- The parts, and the files that model them:
-- - Kernel: internal/sim/world/kernel/model. Kernel/Agent is agent.go (`AddEvent`, `TakeEvents`,
--   `EventsAfter`, `RateLimitAllow`) with logic/rates/window.go (`Allow`); Kernel/Event has the
--   events and `actionResult` of action_apply.go; Kernel/Vec is vec.go; Kernel/Format is the ids that
--   the world formats, and Kernel/Text what is used of the package strings; Kernel/Sort is what is
--   used of the package sort, and Kernel/Places are sets of positions.
-- - Economy: feature/economy. Economy/Inventory is inventory/inventory.go; Economy/Value is
--   value/value.go; Economy/Trade is instants/trade_handlers.go (`HandleOfferTrade`,
--   `HandleAcceptTrade`, `HandleDeclineTrade`), with the validation of instants/instants.go in
--   Economy/Trade/Validation and the state in Economy/Trade/State. The tax rate, the permissions and
--   the hook after a trade are the interface `TradeEnv`, as in the source.
-- - Contracts: feature/contracts. Contracts/Container is kernel/model/container.go; Contracts/Core is
--   core/core.go (`DecideTick`, `PlanSettlement`); Contracts/Lifecycle is lifecycle/logic.go and
--   reputation/reputation.go; Contracts/Validation and Contracts/Preparation are
--   validation/validation.go; Contracts/Runtime is runtime/runtime.go; Contracts/Handlers and
--   Contracts/Submission are the handlers of instants; Contracts/Tick and Contracts/Reputation are
--   contracts_facade.go (`tickContracts` and the reputations); Contracts/State is the state that they
--   share. Contracts/Escrow has the invariant of the terminals.
-- - Blueprint: logic/blueprint/rotation.go.
-- - ActDedupe: act_dedupe.go, the answers to action batches that are sent again.
-- - Governance: feature/governance. Governance/Laws is laws/laws.go (`CountVotes`) and
--   laws/runtime (`NextTransition`, `TickLaws`), and Governance/Voting is `HandleVoteLaw` of
--   instants/law_handlers.go. Governance/Rules is policy/rules/claims.go (of internal/sim/world)
--   with permissions/permissions.go and maintenance/maintenance.go. Governance/Land is the lands:
--   kernel/model/claims.go, runtime/ownership.go and claims/claims.go, and
--   Governance/Land/Handlers is instants/claim_handlers.go and claims/task_claim.go.
--   Governance/Upkeep is runtime/maintenance.go (`TickClaimsMaintenance`, `PayMaintenance`).
--   Governance/Orgs is the organisations: kernel/model/org.go, orgs/orgs.go and
--   instants/org_handlers.go.
-- - Ground: feature/entities/items, the items that lie in the world (`Spawn`, `Remove`, `Move`,
--   `CleanupExpired`).
-- - Conveyor: Conveyor/Belt is feature/conveyor/runtime (`Run`), a tick of the belts; Conveyor/Power is
--   logic/conveyorpower/logic.go (`Enabled`), whether a belt runs; Conveyor/World is
--   conveyor_facade.go, what the world gives them.
-- - Encoding: internal/sim/encoding/rle.go (`EncodeRLE`, `DecodeRLE`) in Encoding/Rle, with what it
--   uses of encoding/binary in Encoding/Varint and of encoding/base64 in Encoding/Base64.
-- - Prelude: Go's maps, 64-bit numbers and tests. Tests: instances of the theorems.
--
-- How the parts interact: handlers read a request, check it, and change the maps of the world; what
-- they tell is an event in an agent's log. Trades move items between the inventories of agents, and
-- contracts between those and a terminal, whose reserved counts are the escrow; belts move items
-- between the ground and containers, and leave what is reserved. A land belongs to an agent or to an
-- organisation, whose members and leaders have rights on it.
--
-- Conventions:
-- - `int` and `uint64` are the bit patterns below 2 ^ 64, `int` in two's complement, and sums,
--   differences and products wrap. Theorems say which bounds keep them from wrapping.
-- - A Go map is an association list; the source iterates in any order, and the model in the order of
--   the list, which a theorem leaves free. Agents' inventories are shared by reference, so they are
--   addresses in a heap of maps in Economy and Contracts, while Governance, where no two agents share
--   one, reads them by the agent's id; a terminal's inventory belongs to its container alone. Contracts and
--   containers are pointers in the source, and are written back under their keys here.
-- - float64, which the tax and the curfews use, is a parameter: what is proved holds for any rounding.
-- - Fuel: the formatting of an id has 20 digits, which hold every `uint64`; `EncodeRLE` and
--   `DecodeRLE` have a round for each id or byte that is left, since a round reads at least one; the
--   search over wires has a round for each position that it may mark, one more than its cap, since a
--   round takes one from its queue. The other loops are recursions on lists.
--
-- Not modelled: the audit log, statistics and fun scores that handlers also write to; the branches
-- for a missing environment (`env == nil`), since an environment is given; the chunks of blocks,
-- which the belts, lands and contracts read through functions; the proposal and the effects of
-- laws; the other features of the world (work, movement, survival, sessions, the director), the
-- transfer between worlds, terrain, persistence, transports and commands.
mod Prelude
pub mod Kernel
pub mod Economy
pub mod Contracts
mod Tests
pub mod Blueprint
pub mod ActDedupe
pub mod Governance
pub mod Encoding
pub mod Conveyor
pub mod Ground
