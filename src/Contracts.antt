-- ===== src/Contracts.antt =====
-- internal/sim/world/feature/contracts: contracts between agents, whose rewards and deposits are
-- held in escrow by a terminal.
pub mod Container
pub mod Core
pub mod Lifecycle
pub mod Validation
pub mod Preparation
pub mod Runtime
pub mod State
pub mod Reputation
pub mod Handlers
pub mod Submission
pub mod Tick
pub mod Escrow
