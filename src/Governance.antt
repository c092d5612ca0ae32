-- ===== src/Governance.antt =====
-- internal/sim/world/feature/governance: how the members of a land make laws for it.
pub mod Rules
pub mod Land
pub mod Orgs
pub mod Laws
pub mod Voting
pub mod Upkeep
