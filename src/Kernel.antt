-- ===== src/Kernel.antt =====
-- internal/sim/world/kernel/model: positions and sets of them, events and agents.
pub mod Vec
pub mod Places
pub mod Event
pub mod Format
pub mod Text
pub mod Sort
pub mod Agent
