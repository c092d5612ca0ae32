-- ===== src/Conveyor.antt =====
-- The belts: internal/sim/world/logic/conveyorpower and feature/conveyor/runtime.
pub mod Power
pub mod Belt
pub mod World
