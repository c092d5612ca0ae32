-- ===== src/Economy.antt =====
-- internal/sim/world/feature/economy: inventories, prices and trades.
pub mod Heap
pub mod Floats
pub mod Inventory
pub mod Value
pub mod Trade
