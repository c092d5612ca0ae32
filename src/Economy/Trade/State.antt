-- ===== src/Economy/Trade/State.antt =====
-- The part of the world's state that the trade handlers change (internal/sim/world/world.go,
-- kernel/model/trade.go).
use voxelcraft_ai.Prelude.{ℕ, ◌≡◌, String, none, some, arith, Map, lookup, insert}
use voxelcraft_ai.Kernel.Event.{Event}
use voxelcraft_ai.Kernel.Agent.{Agent, add_event}
use voxelcraft_ai.Economy.Heap.{Heap}

pub record Trade : Type 0 where
  pub trade_id : String
  pub from : String
  pub to : String
  pub offer : Map ℕ
  pub request : Map ℕ
  pub created_tick : ℕ

pub record World : Type 0 where
  pub agents : Map Agent
  pub trades : Map Trade
  pub heap : Heap
  pub next_trade_num : ℕ

unfoldable pub put_agent : Agent → World → World
put_agent a w = record w { agents = insert a.id a w.agents }

-- a.AddEvent(e), for the agent under the id.
unfoldable pub tell : String → Event → World → World
tell id e w = elim (lookup id w.agents) [
  | none ↦ w
  | some a ↦ record w { agents = insert id (add_event e a) w.agents }
]

-- Messages and windows leave the maps of items and the trades alone.
pub tell_maps :
    (id : String) (e : Event) (w : World)
    → ((tell id e w).heap ≡ w.heap) × ((tell id e w).trades ≡ w.trades)
unfolding tell
tell_maps id e w = ground arith
