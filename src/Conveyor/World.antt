-- ===== src/Conveyor/World.antt =====
-- internal/sim/world/conveyor_facade.go and feature/conveyor/runtime/sensor.go: what the world gives
-- the belts. Blocks and switches do not change during a tick of the belts; the sensors read the
-- entities and the containers as they are at the moment.
use voxelcraft_ai.Prelude.{
  ℕ, ◌+◌, ◌<◌, ◌≡◌, refl, String, Bool, false, ◌||◌, Option, none, some, List, [], ◌∷◌, word, add64,
  lt_int, str_eq, if◌then◌else◌, Map, length,
}
use voxelcraft_ai.Kernel.Vec.{Vec3i}
use voxelcraft_ai.Kernel.Places.{minus_one, Distinct}
use voxelcraft_ai.Contracts.Container.{Container, available_count}
use voxelcraft_ai.Conveyor.Power.{Env, is_on, enabled}
use voxelcraft_ai.Conveyor.Belt.{Belt, Line, Conveyors, has_live_item, run}
use voxelcraft_ai.Conveyor.Belt.Holdings.{IsSound, holdings}
use voxelcraft_ai.Conveyor.Belt.Tick.{run-Keeps}

-- The blocks by position with their names and kinds, the switches and the belts.
pub record Blocks : Type 0 where
  pub block_at : Vec3i → ℕ
  pub block_name : ℕ → String
  pub block_solid : ℕ → Bool
  pub conveyor_id : Option ℕ  -- Blocks.Index["CONVEYOR"]
  pub switches : Vec3i → Bool
  pub conveyors : Conveyors

-- SensorNeighborOffsets, added to the position: itself and the six cells that touch it.
unfoldable pub sensor_cells : Vec3i → List Vec3i
sensor_cells p =
    p
    ∷ record p { x = add64 p.x 1 }
    ∷ record p { x = add64 p.x minus_one }
    ∷ record p { y = add64 p.y 1 }
    ∷ record p { y = add64 p.y minus_one }
    ∷ record p { z = add64 p.z 1 }
    ∷ record p { z = add64 p.z minus_one }
    ∷ []

unfoldable pub any_available : Container → Map ℕ → Bool
any_available c [] = false
any_available c ((item, n) ∷ m) = lt_int 0 (available_count c item) || any_available c m

unfoldable pub container_has_available : Option Container → Bool
unfolding any_available
container_has_available none = false
container_has_available (some c) = any_available c c.inventory

unfoldable pub any_signal : Belt → List Vec3i → Bool
unfolding container_has_available
any_signal b [] = false
any_signal b (p ∷ ps) =
    has_live_item (b.ground.items_at p) b.ground.items
    || container_has_available (b.containers p)
    || any_signal b ps

unfoldable pub sensor_on : Blocks → Belt → Vec3i → Bool
unfolding any_signal sensor_cells
sensor_on w b p =
    if str_eq (w.block_name (w.block_at p)) "SENSOR" then any_signal b (sensor_cells p) else false

-- conveyorEnvAdapter
unfoldable pub conveyor_env : Blocks → Belt → Env
unfolding sensor_on
conveyor_env w b = record {
  block_name = λ p. w.block_name (w.block_at p);
  switch_on = w.switches;
  sensor_on = sensor_on w b;
}

unfoldable pub conveyor_enabled : Blocks → Belt → Vec3i → Bool
unfolding conveyor_env
conveyor_enabled w b p = is_on (enabled (conveyor_env w b) p 1024)

unfoldable pub conveyor_line : Blocks → ℕ → Line
unfolding conveyor_enabled
conveyor_line w id = record {
  conveyor_id = id;
  conveyors = w.conveyors;
  conveyor_enabled = conveyor_enabled w;
  block_at = w.block_at;
  block_solid = w.block_solid;
  block_name = w.block_name;
}

unfoldable pub run_conveyors : ℕ → Blocks → Option ℕ → Belt → Belt
unfolding conveyor_line
run_conveyors now w none b = b
run_conveyors now w (some id) b = run now (conveyor_line w id) b

unfoldable pub system_conveyors : ℕ → Blocks → Belt → Belt
unfolding run_conveyors
system_conveyors now w b = run_conveyors now w w.conveyor_id b

run_conveyors-Keeps :
    (now : ℕ) (w : Blocks) (id : Option ℕ) (j : String) (ps : List Vec3i) (b : Belt)
    → Distinct ps
    → IsSound j ps b
    → b.ground.next_item_num + length w.conveyors < word
    → IsSound j ps (run_conveyors now w id b)
      × (holdings j ps (run_conveyors now w id b) ≡ holdings j ps b)
unfolding run_conveyors
run_conveyors-Keeps now w none j ps b d s room = (s, refl)
run_conveyors-Keeps now w (some id) j ps b d s room =
    run-Keeps now (conveyor_line w id) j ps b d s (with_line w id b room)
  where
    with_line :
        (w : Blocks) (id : ℕ) (b : Belt)
        → b.ground.next_item_num + length w.conveyors < word
        → b.ground.next_item_num + length (conveyor_line w id).conveyors < word
    with_line w id b r = r

-- Where the ground is indexed, no key stands twice, the containers are at the distinct positions
-- listed, there are fewer than 2 ^ 63 of an item in all, each container has what it reserves of
-- it, and ids of entities do not overflow, a tick of the belts keeps all that, and keeps the
-- number of the item over the ground and the containers.
pub system_conveyors-Keeps :
    (now : ℕ) (w : Blocks) (j : String) (ps : List Vec3i) (b : Belt)
    → Distinct ps
    → IsSound j ps b
    → b.ground.next_item_num + length w.conveyors < word
    → IsSound j ps (system_conveyors now w b)
      × (holdings j ps (system_conveyors now w b) ≡ holdings j ps b)
unfolding system_conveyors
system_conveyors-Keeps now w j ps b d s room =
    run_conveyors-Keeps now w w.conveyor_id j ps b d s room
