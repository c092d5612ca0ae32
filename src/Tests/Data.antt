-- ===== src/Tests/Data.antt =====
-- The agents and events of the tests.
use voxelcraft_ai.Prelude.{ℕ, String, true, [], ◌∷◌}
use voxelcraft_ai.Kernel.Vec.{Vec3i}
use voxelcraft_ai.Kernel.Event.{Event, action_result}
use voxelcraft_ai.Kernel.Agent.{Agent, EventLogEntry}

abbrev pub origin : Vec3i
origin = record { x = 0; y = 0; z = 0 }

abbrev pub note : Event
note = action_result 7 "I1" true "" "ok"

abbrev pub entry : ℕ → EventLogEntry
entry c = record { cursor = c; event = note }

-- An agent with the inventory at the address, whose log has lost its first two events.
abbrev pub agent : String → ℕ → Agent
agent id inventory = record {
  id = id;
  pos = origin;
  rep_trade = 500;
  rep_build = 500;
  rep_social = 500;
  rep_law = 500;
  inventory = inventory;
  events = note ∷ [];
  event_cursor = 5;
  event_log = entry 3 ∷ entry 4 ∷ entry 5 ∷ [];
  rl = ("SAY", record { start_tick = 10; count = 1; window = 50; max = 3 }) ∷ [];
}
