-- ===== src/Kernel/Agent.antt =====
-- internal/sim/world/kernel/model/agent.go and logic/rates/window.go: the event log that clients
-- page through, and the rate limits. An agent's `Inventory` is a Go map, shared by reference: the
-- record holds its address in a heap of maps (voxelcraft_ai.Economy.Heap).
pub mod EventLog
pub mod RateLimit
use voxelcraft_ai.Prelude.{
  ℕ, suc, ◌+◌, ◌-◌, ◌<◌, String, Bool, true, false, ◌||◌, Option, none, some, List, [], ◌∷◌, ◌++◌,
  ◌==◌, ltb, leb, if◌then◌else◌, word, add64, sub64, lt_int, le_int, length, drop, Map, lookup,
  insert,
}
use voxelcraft_ai.Kernel.Vec.{Vec3i}
use voxelcraft_ai.Kernel.Event.{Event}

pub record EventLogEntry : Type 0 where
  pub cursor : ℕ
  pub event : Event

pub record RateWindow : Type 0 where
  pub start_tick : ℕ
  pub count : ℕ
  pub window : ℕ
  pub max : ℕ

pub record Agent : Type 0 where
  pub id : String
  pub pos : Vec3i
  pub rep_trade : ℕ
  pub rep_build : ℕ
  pub rep_social : ℕ
  pub rep_law : ℕ
  pub inventory : ℕ  -- the address of the map
  pub events : List Event
  pub event_cursor : ℕ
  pub event_log : List EventLogEntry
  pub rl : Map RateWindow

abbrev pub max_log : ℕ
max_log = 4096

unfoldable pub add_event : Event → Agent → Agent
add_event e a =
    let c = add64 a.event_cursor 1 in
    let log = a.event_log ++ record { cursor = c; event = e } ∷ [] in
    record a {
      events = a.events ++ e ∷ [];
      event_cursor = c;
      event_log = if ltb max_log (length log) then drop (length log - max_log) log else log;
    }

unfoldable pub take_events : Agent → List Event × Agent
take_events a = (a.events, record a { events = [] })

-- The limits that `EventsAfter` puts on the page size.
unfoldable pub clamp_limit : ℕ → ℕ
clamp_limit limit =
    let l = if le_int limit 0 then 100 else limit in if lt_int 1000 l then 1000 else l

-- The loop of `EventsAfter`: `room` is `limit - len(out)`, at least 1 where the loop goes on.
pub collect : ℕ → ℕ → ℕ → List EventLogEntry → List EventLogEntry × ℕ
collect cursor room next [] = ([], next)
collect cursor room next (e ∷ es) =
    let skipped = collect cursor room next es in
    let (out, last) = collect cursor (room - 1) e.cursor es in
    if leb e.cursor cursor
    then skipped
    else if leb room 1
    then (e ∷ [], e.cursor)
    else (e ∷ out, last)

unfoldable pub events_after : Agent → ℕ → ℕ → List EventLogEntry × ℕ
unfolding collect clamp_limit
events_after a cursor limit = collect cursor (clamp_limit limit) cursor a.event_log

-- rates.Allow
pub record Verdict : Type 0 where
  pub start : ℕ
  pub count : ℕ
  pub ok : Bool
  pub cooldown : ℕ

count_call : ℕ → ℕ → ℕ → ℕ → ℕ → Verdict
count_call now start count window max =
    let n = add64 count 1 in
    if le_int n max
    then record { start = start; count = n; ok = true; cooldown = 0 }
    else record { start = start; count = n; ok = false; cooldown = sub64 (add64 start window) now }

unfoldable pub allow : ℕ → ℕ → ℕ → ℕ → ℕ → Verdict
unfolding count_call
allow now start count window max =
    if window == 0 || le_int max 0
    then record { start = start; count = count; ok = true; cooldown = 0 }
    else if leb window (sub64 now start)
    then count_call now now 0 window max
    else count_call now start count window max

-- The window that `RateLimitAllow` finds under the kind, or starts.
window_for : Option RateWindow → ℕ → ℕ → ℕ → RateWindow
window_for none now window max = record { start_tick = now; count = 0; window = window; max = max }
window_for (some w) now window max = record w { window = window; max = max }

unfoldable pub rate_limit_allow : Agent → String → ℕ → ℕ → ℕ → (Bool × ℕ) × Agent
unfolding window_for
rate_limit_allow a kind now window max =
    let w = window_for (lookup kind a.rl) now window max in
    if window == 0 || le_int max 0
    then ((true, 0), record a { rl = insert kind w a.rl })
    else (let v = allow now w.start_tick w.count window max in
        (
          (v.ok, v.cooldown),
          record a { rl = insert kind (record w { start_tick = v.start; count = v.count }) a.rl },
        ))
