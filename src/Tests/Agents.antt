-- ===== src/Tests/Agents.antt =====
-- Event pages and rate limits.
use voxelcraft_ai.Prelude.{
  ◌≤◌, ◌+◌, ◌≡◌, refl, ◌↔◌, true, false, [], ◌∷◌, ◌++◌, arith, length, lookup,
}
use voxelcraft_ai.Kernel.Agent.{add_event, events_after, allow}
use voxelcraft_ai.Kernel.Agent.EventLog.{IsPaged, newer, add_event-IsPaged, events_after_pages}
use voxelcraft_ai.Kernel.Agent.RateLimit.{allow_cooldown, granted, granted_in_window}
use voxelcraft_ai.Tests.Data.{note, entry, agent}

ada-IsPaged : IsPaged (agent "A1" 1)
ada-IsPaged = record { dropped = 2; run = omega arith; bounded = omega arith }

add_event-IsPaged_example : IsPaged (add_event note (agent "A1" 1))
add_event-IsPaged_example = add_event-IsPaged note (agent "A1" 1) ada-IsPaged (omega arith)

first_page : events_after (agent "A1" 1) 3 1 ≡ (entry 4 ∷ [], 4)
unfolding events_after
first_page = refl

events_after_pages_example :
    let page = events_after (agent "A1" 1) 3 1 in
    (entry 4 ∷ entry 5 ∷ [] ≡ page.0 ++ newer page.1 (entry 3 ∷ entry 4 ∷ entry 5 ∷ []))
    × (3 ≤ page.1)
    × (length page.0 ≤ 1000)
    × (page.0 ≡ [] → entry 4 ∷ entry 5 ∷ [] ≡ [])
events_after_pages_example = events_after_pages (agent "A1" 1) 3 1 ada-IsPaged (omega arith)

refused_call : (allow 12 10 3 50 3).ok ≡ false
unfolding allow
refused_call = refl

allow_cooldown_example :
    let v = allow 12 10 3 50 3 in
    ((allow 61 v.start v.count 50 3).ok ≡ true) ↔ (12 + v.cooldown ≤ 61)
allow_cooldown_example =
    allow_cooldown 12 10 3 50 3 61 (omega arith) (omega arith) (omega arith) (omega arith)
      (omega arith) refused_call (omega arith) (omega arith) (omega arith)

granted_in_window_example : granted (agent "A1" 1) "SAY" 50 3 (12 ∷ 20 ∷ 59 ∷ []) ≡ 2
unfolding lookup
granted_in_window_example =
    granted_in_window (agent "A1" 1) "SAY" _ 50 3 (12 ∷ 20 ∷ 59 ∷ []) refl (omega arith)
      (omega arith) (omega arith) (omega arith) (omega arith)
