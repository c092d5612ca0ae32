-- ===== src/Kernel/Agent/EventLog.antt =====
-- The event log of internal/sim/world/kernel/model/agent.go: `AddEvent`, `EventsAfter`.
use voxelcraft_ai.Prelude.{
  ℕ, zero, suc, ◌+◌, ◌-◌, ◌≤◌, ◌<◌, ◌≡◌, refl, ◌⊎◌, inl, inr, List, [], ◌∷◌, ◌++◌, arith, ltb,
  ltb→lt, Bool-cases, add64, if◌then◌else◌, word, length, length-append, length-drop, drop,
}
use voxelcraft_ai.Kernel.Event.{Event}
use voxelcraft_ai.Kernel.Agent.{
  Agent, EventLogEntry, max_log, add_event, clamp_limit, collect, events_after,
}

-- The cursors of the entries are n + 1, n + 2, … up to m.
abbrev pub Run : ℕ → List EventLogEntry → ℕ → Type 0
Run n [] m = n ≡ m
Run n (e ∷ es) m = (e.cursor ≡ suc n) × Run (suc n) es m

-- The log holds the last events without a gap, and no more than 4096 of them.
pub record IsPagedLog (log : List EventLogEntry) (cursor : ℕ) : Type 0 where
  pub dropped : ℕ
  pub run : Run dropped log cursor
  pub bounded : length log ≤ max_log

abbrev pub IsPaged : Agent → Type 0
IsPaged a = IsPagedLog a.event_log a.event_cursor

-- The entries that a client at this cursor has not seen.
abbrev pub newer : ℕ → List EventLogEntry → List EventLogEntry
newer cursor [] = []
newer cursor (e ∷ es) = let rest = newer cursor es in if ltb cursor e.cursor then e ∷ rest else rest

Run-append :
    (n m : ℕ) (log : List EventLogEntry) (e : EventLogEntry)
    → Run n log m
    → e.cursor ≡ suc m
    → Run n (log ++ e ∷ []) (suc m)
Run-append n m [] e r h = omega arith
Run-append n m (x ∷ xs) e r h = (r.0, Run-append (suc n) m xs e r.1 h)

Run-drop :
    (k n m : ℕ) (log : List EventLogEntry)
    → k ≤ length log
    → Run n log m
    → Run (k + n) (drop k log) m
Run-drop zero n m log h r = let e : 0 + n ≡ n = omega arith in rw e r
Run-drop (suc k) n m [] h r = elim h [ ]
Run-drop (suc k) n m (x ∷ xs) h r =
    let e : suc k + n ≡ k + suc n = omega arith in rw e (Run-drop k (suc n) m xs (omega arith) r.1)

newer-all : (c n m : ℕ) (log : List EventLogEntry) → Run n log m → c ≤ n → newer c log ≡ log
newer-all c n m [] r h = refl
newer-all c n m (e ∷ es) r h = ground (arith, newer-all c (suc n) m es r.1)

-- Of a log that is one entry too long, the first entry is dropped.
trim :
    (n m : ℕ) (log : List EventLogEntry)
    → Run n log m
    → length log ≤ suc max_log
    → IsPagedLog (if ltb max_log (length log) then drop (length log - max_log) log else log) m
trim n m log r h = elim (Bool-cases (ltb max_log (length log))) [
  | inl long ↦ rw long (record {
    dropped = length log - max_log + n;
    run = Run-drop (length log - max_log) n m log (omega arith) r;
    bounded = omega (arith, length-drop (length log - max_log) log, ltb→lt _ _ long);
  })
  | inr short ↦ rw short (record { dropped = n; run = r; bounded = ground arith })
]

-- While the cursor is below 2 ^ 64 - 1, delivering an event keeps the log without gaps, within its
-- cap of 4096, and up to date with the cursor.
pub add_event-IsPaged :
    (e : Event) (a : Agent) → IsPaged a → a.event_cursor + 1 < word → IsPaged (add_event e a)
unfolding add_event
add_event-IsPaged e a p h =
    let next : add64 a.event_cursor 1 ≡ suc a.event_cursor = omega arith in
    rw next (
      trim p.dropped (suc a.event_cursor) (a.event_log ++ entry ∷ [])
        (Run-append p.dropped a.event_cursor a.event_log entry p.run refl)
        (omega (arith, length-append {0} a.event_log (entry ∷ []), p.bounded)))
  where
    entry : EventLogEntry
    entry = record { cursor = suc a.event_cursor; event = e }

collect_lem :
    (cursor room next n m : ℕ) (log : List EventLogEntry)
    → 1 ≤ room
    → Run n log m
    → cursor ≤ next
    → (next ≤ n) ⊎ (next ≡ cursor)
    → (next ≤ (collect cursor room next log).1)
      × (newer cursor log
          ≡ (collect cursor room next log).0 ++ newer (collect cursor room next log).1 log)
unfolding collect
collect_lem cursor room next n m [] h r c d = (omega arith, refl)
collect_lem cursor room next n m (e ∷ es) h r c d = ground (
  arith,
  collect_lem cursor room next (suc n) m es h r.1 c,
  collect_lem cursor (room - 1) e.cursor (suc n) m es,
  newer-all cursor (suc n) m es r.1,
  newer-all e.cursor (suc n) m es r.1,
)

collect_bounded :
    (cursor room next : ℕ) (log : List EventLogEntry)
    → 1 ≤ room
    → length (collect cursor room next log).0 ≤ room
unfolding collect
collect_bounded cursor room next [] h = omega arith
collect_bounded cursor room next (e ∷ es) h =
    ground
      (arith, collect_bounded cursor room next es h, collect_bounded cursor (room - 1) e.cursor es)

-- A page is empty only if no entry is newer than the cursor.
collect_progress :
    (cursor room next : ℕ) (log : List EventLogEntry)
    → (collect cursor room next log).0 ≡ []
    → newer cursor log ≡ []
unfolding collect
collect_progress cursor room next [] h = refl
collect_progress cursor room next (e ∷ es) h = ground (arith, collect_progress cursor room next es)

clamp_limit_bounds :
    (limit : ℕ) → limit < word → (1 ≤ clamp_limit limit) × (clamp_limit limit ≤ 1000)
unfolding clamp_limit
clamp_limit_bounds limit h = ground arith

-- For a log without gaps and a limit below 2 ^ 64, a page together with what is newer than the
-- returned cursor is all that is newer than the given cursor, in order; the cursor does not fall,
-- the page has at most 1000 entries, and it is empty only if there is nothing newer.
pub events_after_pages :
    (a : Agent) (cursor limit : ℕ)
    → IsPaged a
    → limit < word
    → let page = events_after a cursor limit in
      (newer cursor a.event_log ≡ page.0 ++ newer page.1 a.event_log)
      × (cursor ≤ page.1)
      × (length page.0 ≤ 1000)
      × (page.0 ≡ [] → newer cursor a.event_log ≡ [])
unfolding events_after
events_after_pages a cursor limit p h =
    let room = clamp_limit_bounds limit h in
    let lem =
      collect_lem cursor (clamp_limit limit) cursor p.dropped a.event_cursor a.event_log room.0
        p.run (omega arith) (inr refl) in
    (
      lem.1,
      lem.0,
      omega (arith, room, collect_bounded cursor (clamp_limit limit) cursor a.event_log room.0),
      collect_progress cursor (clamp_limit limit) cursor a.event_log,
    )
