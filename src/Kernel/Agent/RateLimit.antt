-- ===== src/Kernel/Agent/RateLimit.antt =====
-- What internal/sim/world/logic/rates/window.go and `RateLimitAllow` of kernel/model/agent.go allow.
use Prim.Native.Nat.{min}
use voxelcraft_ai.Prelude.{
  ℕ, suc, ◌+◌, ◌-◌, ◌≤◌, ◌<◌, ◌≡◌, ◌↔◌, String, true, false, List, [], ◌∷◌, some, arith, leb,
  if◌then◌else◌, word, half, length, All, lookup, insert, lookup-insert_self,
}
use voxelcraft_ai.Kernel.Agent.{Agent, RateWindow, allow, rate_limit_allow}

module _ (start count window max : ℕ) (p : 0 < max) (q : max < half) (c : suc count < half) where
  allow_within :
      (now : ℕ)
      → start ≤ now
      → now < start + window
      → start + window < word
      → allow now start count window max ≡ record {
        start = start;
        count = suc count;
        ok = leb (suc count) max;
        cooldown = if leb (suc count) max then 0 else start + window - now;
      }
  unfolding allow
  allow_within now h k b = ground arith

  allow_after :
      (now : ℕ)
      → 0 < window
      → start + window ≤ now
      → now < word
      → allow now start count window max
        ≡ record { start = now; count = 1; ok = true; cooldown = 0 }
  unfolding allow
  allow_after now w h b = ground arith

-- After a refusal in a window that does not overflow, with a positive limit and length, a call at
-- a later tick is allowed if and only if the cooldown that was told has passed.
pub allow_cooldown :
    (now start count window max t : ℕ)
    → start ≤ now
    → start + window < word
    → count + 2 < half
    → 0 < max
    → max < half
    → (allow now start count window max).ok ≡ false
    → now ≤ t
    → t < word
    → 0 < window
    → let v = allow now start count window max in
      ((allow t v.start v.count window max).ok ≡ true) ↔ (now + v.cooldown ≤ t)
allow_cooldown now start count window max t h1 h2 h3 h4 h5 d h6 h7 h8 = ground (
  arith,
  allow_within start count window max h4 h5 (omega arith) now h1,
  allow_after start count window max h4 h5 (omega arith) now,
  allow_within start (suc count) window max h4 h5 (omega arith) t,
  allow_after start (suc count) window max h4 h5 (omega arith) t,
)

-- How many of the calls at these ticks are allowed.
abbrev pub granted : Agent → String → ℕ → ℕ → List ℕ → ℕ
granted a kind window max [] = 0
granted a kind window max (t ∷ ts) =
    let (verdict, a') = rate_limit_allow a kind t window max in
    (if verdict.0 then 1 else 0) + granted a' kind window max ts

-- The window that a call leaves behind.
abbrev after : RateWindow → ℕ → ℕ → ℕ → RateWindow
after w t window max =
    let v = allow t w.start_tick w.count window max in
    record { start_tick = v.start; count = v.count; window = window; max = max }

rate_limit_allow_lem :
    (a : Agent) (kind : String) (w : RateWindow) (t window max : ℕ)
    → lookup kind a.rl ≡ some w
    → 0 < window
    → 0 < max
    → max < half
    → let v = allow t w.start_tick w.count window max in
      rate_limit_allow a kind t window max
      ≡ ((v.ok, v.cooldown), record a { rl = insert kind (after w t window max) a.rl })
unfolding rate_limit_allow
rate_limit_allow_lem a kind w t window max l h p q = ground arith

-- Of calls within the window that an agent has open for their kind, exactly the first max are
-- allowed, those before them included, where the window and the counts do not overflow and max is
-- positive.
pub granted_in_window :
    (a : Agent) (kind : String) (w : RateWindow) (window max : ℕ) (ticks : List ℕ)
    → lookup kind a.rl ≡ some w
    → All (λ t. (w.start_tick ≤ t) × (t < w.start_tick + window)) ticks
    → w.start_tick + window < word
    → w.count + length ticks < half
    → 0 < max
    → max < half
    → granted a kind window max ticks ≡ min (length ticks) (max - w.count)
granted_in_window a kind w window max [] l h b c p q = omega arith
granted_in_window a kind w window max (t ∷ ts) l h b c p q =
    let next = after w t window max in
    let step = allow_within w.start_tick w.count window max p q (omega arith) t h.0.0 h.0.1 b in
    rw (rate_limit_allow_lem a kind w t window max l (omega arith) p q) (
      ground (
        arith,
        step,
        granted_in_window (record a { rl = insert kind next a.rl }) kind next window max ts
            (lookup-insert_self kind next a.rl) (rw step h.1) (rw step b) (rw step (omega arith)) p
            q,
      ))
