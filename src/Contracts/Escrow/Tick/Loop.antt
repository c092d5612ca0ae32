-- ===== src/Contracts/Escrow/Tick/Loop.antt =====
-- The whole of `tickContracts` (internal/sim/world/contracts_facade.go).
use voxelcraft_ai.Prelude.{
  ℕ, ◌≡◌, refl, String, none, some, [], ◌∷◌, arith, eq_iff, Map, lookup, insert, inl, inr, All,
  HasDistinctKeys, lookup-insert,
}
use voxelcraft_ai.Kernel.Vec.{Vec3i}
use voxelcraft_ai.Contracts.Core.{decide_tick}
use voxelcraft_ai.Contracts.State.{Contract, Site}
use voxelcraft_ai.Contracts.Handlers.{ContractEnv}
use voxelcraft_ai.Contracts.Tick.{tick_input, tick_contract, tick_each, tick_contracts}
use voxelcraft_ai.Contracts.Tick.Plans.{decide_tick-Due}
use voxelcraft_ai.Contracts.Escrow.{IsBacked, IsPlaced, IsSoundContract}
use voxelcraft_ai.Contracts.Escrow.Tick.Rounds.{
  Rounds, apply_decision-Rounds, apply_decision-IsBacked,
}

-- The entries of the first map stand in the second.
abbrev Stand : Map Contract → Map Contract → Type 0
Stand rest m = All (λ e. lookup e.0 m ≡ some e.1) rest

Stand-insert :
    (key : String) (c : Contract) (rest m : Map Contract)
    → lookup key rest ≡ none
    → Stand rest m
    → Stand rest (insert key c m)
unfolding lookup
Stand-insert key c [] m a s = tt
Stand-insert key c ((k, d) ∷ rest) m a s =
    ground
      (arith, eq_iff k key, eq_iff key k, lookup-insert key k c m, Stand-insert key c rest m, s)

-- The entries of a map without a key twice stand in it.
Stand-cons :
    (key : String) (c : Contract) (rest m : Map Contract)
    → lookup key rest ≡ none
    → Stand rest m
    → Stand rest ((key, c) ∷ m)
unfolding lookup
Stand-cons key c [] m a s = tt
Stand-cons key c ((k, d) ∷ rest) m a s =
    ground (arith, eq_iff k key, eq_iff key k, Stand-cons key c rest m, s)

Stand-refl : (m : Map Contract) → HasDistinctKeys m → Stand m m
unfolding lookup
Stand-refl [] d = tt
Stand-refl ((key, c) ∷ m) d =
    (ground (arith, eq_iff key key), Stand-cons key c m m d.0 (Stand-refl m d.1))

module _ (env : ContractEnv) (now : ℕ) (p : Vec3i) (j : String) where
  Stand-Rounds :
      (key : String) (rest : Map Contract) (w after : Site)
      → Rounds key w after
      → lookup key rest ≡ none
      → Stand rest w.contracts
      → Stand rest after.contracts
  Stand-Rounds key rest w after (placed, inl kept) a s = rw kept s
  Stand-Rounds key rest w after (placed, inr (c, wrote)) a s =
      rw wrote (Stand-insert key c rest w.contracts a s)

  tick_each-IsBacked :
      (rest : Map Contract) (w : Site)
      → HasDistinctKeys rest
      → Stand rest w.contracts
      → All (λ e. IsSoundContract e.1) rest
      → IsPlaced w
      → IsBacked p j w
      → IsBacked p j (tick_each env now rest w)
  unfolding tick_each tick_contract
  tick_each-IsBacked [] w d s sound placed b = b
  tick_each-IsBacked ((key, c) ∷ rest) w d s sound placed b =
      let term = w.containers c.terminal_pos in
      let decision = decide_tick (tick_input env now c term) in
      let rounds = apply_decision-Rounds env now key c decision term w in
      tick_each-IsBacked rest (tick_contract env now key c w) d.1
        (Stand-Rounds key rest w (tick_contract env now key c w) rounds d.0 s.1) sound.1
        (rounds.0 placed)
        (apply_decision-IsBacked env now p j key c decision term w s.0 refl placed
          (decide_tick-Due env now c term) sound.0 b)

  -- Where the contracts are sound and stand under distinct ids, and every container stands under
  -- its position, a tick of the contracts keeps the terminals backed: at any position and for any
  -- item, if a terminal reserves exactly what the live contracts there hold, and has it, with
  -- counts below 2 ^ 63, so it does after the tick, whatever that expires, fails and completes.
  pub tick_contracts-IsBacked :
      (w : Site)
      → HasDistinctKeys w.contracts
      → All (λ e. IsSoundContract e.1) w.contracts
      → IsPlaced w
      → IsBacked p j w
      → IsBacked p j (tick_contracts env now w)
  unfolding tick_contracts
  tick_contracts-IsBacked w d sound placed b =
      tick_each-IsBacked w.contracts w d (Stand-refl w.contracts d) sound placed b
