-- ===== src/Conveyor/Power/Rules.antt =====
-- What logic/conveyorpower/logic.go decides, by the rules that a belt runs by.
use voxelcraft_ai.Prelude.{ℕ, ◌<◌, ◌≡◌, sym, ◌∙◌, ◌⊎◌, inl, inr, Bool, true, some, half}
use voxelcraft_ai.Kernel.Places.{neighbours}
use voxelcraft_ai.Conveyor.Power.{Env, Pos, lit, enabled}
use voxelcraft_ai.Conveyor.Power.Network.{Powered, IsLarge}
use voxelcraft_ai.Conveyor.Power.Decision.{
  HasControl, HasNoControl, HasNoWire, Explains, by_control, by_default, by_wire, no_power,
  enabled-IsExplained,
}

module _ (env : Env) (pos : Pos) (max_nodes : ℕ) where
  -- A belt has to run: a control block beside it is on; or none is there, and no wire; or none is
  -- there, and its wires lead to an active one.
  abbrev pub Runs : Type 0
  Runs =
      HasControl env (neighbours pos) × (lit env (neighbours pos) ≡ true)
      ⊎ HasNoControl env (neighbours pos) × HasNoWire env (neighbours pos)
      ⊎ HasNoControl env (neighbours pos) × Powered env pos

  -- A belt that runs has to. One that has to run does, unless no control block is beside it and
  -- more wires are connected to it than the cap.
  abbrev pub IsDecided : Bool → Type 0
  IsDecided b =
      (b ≡ true → Runs)
      × (Runs → (b ≡ true) ⊎ HasNoControl env (neighbours pos) × IsLarge env pos max_nodes)

  excluded : {A : Type 0} → HasControl env (neighbours pos) → HasNoControl env (neighbours pos) → A
  excluded (p, i, c) free = cc (c, free p i)

  explained-IsDecided : (b : Bool) → Explains env pos max_nodes b → IsDecided b
  explained-IsDecided b (by_control c e) = (
    λ on. inl (c, sym e ∙ on),
    λ r. elim r [
      | inl (c', l) ↦ inl (e ∙ l)
      | inr (inl (free, w)) ↦ excluded c free
      | inr (inr (free, w)) ↦ excluded c free
    ],
  )
  explained-IsDecided b (by_default free bare e) = (λ on. inr (inl (free, bare)), λ r. inl e)
  explained-IsDecided b (by_wire free power e) = (λ on. inr (inr (free, power)), λ r. inl e)
  explained-IsDecided b (no_power free wire (inl large) e) =
      (λ on. cc (on, e), λ r. inr (free, large))
  explained-IsDecided b (no_power free (p, i, w) (inr dark) e) = (
    λ on. cc (on, e),
    λ r. elim r [
      | inl (c, l) ↦ excluded c free
      | inr (inl (f, bare)) ↦ cc (w, bare p i)
      | inr (inr (f, (q, wired, lit_there))) ↦ cc (lit_there, dark q wired)
    ],
  )

  -- For each cap below 2 ^ 63, the search ends with an answer. A belt that it lets run has to by
  -- the rules: a control block beside it is on; or none is there, and no wire; or none is there,
  -- and the wires connected to it, however many, lead to an active one. A belt that has to run
  -- does, unless no control block is beside it and more wires than the cap are connected to it.
  pub enabled-IsDecided :
      max_nodes < half → (b : Bool) × (enabled env pos max_nodes ≡ some b) × IsDecided b
  enabled-IsDecided h =
      let (b, e, why) = enabled-IsExplained env pos max_nodes h in (b, e, explained-IsDecided b why)
