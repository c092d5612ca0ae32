-- ===== src/Conveyor/Power/Decision.antt =====
-- Why a conveyor runs or stands.
use voxelcraft_ai.Prelude.{
  ℕ, suc, ◌<◌, ◌≡◌, refl, subst, leb, leb→le, ◌⊎◌, inl, inr, Bool, true, false, ◌||◌, Bool-cases,
  Option, none, some, List, [], ◌∷◌, le_int, arith, length, half,
}
use voxelcraft_ai.Kernel.Places.{
  seen, Distinct-single, neighbours, seen-cons, seen_tail, seen_head, seen_nil,
}
use voxelcraft_ai.Conveyor.Power.{
  Env, Pos, Search, signal, is_control, is_on, is_wire, seed, lit, search_wires, wire_starts,
  wire_powered_by_switch, enabled_by_wires, controls, enabled, after_controls,
}
use voxelcraft_ai.Conveyor.Power.Expand.{seed-Grows}
use voxelcraft_ai.Conveyor.Power.Network.{
  Wired, beside, Powered, Unpowered, IsLarge, Answers, search_wires-Answers,
}

module _ (env : Env) where
  abbrev pub HasControl : List Pos → Type 0
  HasControl ps = (p : Pos) × (seen p ps ≡ true) × (is_control (signal env p) ≡ true)

  abbrev pub HasNoControl : List Pos → Type 0
  HasNoControl ps = (p : Pos) → seen p ps ≡ true → is_control (signal env p) ≡ false

  abbrev pub HasWire : List Pos → Type 0
  HasWire ps = (p : Pos) × (seen p ps ≡ true) × (is_wire env p ≡ true)

  abbrev pub HasNoWire : List Pos → Type 0
  HasNoWire ps = (p : Pos) → seen p ps ≡ true → is_wire env p ≡ false

  -- What rule 1 decides.
  abbrev Decides : Bool → List Pos → Option Bool → Type 0
  Decides found ps r =
      (r ≡ none) × (found ≡ false) × HasNoControl ps
      ⊎ (r ≡ some (lit env ps)) × ((found ≡ true) ⊎ HasControl ps)

  on_control : (s : Option Bool) → is_on s ≡ true → is_control s ≡ true
  on_control none h = cc
  on_control (some b) h = refl

  -- One more cell, which is not on, before the others.
  more :
      (found : Bool) (p : Pos) (ps : List Pos) (r : Option Bool)
      → Decides (found || is_control (signal env p)) ps r
      → (r ≡ none) × (found ≡ false) × HasNoControl (p ∷ ps)
        ⊎ (r ≡ some (lit env ps)) × ((found ≡ true) ⊎ HasControl (p ∷ ps))
  more found p ps r (inl (e, f, h)) = inl (
    e,
    ground arith,
    λ q i. elim (seen-cons q p ps i) [ inl same ↦ rw same (ground arith) | inr later ↦ h q later ],
  )
  more found p ps r (inr (e, inr (q, i, c))) = inr (e, inr (q, seen_tail q p ps i, c))
  more true p ps r (inr (e, inl f)) = inr (e, inl refl)
  more false p ps r (inr (e, inl f)) = inr (e, inr (p, seen_head p ps, f))

  controls-Decides : (found : Bool) (ps : List Pos) → Decides found ps (controls env found ps)
  unfolding controls lit seen
  controls-Decides true [] = inr (refl, inl refl)
  controls-Decides false [] = inl (refl, refl, λ p i. cc)
  controls-Decides found (p ∷ ps) = elim (Bool-cases (is_on (signal env p))) [
    | inl on ↦ rw on (inr (refl, inr (p, seen_head p ps, on_control (signal env p) on)))
    | inr off ↦
        rw off (more found p ps _ (controls-Decides (found || is_control (signal env p)) ps))
  ]

  wire_starts_sound :
      (p : Pos) (ps : List Pos)
      → seen p (wire_starts env ps) ≡ true
      → (seen p ps ≡ true) × (is_wire env p ≡ true)
  unfolding wire_starts
  wire_starts_sound p [] i = absurd (seen_nil p i)
  wire_starts_sound p (q ∷ ps) i = elim (Bool-cases (is_wire env q)) [
    | inr other ↦ let (old, w) = wire_starts_sound p ps (rw other at i) in (seen_tail p q ps old, w)
    | inl wire ↦ elim (seen-cons p q (wire_starts env ps) (rw wire at i)) [
      | inl same ↦ (rw same (seen_head q ps), rw same wire)
      | inr later ↦ let (old, w) = wire_starts_sound p ps later in (seen_tail p q ps old, w)
    ]
  ]

  wire_starts_full :
      (p : Pos) (ps : List Pos)
      → seen p ps ≡ true
      → is_wire env p ≡ true
      → seen p (wire_starts env ps) ≡ true
  unfolding wire_starts
  wire_starts_full p [] i w = i
  wire_starts_full p (q ∷ ps) i w = elim (seen-cons p q ps i) [
    | inl same ↦
        let wire : is_wire env q ≡ true = rw (← same) w in
        rw (wire, same) (seen_head q (wire_starts env ps))
    | inr later ↦ elim (Bool-cases (is_wire env q)) [
      | inl wire ↦ rw wire (seen_tail p q (wire_starts env ps) (wire_starts_full p ps later w))
      | inr other ↦ rw other (wire_starts_full p ps later w)
    ]
  ]

-- Why a conveyor at a position runs or not, where wires are searched up to a number of them.
pub data Explains (env : Env) (pos : Pos) (max_nodes : ℕ) : Bool → Type 0 where
  -- A switch or sensor beside it decides: one of them has to be on.
  by_control :
      {b : Bool}
      → HasControl env (neighbours pos)
      → b ≡ lit env (neighbours pos)
      → Explains env pos max_nodes b
  -- There is neither a control nor a wire beside it.
  by_default :
      {b : Bool}
      → HasNoControl env (neighbours pos)
      → HasNoWire env (neighbours pos)
      → b ≡ true
      → Explains env pos max_nodes b
  -- A wire leads to an active control.
  by_wire :
      {b : Bool}
      → HasNoControl env (neighbours pos)
      → Powered env pos
      → b ≡ true
      → Explains env pos max_nodes b
  -- There are wires, but none does, or there are too many.
  no_power :
      {b : Bool}
      → HasNoControl env (neighbours pos)
      → HasWire env (neighbours pos)
      → IsLarge env pos max_nodes ⊎ Unpowered env pos
      → b ≡ false
      → Explains env pos max_nodes b

module _ (env : Env) (pos : Pos) (max_nodes : ℕ) where
  -- The answer is given, and explained.
  abbrev pub IsExplained : Option Bool → Type 0
  IsExplained r = (b : Bool) × (r ≡ some b) × Explains env pos max_nodes b

  explain_answer :
      (r : Option Bool)
      → HasNoControl env (neighbours pos)
      → HasWire env (neighbours pos)
      → Answers env pos max_nodes r
      → IsExplained r
  explain_answer none h w a = absurd a
  explain_answer (some true) h w a = (true, refl, by_wire h a refl)
  explain_answer (some false) h w a = (false, refl, no_power h w a refl)

  abbrev nothing : Search
  nothing = record { visited = []; queue = [] }

  abbrev starts : List Pos
  starts = wire_starts env (neighbours pos)

  -- The search begins with the wires beside the conveyor, and has fuel for each wire below the cap.
  starts-Answers :
      Answers env pos max_nodes
        (search_wires (suc max_nodes) env max_nodes (seed env nothing starts))
  starts-Answers =
      let (g, marks) =
        seed-Grows env max_nodes (Wired env pos) nothing starts
          (λ p i w. beside (wire_starts_sound env p (neighbours pos) i).0 w) in
      let t = seed env nothing starts in
      search_wires-Answers env pos max_nodes (suc max_nodes) t
        (record {
          good = g.good (record { distinct = tt; wired = tt; queued = tt });
          roots = λ p i w. marks p (wire_starts_full env p (neighbours pos) i w) w;
          closed = inr (λ p i. elim (g.new p i) [
            | inl old ↦ absurd (seen_nil p old)
            | inr waits ↦ inl waits
          ]);
        })
        (elim (Bool-cases (leb (length t.visited) max_nodes)) [
          | inl few ↦ inr (omega (arith, g.count, leb→le _ _ few))
          | inr many ↦ inl (ground arith)
        ])

  wires-IsExplained :
      (ps : List Pos)
      → starts ≡ ps
      → max_nodes < half
      → HasNoControl env (neighbours pos)
      → IsExplained (enabled_by_wires env ps max_nodes)
  unfolding enabled_by_wires wire_powered_by_switch
  wires-IsExplained [] e h free = (
    true,
    refl,
    by_default free
        (λ p i. elim (Bool-cases (is_wire env p)) [
          | inr other ↦ other
          | inl wire ↦ absurd (
              seen_nil p
                (subst (λ l. seen p l ≡ true) e (wire_starts_full env p (neighbours pos) i wire)))
        ])
        refl,
  )
  wires-IsExplained (p ∷ ps) e h free =
      let first : seen p starts ≡ true = rw e (seen_head p ps) in
      let (near, wire) = wire_starts_sound env p (neighbours pos) first in
      elim (Bool-cases (le_int max_nodes 0)) [
        | inl zero_cap ↦ rw zero_cap (
            explain_answer (some false) free (p, near, wire)
              (inl (p ∷ [], Distinct-single p, (beside near wire, tt), ground arith)))
        | inr some_cap ↦ rw some_cap (
            explain_answer _ free (p, near, wire)
              (subst
                (λ l.
                  Answers env pos max_nodes
                    (search_wires (suc max_nodes) env max_nodes (seed env nothing l)))
                e starts-Answers))
      ]

  -- For each cap below 2 ^ 63 the decision is made and explained.
  pub enabled-IsExplained : max_nodes < half → IsExplained (enabled env pos max_nodes)
  unfolding enabled after_controls
  enabled-IsExplained h = elim (controls-Decides env false (neighbours pos)) [
    | inl (e, f, free) ↦ rw e (wires-IsExplained starts refl h free)
    | inr (e, inl f) ↦ cc
    | inr (e, inr c) ↦ rw e (lit env (neighbours pos), refl, by_control c refl)
  ]
