-- ===== src/Conveyor/Power/Network.antt =====
-- What the search for an active control finds out about the wires.
use voxelcraft_ai.Prelude.{
  ℕ, zero, suc, ◌+◌, ◌-◌, ◌≤◌, ◌<◌, ◌≡◌, ◌⊎◌, inl, inr, Bool, true, false, Bool-cases, Option, none,
  some, List, [], ◌∷◌, leb, arith, leb→le, length, All,
}
use voxelcraft_ai.Kernel.Places.{seen, Distinct, neighbours, seen-cons}
use voxelcraft_ai.Conveyor.Power.{Env, Pos, Search, is_wire, expand, lit, round, search_wires}
use voxelcraft_ai.Conveyor.Power.Expand.{IsGood, Grows, Full, expand-Grows}

module _ (env : Env) (pos : Pos) where
  -- The wires that are connected to the conveyor.
  pub data Wired : Pos → Type 0 where
    beside : {p : Pos} → seen p (neighbours pos) ≡ true → is_wire env p ≡ true → Wired p
    along : {p q : Pos} → Wired p → seen q (neighbours p) ≡ true → is_wire env q ≡ true → Wired q

  -- Some connected wire is beside an active switch or sensor.
  abbrev pub Powered : Type 0
  Powered = (p : Pos) × Wired p × (lit env (neighbours p) ≡ true)

  abbrev pub Unpowered : Type 0
  Unpowered = (p : Pos) → Wired p → lit env (neighbours p) ≡ false

  -- More than so many wires are connected.
  abbrev pub IsLarge : ℕ → Type 0
  IsLarge n = (ps : List Pos) × Distinct ps × All Wired ps × (n < length ps)

  module _ (max_nodes : ℕ) where
    abbrev pub Good : Search → Type 0
    Good = IsGood env max_nodes Wired

    -- A wire whose neighbours have been looked at.
    abbrev pub IsDone : List Pos → Pos → Type 0
    IsDone visited p =
        (lit env (neighbours p) ≡ false)
        × ((q : Pos) → seen q (neighbours p) ≡ true → is_wire env q ≡ true → seen q visited ≡ true)

    pub record Inv (s : Search) : Type 0 where
      pub good : Good s
      pub roots :
          (p : Pos)
          → seen p (neighbours pos) ≡ true
          → is_wire env p ≡ true
          → seen p s.visited ≡ true
      pub closed :
          (max_nodes < length s.visited)
          ⊎ ((p : Pos) → seen p s.visited ≡ true → (seen p s.queue ≡ true) ⊎ IsDone s.visited p)

    -- The search has ended with the answer.
    abbrev pub Answers : Option Bool → Type 0
    Answers none = ⊥
    Answers (some true) = Powered
    Answers (some false) = IsLarge max_nodes ⊎ Unpowered

    -- An empty queue: all connected wires were visited.
    all_visited :
        (visited : List Pos)
        → ((p : Pos)
            → seen p (neighbours pos) ≡ true
            → is_wire env p ≡ true
            → seen p visited ≡ true)
        → ((p : Pos) → seen p visited ≡ true → IsDone visited p)
        → {p : Pos} → Wired p
        → seen p visited ≡ true
    all_visited visited roots done (beside {p} i w) = roots p i w
    all_visited visited roots done (along {p} {q} r i w) =
        (done p (all_visited visited roots done r)).1 q i w

    -- What is left to mark or to look at.
    abbrev pub work : Search → ℕ
    work s = suc max_nodes - length s.visited + length s.queue

    -- A wire that was visited before a round waits, is the one of the round, or is done.
    still :
        (p : Pos) (s t : Search)
        → Grows env max_nodes Wired s t
        → IsDone t.visited p
        → (q : Pos) → (seen q (p ∷ s.queue) ≡ true) ⊎ IsDone s.visited q
        → (seen q t.queue ≡ true) ⊎ IsDone t.visited q
    still p s t g now q (inl waiting) = elim (seen-cons q p s.queue waiting) [
      | inl e ↦ rw e (inr now)
      | inr later ↦ inl (g.waits q later)
    ]
    still p s t g now q (inr done) = inr (done.0, λ r i w. g.keeps r (done.1 r i w))

    closed_after :
        (p : Pos) (s t : Search)
        → Grows env max_nodes Wired s t
        → lit env (neighbours p) ≡ false
        → Full env max_nodes Wired t (neighbours p)
        → length s.visited ≤ max_nodes
        → (max_nodes < length s.visited)
          ⊎ ((q : Pos)
              → seen q s.visited ≡ true
              → (seen q (p ∷ s.queue) ≡ true) ⊎ IsDone s.visited q)
        → (max_nodes < length t.visited)
          ⊎ ((q : Pos) → seen q t.visited ≡ true → (seen q t.queue ≡ true) ⊎ IsDone t.visited q)
    closed_after p s t g dark (inl over) few c = inl over
    closed_after p s t g dark (inr all) few (inl over) = absurd (omega arith)
    closed_after p s t g dark (inr all) few (inr closed) = inr (λ q i. elim (g.new q i) [
      | inl old ↦ still p s t g (dark, all) q (closed q old)
      | inr waiting ↦ inl waiting
    ])

    Inv-expand :
        (p : Pos) (visited queue : List Pos)
        → Inv (record { visited = visited; queue = p ∷ queue })
        → length visited ≤ max_nodes
        → lit env (neighbours p) ≡ false
        → let t =
            expand env max_nodes (record { visited = visited; queue = queue }) (neighbours p) in
          Inv t × (suc (work t) ≡ suc max_nodes - length visited + length (p ∷ queue))
    Inv-expand p visited queue inv few dark =
        let s : Search = record { visited = visited; queue = queue } in
        let (g, full, small) =
          expand-Grows env max_nodes Wired s (neighbours p)
            (λ q i w. along inv.good.queued.0 i w) in
        let t = expand env max_nodes s (neighbours p) in
        let good : Good s = record {
          distinct = inv.good.distinct;
          wired = inv.good.wired;
          queued = inv.good.queued.1;
        } in
        (
          record {
            good = g.good good;
            roots = λ q i w. g.keeps q (inv.roots q i w);
            closed = closed_after p s t g dark full few inv.closed;
          },
          omega (arith, g.count, small few),
        )

    empty_queue :
        (p : Pos) (visited : List Pos) → (seen p [] ≡ true) ⊎ IsDone visited p → IsDone visited p
    unfolding seen
    empty_queue p visited (inl h) = cc
    empty_queue p visited (inr d) = d

    -- An answer after one round, where the later rounds answer.
    round-Answers :
        (visited queue : List Pos) (next : Search → Option Bool)
        → Inv (record { visited = visited; queue = queue })
        → ((t : Search)
            → Inv t
            → length visited ≤ max_nodes
            → suc (work t) ≡ suc max_nodes - length visited + length queue
            → Answers (next t))
        → Answers (round env max_nodes visited queue next)
    unfolding round seen
    round-Answers visited [] next inv later = elim inv.closed [
      | inl over ↦ inl (visited, inv.good.distinct, inv.good.wired, over)
      | inr closed ↦
          let done = λ (p : Pos) (i : seen p visited ≡ true). empty_queue p visited (closed p i) in
          inr (λ p w. (done p (all_visited visited inv.roots done w)).0)
    ]
    round-Answers visited (p ∷ queue) next inv later =
        elim (Bool-cases (leb (length visited) max_nodes)) [
          | inr over ↦ rw over (inl (visited, inv.good.distinct, inv.good.wired, ground arith))
          | inl few ↦ elim (Bool-cases (lit env (neighbours p))) [
            | inl on ↦ rw (few, on) (p, inv.good.queued.0, on)
            | inr dark ↦
                let room = leb→le _ _ few in
                let (inv', less) = Inv-expand p visited queue inv room dark in
                rw (few, dark) (later _ inv' room less)
          ]
        ]

    pub search_wires-Answers :
        (fuel : ℕ) (s : Search)
        → Inv s
        → (max_nodes < length s.visited) ⊎ (work s ≤ fuel)
        → Answers (search_wires fuel env max_nodes s)
    unfolding search_wires
    search_wires-Answers zero s inv h =
        round-Answers s.visited s.queue (λ _. none) inv (λ t i few less. absurd (ground arith))
    search_wires-Answers (suc fuel) s inv h =
        round-Answers s.visited s.queue (search_wires fuel env max_nodes) inv
          (λ t i few less. search_wires-Answers fuel t i (inr (ground arith)))
