-- ===== src/Conveyor/Power/Expand.antt =====
-- What marking wires keeps.
use voxelcraft_ai.Prelude.{
  ℕ, suc, ◌+◌, ◌≤◌, ◌<◌, ◌≡◌, refl, ◌⊎◌, inl, inr, true, false, Bool-cases, List, [], ◌∷◌, ltb,
  if◌then◌else◌, arith, length, length-append, All, All-append, ltb→lt,
}
use voxelcraft_ai.Kernel.Places.{
  seen, Distinct, seen-cons, seen_tail, seen_head, seen-concat_old, seen-concat_new,
}
use voxelcraft_ai.Conveyor.Power.{Env, Pos, Search, is_wire, mark, seed, expand}

-- `t` is `s` with more wires marked. `W` holds of the wires that may be marked.
module _ (env : Env) (max_nodes : ℕ) (W : Pos → Type 0) where
  pub record IsGood (s : Search) : Type 0 where
    pub distinct : Distinct s.visited
    pub wired : All W s.visited
    pub queued : All W s.queue

  pub record Grows (s t : Search) : Type 0 where
    pub keeps : (p : Pos) → seen p s.visited ≡ true → seen p t.visited ≡ true
    pub waits : (p : Pos) → seen p s.queue ≡ true → seen p t.queue ≡ true
    pub new :
        (p : Pos) → seen p t.visited ≡ true → (seen p s.visited ≡ true) ⊎ (seen p t.queue ≡ true)
    pub count : length t.visited + length s.queue ≡ length s.visited + length t.queue
    pub good : IsGood s → IsGood t

  -- All wires among `ps` are marked, unless the cap was passed.
  abbrev pub Full : Search → List Pos → Type 0
  Full t ps =
      (max_nodes < length t.visited)
      ⊎ ((p : Pos) → seen p ps ≡ true → is_wire env p ≡ true → seen p t.visited ≡ true)

  Full-nil : (s : Search) → Full s []
  unfolding seen
  Full-nil s = inr (λ p h w. cc)

  Full-cons :
      (t : Search) (p : Pos) (ps : List Pos)
      → (is_wire env p ≡ true → seen p t.visited ≡ true)
      → Full t ps
      → Full t (p ∷ ps)
  Full-cons t p ps h (inl over) = inl over
  Full-cons t p ps h (inr all) = inr (λ q i w. elim (seen-cons q p ps i) [
    | inl e ↦ rw e (h (rw (← e) w))
    | inr later ↦ all q later w
  ])

  Grows-refl : (s : Search) → Grows s s
  Grows-refl s = record {
    keeps = λ p h. h;
    waits = λ p h. h;
    new = λ p h. inl h;
    count = refl;
    good = λ g. g;
  }

  Grows-mark : (p : Pos) (s : Search) → seen p s.visited ≡ false → W p → Grows s (mark p s)
  unfolding mark
  Grows-mark p s fresh w = record {
    keeps = λ q h. seen_tail q p s.visited h;
    waits = λ q h. seen-concat_old q p s.queue h;
    new = λ q h. elim (seen-cons q p s.visited h) [
      | inl e ↦ inr (rw e (seen-concat_new p s.queue))
      | inr old ↦ inl old
    ];
    count = omega (arith, length-append {0} s.queue (p ∷ []));
    good = λ g. record {
      distinct = (fresh, g.distinct);
      wired = (w, g.wired);
      queued = All-append W s.queue (p ∷ []) g.queued (w, tt);
    };
  }

  Grows-trans : (s u t : Search) → Grows s u → Grows u t → Grows s t
  Grows-trans s u t a b = record {
    keeps = λ p i. b.keeps p (a.keeps p i);
    waits = λ p i. b.waits p (a.waits p i);
    new = λ p i. elim (b.new p i) [
      | inr later ↦ inr later
      | inl before ↦ elim (a.new p before) [
        | inl old ↦ inl old
        | inr waiting ↦ inr (b.waits p waiting)
      ]
    ];
    count = omega (arith, a.count, b.count);
    good = λ g. b.good (a.good g);
  }

  seen-mark : (p : Pos) (s : Search) → seen p (mark p s).visited ≡ true
  unfolding mark
  seen-mark p s = seen_head p s.visited

  size_mark :
      (p : Pos) (s : Search)
      → length s.visited ≤ max_nodes
      → length (mark p s).visited ≤ suc max_nodes
  unfolding mark
  size_mark p s h = omega arith

  -- What the first round of `seed` leaves.
  SeedStep : Search → Pos → Search → Type 0
  SeedStep s p u = Grows s u × (is_wire env p ≡ true → seen p u.visited ≡ true)

  seed_step :
      (p : Pos) (s : Search)
      → (is_wire env p ≡ true → W p)
      → SeedStep s p (if is_wire env p then (if seen p s.visited then s else mark p s) else s)
  unfolding SeedStep
  seed_step p s w = elim (Bool-cases (is_wire env p)) [
    | inr other ↦ rw other (Grows-refl s, λ i. cc)
    | inl wire ↦ elim (Bool-cases (seen p s.visited)) [
      | inl old ↦ rw (wire, old) (Grows-refl s, λ i. old)
      | inr fresh ↦ rw (wire, fresh) (Grows-mark p s fresh (w wire), λ i. seen-mark p s)
    ]
  ]

  -- The first loop, over wires that may be marked.
  pub seed-Grows :
      (s : Search) (ps : List Pos)
      → ((p : Pos) → seen p ps ≡ true → is_wire env p ≡ true → W p)
      → Grows s (seed env s ps)
        × ((p : Pos)
            → seen p ps ≡ true
            → is_wire env p ≡ true
            → seen p (seed env s ps).visited ≡ true)
  unfolding seed seen SeedStep
  seed-Grows s [] w = (Grows-refl s, λ p i. cc)
  seed-Grows s (p ∷ ps) w =
      let u = if is_wire env p then (if seen p s.visited then s else mark p s) else s in
      let first = seed_step p s (w p (seen_head p ps)) in
      let (later, marks) = seed-Grows u ps (λ q i. w q (seen_tail q p ps i)) in
      (
        Grows-trans s u (seed env u ps) first.0 later,
        λ q i wire. elim (seen-cons q p ps i) [
          | inl e ↦ rw e (later.keeps p (first.1 (rw (← e) wire)))
          | inr other ↦ marks q other wire
        ],
      )

  -- The loop over the neighbours, all of whose wires may be marked.
  pub expand-Grows :
      (s : Search) (ps : List Pos)
      → ((p : Pos) → seen p ps ≡ true → is_wire env p ≡ true → W p)
      → Grows s (expand env max_nodes s ps)
        × Full (expand env max_nodes s ps) ps
        × (length s.visited ≤ max_nodes
            → length (expand env max_nodes s ps).visited ≤ suc max_nodes)
  unfolding expand
  expand-Grows s [] w = (Grows-refl s, Full-nil s, λ h. omega arith)
  expand-Grows s (p ∷ ps) w =
      let later = λ (q : Pos) (i : seen q ps ≡ true). w q (seen_tail q p ps i) in
      let skipped = expand env max_nodes s ps in
      let on = expand env max_nodes (mark p s) ps in
      let skip = expand-Grows s ps later in
      let marked = expand-Grows (mark p s) ps later in
      elim (Bool-cases (seen p s.visited)) [
        | inl old ↦ rw old (skip.0, Full-cons skipped p ps (λ i. skip.0.keeps p old) skip.1, skip.2)
        | inr fresh ↦ elim (Bool-cases (is_wire env p)) [
          | inr other ↦ rw (fresh, other) (skip.0, Full-cons skipped p ps (λ i. cc) skip.1, skip.2)
          | inl wire ↦
              let step = Grows-mark p s fresh (w p (seen_head p ps) wire) in
              elim (Bool-cases (ltb max_nodes (length (mark p s).visited))) [
                | inl over ↦ rw (fresh, wire, over) (step, inl (ltb→lt _ _ over), size_mark p s)
                | inr room ↦
                    rw (fresh, wire, room)
                      (
                        Grows-trans s (mark p s) on step marked.0,
                        Full-cons on p ps (λ i. marked.0.keeps p (seen-mark p s)) marked.1,
                        λ h. marked.2 (ground arith),
                      )
              ]
        ]
      ]
