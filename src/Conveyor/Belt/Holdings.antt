-- ===== src/Conveyor/Belt/Holdings.antt =====
-- What lies on the ground and is stored in containers, together.
use voxelcraft_ai.Prelude.{
  ℕ, ◌+◌, ◌<◌, ◌≤◌, ◌≡◌, refl, ap, sym, subst, ◌∙◌, String, true, false, Bool-cases, inl, inr,
  Option, none, some, List, [], ◌∷◌, arith, half, get, HasDistinctKeys,
}
use voxelcraft_ai.Kernel.Vec.{Vec3i, same_pos, same_pos-path, same_pos_refl}
use voxelcraft_ai.Kernel.Places.{seen, Distinct, seen-cons, seen_nil}
use voxelcraft_ai.Contracts.Container.{Container}
use voxelcraft_ai.Ground.Index.{IsIndexed}
use voxelcraft_ai.Ground.Totals.{lying}
use voxelcraft_ai.Conveyor.Belt.{Belt, put_at}

module _ (j : String) where
  abbrev pub stock : Option Container → ℕ
  stock none = 0
  stock (some c) = get c.inventory j

  -- In the containers at the positions.
  abbrev pub stored : List Vec3i → Belt → ℕ
  stored [] b = 0
  stored (p ∷ ps) b = stock (b.containers p) + stored ps b

  module _ (p : Vec3i) (c : Container) (b : Belt) where
    stored-put_at_away :
        (ps : List Vec3i) → seen p ps ≡ false → stored ps (put_at p c b) ≡ stored ps b
    unfolding put_at seen
    stored-put_at_away [] h = refl
    stored-put_at_away (q ∷ ps) h =
        ground (arith, stored-put_at_away ps, same_pos-path q p, same_pos_refl p)

    -- A write replaces what is stored at the position.
    pub stored-put_at :
        (ps : List Vec3i)
        → Distinct ps
        → seen p ps ≡ true
        → stored ps (put_at p c b) + stock (b.containers p) ≡ stored ps b + get c.inventory j
    unfolding put_at seen
    stored-put_at [] d h = absurd (seen_nil p h)
    stored-put_at (q ∷ ps) d h = elim (Bool-cases (same_pos q p)) [
      | inl hit ↦
          let e = same_pos-path q p hit in
          let away : seen p ps ≡ false = subst (λ r. seen r ps ≡ false) e d.0 in
          rw (hit, e) (omega (arith, stored-put_at_away ps away))
      | inr miss ↦ rw miss (
          omega (
            arith,
            stored-put_at ps d.1 (elim (seen-cons p q ps h) [
              | inl e ↦ absurd (cc (sym miss ∙ ap (λ r. same_pos q r) e ∙ same_pos_refl q))
              | inr later ↦ later
            ]),
          ))
    ]

  -- One container has no more than all.
  pub stock-le :
      (p : Vec3i) (b : Belt) (ps : List Vec3i)
      → seen p ps ≡ true
      → stock (b.containers p) ≤ stored ps b
  unfolding seen
  stock-le p b [] h = absurd (seen_nil p h)
  stock-le p b (q ∷ ps) h = elim (seen-cons p q ps h) [
    | inl e ↦ omega (arith, ap (λ r. stock (b.containers r)) e)
    | inr later ↦ omega (arith, stock-le p b ps later)
  ]

  -- The positions are those of all containers.
  module _ (ps : List Vec3i) where
    unfoldable pub holdings : Belt → ℕ
    holdings b = lying j b.ground.items + stored ps b

    pub record IsSound (b : Belt) : Type 0 where
      pub indexed : IsIndexed b.ground
      pub distinct : HasDistinctKeys b.ground.items
      pub covered : (p : Vec3i) (c : Container) → b.containers p ≡ some c → seen p ps ≡ true
      pub bounded : holdings b < half
      -- What is reserved for contracts is there.
      pub backed :
          (p : Vec3i) (c : Container)
          → b.containers p ≡ some c
          → get c.reserved j ≤ get c.inventory j

    -- A step keeps all that, moves the item about, and takes at most so many numbers for entities.
    pub record Keeps (n : ℕ) (b b' : Belt) : Type 0 where
      pub sound : IsSound b'
      pub same : holdings b' ≡ holdings b
      pub taken : b'.ground.next_item_num ≤ b.ground.next_item_num + n

    pub Keeps-refl : (n : ℕ) (b : Belt) → IsSound b → Keeps n b b
    Keeps-refl n b s = record { sound = s; same = refl; taken = omega arith }
