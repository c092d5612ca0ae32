-- ===== src/Conveyor/Belt/Writes.antt =====
-- What a write to a container or to the ground keeps.
use voxelcraft_ai.Prelude.{
  ℕ, ◌+◌, ◌<◌, ◌≤◌, ◌≡◌, refl, ap, subst, ◌∙◌, String, true, Bool-cases, inl, inr, some, List, [],
  ◌∷◌, arith, half, get, HasDistinctKeys,
}
use mathlib.Core.Option.{some-injective}
use voxelcraft_ai.Kernel.Vec.{Vec3i, same_pos, same_pos-path}
use voxelcraft_ai.Kernel.Places.{seen, Distinct}
use voxelcraft_ai.Contracts.Container.{Container}
use voxelcraft_ai.Ground.{Ground}
use voxelcraft_ai.Ground.Index.{IsIndexed}
use voxelcraft_ai.Ground.Totals.{lying}
use voxelcraft_ai.Conveyor.Belt.{Belt, put_at}
use voxelcraft_ai.Conveyor.Belt.Holdings.{
  stock, stored, stored-put_at, stock-le, holdings, IsSound, Keeps,
}

module _ (j : String) (ps : List Vec3i) (distinct : Distinct ps) where
  stored_ground :
      (qs : List Vec3i) (b : Belt) (g : Ground)
      → stored j qs (record b { ground = g }) ≡ stored j qs b
  stored_ground [] b g = refl
  stored_ground (q ∷ qs) b g = omega (arith, stored_ground qs b g)

  -- The container at `p` is written, with at least what is reserved of the item.
  pub covered_after :
      (p : Vec3i) (c0 c : Container) (b : Belt)
      → IsSound j ps b
      → b.containers p ≡ some c0
      → (q : Vec3i) (d : Container) → (put_at p c b).containers q ≡ some d
      → seen q ps ≡ true
  unfolding put_at
  covered_after p c0 c b s e q d h = elim (Bool-cases (same_pos q p)) [
    | inl hit ↦ rw (same_pos-path q p hit) (s.covered p c0 e)
    | inr miss ↦ s.covered q d (rw miss at h)
  ]

  pub backed_after :
      (p : Vec3i) (c : Container) (b : Belt)
      → IsSound j ps b
      → get c.reserved j ≤ get c.inventory j
      → (q : Vec3i) (d : Container) → (put_at p c b).containers q ≡ some d
      → get d.reserved j ≤ get d.inventory j
  unfolding put_at
  backed_after p c b s r q d h = elim (Bool-cases (same_pos q p)) [
    | inl hit ↦
        let e : c ≡ d = some-injective _ _ (rw hit at h) in
        subst (λ (x : Container). get x.reserved j ≤ get x.inventory j) e r
    | inr miss ↦ s.backed q d (rw miss at h)
  ]

  -- The entities change, and together have as much of the item.
  pub kept_ground :
      (n : ℕ) (b : Belt) (g : Ground)
      → IsSound j ps b
      → IsIndexed g
      → HasDistinctKeys g.items
      → lying j g.items ≡ lying j b.ground.items
      → g.next_item_num ≤ b.ground.next_item_num + n
      → Keeps j ps n b (record b { ground = g })
  unfolding holdings
  kept_ground n b g s v d e t = record {
    sound = record {
      indexed = v;
      distinct = d;
      covered = s.covered;
      bounded = omega (arith, stored_ground ps b g);
      backed = s.backed;
    };
    same = omega (arith, stored_ground ps b g);
    taken = t;
  }

  -- The container at `p` changes too, by as much as the entities together.
  pub kept_store :
      (n : ℕ) (b : Belt) (g : Ground) (p : Vec3i) (c0 c : Container)
      → IsSound j ps b
      → b.containers p ≡ some c0
      → IsIndexed g
      → HasDistinctKeys g.items
      → get c.reserved j ≤ get c.inventory j
      → lying j g.items + get c.inventory j ≡ lying j b.ground.items + get c0.inventory j
      → g.next_item_num ≤ b.ground.next_item_num + n
      → Keeps j ps n b (record (put_at p c b) { ground = g })
  unfolding holdings
  kept_store n b g p c0 c s f v d r e t =
      let sum = stored-put_at j p c b ps distinct (s.covered p c0 f) in
      let there = ap (stock j) f in
      let moved = stored_ground ps (put_at p c b) g in
      record {
        sound = record {
          indexed = v;
          distinct = d;
          covered = covered_after p c0 c b s f;
          bounded = omega arith;
          backed = backed_after p c b s r;
        };
        same = omega arith;
        taken = t;
      }

  -- The bound on all holds for each part.
  pub enough_room :
      (b : Belt) (p : Vec3i) (c : Container)
      → IsSound j ps b
      → b.containers p ≡ some c
      → lying j b.ground.items + get c.inventory j < half
  unfolding holdings
  enough_room b p c s f =
      omega (arith, s.bounded, stock-le j p b ps (s.covered p c f), ap (stock j) f)

  pub Keeps-trans :
      (m n k : ℕ) (a b c : Belt)
      → m + n ≤ k
      → Keeps j ps m a b
      → Keeps j ps n b c
      → Keeps j ps k a c
  Keeps-trans m n k a b c le h i = record {
    sound = i.sound;
    same = i.same ∙ h.same;
    taken = omega (arith, h.taken, i.taken);
  }
