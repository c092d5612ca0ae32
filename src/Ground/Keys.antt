-- ===== src/Ground/Keys.antt =====
-- The entities keep different ids, and only spawning takes a number.
use voxelcraft_ai.Prelude.{
  ℕ, ◌+◌, ◌≤◌, ◌<◌, String, Bool-cases, Option, none, some, [], ◌∷◌, str_eq, arith, Map, lookup,
  delete, lookup-delete, insert-HasDistinctKeys, HasDistinctKeys, le_int, word, inl, inr,
}
use voxelcraft_ai.Kernel.Vec.{Vec3i, same_pos}
use voxelcraft_ai.Ground.{
  ItemEntity, Ground, find_merge_target, merged, placed, spawn_at, spawn, remove_found, remove,
  move_found, move, new_item_entity_id,
}

delete-HasDistinctKeys :
    (id : String) (m : Map ItemEntity) → HasDistinctKeys m → HasDistinctKeys (delete id m)
unfolding delete
delete-HasDistinctKeys id [] d = tt
delete-HasDistinctKeys id ((k, e) ∷ m) d = elim (Bool-cases (str_eq k id)) [
  | inl hit ↦ rw hit (delete-HasDistinctKeys id m d.1)
  | inr miss ↦ rw miss (ground (arith, lookup-delete id k m), delete-HasDistinctKeys id m d.1)
]

-- The keys stay distinct, and at most so many numbers are taken.
pub record Tidy (g g' : Ground) (n : ℕ) : Type 0 where
  pub distinct : HasDistinctKeys g.items → HasDistinctKeys g'.items
  pub taken : g.next_item_num + n < word → g'.next_item_num ≤ g.next_item_num + n

Tidy-refl : (g : Ground) (n : ℕ) → Tidy g g n
Tidy-refl g n = record { distinct = λ d. d; taken = λ h. omega arith }

merged-Tidy :
    (now : ℕ) (id : String) (count : ℕ) (found : Option ItemEntity) (g : Ground)
    → Tidy g (merged now id count found g) 1
unfolding merged
merged-Tidy now id count none g = Tidy-refl g 1
merged-Tidy now id count (some e) g = record {
  distinct = λ d. insert-HasDistinctKeys id _ g.items d;
  taken = λ h. omega arith;
}

spawn_at-Tidy :
    (now : ℕ) (pos : Vec3i) (item : String) (count : ℕ) (target : Option String) (g : Ground)
    → Tidy g (spawn_at now pos item count target g).1 1
unfolding spawn_at placed new_item_entity_id
spawn_at-Tidy now pos item count (some id) g = merged-Tidy now id count (lookup id g.items) g
spawn_at-Tidy now pos item count none g = record {
  distinct = λ d. insert-HasDistinctKeys _ _ g.items d;
  taken = λ h. omega arith;
}

pub spawn-Tidy :
    (now : ℕ) (pos : Vec3i) (item : String) (count : ℕ) (g : Ground)
    → Tidy g (spawn now pos item count g).1 1
unfolding spawn
spawn-Tidy now pos item count g = elim (Bool-cases (str_eq item "")) [
  | inl blank ↦ rw blank (Tidy-refl g 1)
  | inr named ↦ elim (Bool-cases (le_int count 0)) [
    | inl nothing ↦ rw (named, nothing) (Tidy-refl g 1)
    | inr some_of_it ↦
        rw (named, some_of_it)
          (spawn_at-Tidy now pos item count (find_merge_target (g.items_at pos) item g.items) g)
  ]
]

remove_found-Tidy :
    (id : String) (found : Option ItemEntity) (g : Ground) → Tidy g (remove_found id found g) 0
unfolding remove_found
remove_found-Tidy id none g = Tidy-refl g 0
remove_found-Tidy id (some e) g = record {
  distinct = λ d. delete-HasDistinctKeys id g.items d;
  taken = λ h. omega arith;
}

pub remove-Tidy : (id : String) (g : Ground) → Tidy g (remove id g) 0
unfolding remove
remove-Tidy id g = remove_found-Tidy id (lookup id g.items) g

move_found-Tidy :
    (id : String) (to : Vec3i) (found : Option ItemEntity) (g : Ground)
    → Tidy g (move_found id to found g) 0
unfolding move_found
move_found-Tidy id to none g = Tidy-refl g 0
move_found-Tidy id to (some e) g = elim (Bool-cases (same_pos e.pos to)) [
  | inl here ↦ rw here (Tidy-refl g 0)
  | inr away ↦ rw away (record {
    distinct = λ d. insert-HasDistinctKeys id (record e { pos = to }) g.items d;
    taken = λ h. omega arith;
  })
]

pub move-Tidy : (id : String) (to : Vec3i) (g : Ground) → Tidy g (move id to g) 0
unfolding move
move-Tidy id to g = move_found-Tidy id to (lookup id g.items) g
