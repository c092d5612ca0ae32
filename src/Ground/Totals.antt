-- ===== src/Ground/Totals.antt =====
-- How much of an item lies in the world.
use voxelcraft_ai.Prelude.{
  ℕ, ◌+◌, ◌<◌, ◌≤◌, ◌≡◌, refl, ◌∙◌, ap, sym, subst, inl, inr, String, true, false, Bool-cases,
  Option, Option-cases, none, some, List, [], ◌∷◌, str_eq, eq_iff, if◌then◌else◌, arith, Map,
  lookup, insert, delete, HasDistinctKeys, word, add64, le_int, ltb,
}
use mathlib.Core.Option.{some-injective}
use voxelcraft_ai.Kernel.Vec.{Vec3i, same_pos}
use voxelcraft_ai.Kernel.Format.{numbered}
use voxelcraft_ai.Ground.{
  ItemEntity, Ground, find_in, find_merge_target, matches_item, own_id, merged, placed, spawn_at,
  spawn, remove_found, remove, move_found, move, new_item_entity_id, entity_ttl_ticks_default,
}
use voxelcraft_ai.Ground.Index.{IsIndexed}

-- What an entity has of an item.
abbrev pub amount : String → Option ItemEntity → ℕ
amount j none = 0
amount j (some e) = if str_eq e.item j then e.count else 0

abbrev pub lying : String → Map ItemEntity → ℕ
lying j [] = 0
lying j ((id, e) ∷ m) = amount j (some e) + lying j m

lying-insert :
    (j id : String) (e : ItemEntity) (m : Map ItemEntity)
    → lying j (insert id e m) + amount j (lookup id m) ≡ lying j m + amount j (some e)
unfolding insert lookup
lying-insert j id e [] = omega arith
lying-insert j id e ((k, d) ∷ m) = elim (Bool-cases (str_eq k id)) [
  | inl hit ↦ rw hit (omega arith)
  | inr miss ↦ rw miss (omega (arith, lying-insert j id e m))
]

lying-delete_absent :
    (j id : String) (m : Map ItemEntity) → lookup id m ≡ none → lying j (delete id m) ≡ lying j m
unfolding delete lookup
lying-delete_absent j id [] h = refl
lying-delete_absent j id ((k, d) ∷ m) h = elim (Bool-cases (str_eq k id)) [
  | inl hit ↦ absurd (cc (rw hit at h))
  | inr miss ↦ rw miss (omega (arith, lying-delete_absent j id m (rw miss at h)))
]

lying-delete :
    (j id : String) (m : Map ItemEntity)
    → HasDistinctKeys m
    → lying j (delete id m) + amount j (lookup id m) ≡ lying j m
unfolding delete lookup
lying-delete j id [] d = refl
lying-delete j id ((k, e) ∷ m) d = elim (Bool-cases (str_eq k id)) [
  | inl hit ↦ rw hit (
      omega (
        arith,
        lying-delete_absent j id m (subst (λ l. lookup l m ≡ none) ((eq_iff k id).0 hit) d.0),
      ))
  | inr miss ↦ rw miss (omega (arith, lying-delete j id m d.1))
]

-- An entity has not more than there is.
pub amount-le : (j id : String) (m : Map ItemEntity) → amount j (lookup id m) ≤ lying j m
unfolding lookup
amount-le j id [] = omega arith
amount-le j id ((k, e) ∷ m) = elim (Bool-cases (str_eq k id)) [
  | inl hit ↦ rw hit (omega arith)
  | inr miss ↦ rw miss (omega (arith, amount-le j id m))
]

module _ (g : Ground) (j : String) where
  lying-remove_found :
      (id : String) (found : Option ItemEntity)
      → lookup id g.items ≡ found
      → HasDistinctKeys g.items
      → lying j (remove_found id found g).items + amount j found ≡ lying j g.items
  unfolding remove_found
  lying-remove_found id none f d = omega arith
  lying-remove_found id (some e) f d =
      ap (λ o. lying j (delete id g.items) + amount j o) (sym f) ∙ lying-delete j id g.items d

  -- Removing an entity takes away what it has.
  pub lying-remove :
      (id : String)
      → HasDistinctKeys g.items
      → lying j (remove id g).items + amount j (lookup id g.items) ≡ lying j g.items
  unfolding remove
  lying-remove id d = lying-remove_found id (lookup id g.items) refl d

  lying-move_found :
      (id : String) (to : Vec3i) (found : Option ItemEntity)
      → lookup id g.items ≡ found
      → lying j (move_found id to found g).items ≡ lying j g.items
  unfolding move_found
  lying-move_found id to none f = refl
  lying-move_found id to (some e) f = elim (Bool-cases (same_pos e.pos to)) [
    | inl here ↦ rw here refl
    | inr away ↦
        rw away (omega (arith, lying-insert j id (record e { pos = to }) g.items, ap (amount j) f))
  ]

  pub lying-move : (id : String) (to : Vec3i) → lying j (move id to g).items ≡ lying j g.items
  unfolding move
  lying-move id to = lying-move_found id to (lookup id g.items) refl

  -- What a merge finds is an entity of the item, under its id.
  IsTarget : String → String → Type 0
  IsTarget item id = (e : ItemEntity) × (lookup id g.items ≡ some e) × (e.item ≡ item)

  IsTarget-of :
      (item id : String) (found : Option ItemEntity)
      → ((e : ItemEntity) → found ≡ some e → lookup e.entity_id g.items ≡ some e)
      → matches_item item found ≡ true
      → own_id found ≡ some id
      → IsTarget item id
  unfolding matches_item own_id IsTarget
  IsTarget-of item id none h m o = cc
  IsTarget-of item id (some e) h m o = (
    e,
    subst (λ i. lookup i g.items ≡ some e) (some-injective _ _ o) (h e refl),
    ground (arith, eq_iff e.item item),
  )

  find_in-IsTarget :
      (ids : List String) (item id : String)
      → IsIndexed g
      → find_in ids item g.items ≡ some id
      → IsTarget item id
  unfolding find_in
  find_in-IsTarget [] item id v h = cc
  find_in-IsTarget (other ∷ ids) item id v h =
      elim (Bool-cases (matches_item item (lookup other g.items))) [
        | inl hit ↦
            IsTarget-of item id (lookup other g.items)
              (λ e f. subst (λ i. lookup i g.items ≡ some e) (sym (v.owned other e f)) f) hit
              (rw hit at h)
        | inr miss ↦ find_in-IsTarget ids item id v (rw miss at h)
      ]

  lying-merged :
      (now : ℕ) (item id : String) (count : ℕ)
      → IsTarget item id
      → lying j g.items + count < word
      → lying j (merged now id count (lookup id g.items) g).items
        ≡ lying j g.items + (if str_eq item j then count else 0)
  unfolding merged IsTarget
  lying-merged now item id count (e, f, same) small =
      let exp = add64 now entity_ttl_ticks_default in
      let e' : ItemEntity = record e {
        count = add64 e.count count;
        expires_tick = if ltb e.expires_tick exp then exp else e.expires_tick;
      } in
      let had = amount-le j id g.items in
      let now_has = lying-insert j id e' g.items in
      rw f (ground (arith, now_has, had, f, eq_iff item j, eq_iff e.item j))

  placed_lying :
      (now : ℕ) (pos : Vec3i) (item : String) (count : ℕ)
      → IsIndexed g
      → g.next_item_num + 1 < word
      → let (id, g') = new_item_entity_id g in
        lying j (placed now pos item count id g').items
        ≡ lying j g.items + (if str_eq item j then count else 0)
  unfolding placed new_item_entity_id
  placed_lying now pos item count v room =
      let n = add64 g.next_item_num 1 in
      let id = numbered "IT" n in
      let fresh : lookup id g.items ≡ none = v.free n (omega arith) (omega arith) in
      let e : ItemEntity = record {
        entity_id = id;
        pos = pos;
        item = item;
        count = count;
        created_tick = now;
        expires_tick = add64 now entity_ttl_ticks_default;
      } in
      omega (arith, lying-insert j id e g.items, ap (amount j) fresh)

  find_named :
      (item : String) (ids : List String)
      → str_eq item "" ≡ false
      → find_merge_target ids item g.items ≡ find_in ids item g.items
  unfolding find_merge_target
  find_named item ids named = rw named refl

  -- Spawning adds the count, whether it is merged or placed.
  pub lying-spawn :
      (now : ℕ) (pos : Vec3i) (item : String) (count : ℕ)
      → IsIndexed g
      → g.next_item_num + 1 < word
      → str_eq item "" ≡ false
      → le_int count 0 ≡ false
      → lying j g.items + count < word
      → lying j (spawn now pos item count g).1.items
        ≡ lying j g.items + (if str_eq item j then count else 0)
  unfolding spawn spawn_at
  lying-spawn now pos item count v room named positive small =
      elim (Option-cases (find_merge_target (g.items_at pos) item g.items)) [
        | inl no_target ↦ rw (named, positive, no_target) (placed_lying now pos item count v room)
        | inr (id, target) ↦
            let found =
              find_in-IsTarget (g.items_at pos) item id v
                (sym (find_named item (g.items_at pos) named) ∙ target) in
            rw (named, positive, target) (lying-merged now item id count found small)
      ]
