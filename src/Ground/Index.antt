-- ===== src/Ground/Index.antt =====
-- The index by position lists each entity where it lies, once.
use voxelcraft_ai.Prelude.{
  ℕ, ◌+◌, ◌-◌, ◌<◌, ◌≡◌, refl, inl, inr, String, Bool-cases, Option, Option-cases, none, some, List,
  [], ◌∷◌, ◌++◌, str_eq, eq_iff, if◌then◌else◌, arith, word, add64, lookup, lookup-insert,
  lookup-delete, ltb, le_int,
}
use voxelcraft_ai.Kernel.Vec.{Vec3i, same_pos, same_pos_refl, same_pos-path}
use voxelcraft_ai.Kernel.Format.{numbered}
use voxelcraft_ai.Kernel.Format.Injective.{numbered_injective}
use voxelcraft_ai.Kernel.Sort.{sort_strings, keys, times}
use voxelcraft_ai.Ground.{
  ItemEntity, Ground, put_ids, remove_id, placed, merged, remove_found, move_found, remove, move,
  remove_all, cleanup_expired, expired, spawn, spawn_at, find_merge_target, new_item_entity_id,
  entity_ttl_ticks_default,
}

-- How often it should be at a position.
abbrev pub due : Vec3i → Option ItemEntity → ℕ
due p none = 0
due p (some e) = if same_pos e.pos p then 1 else 0

pub record IsIndexed (g : Ground) : Type 0 where
  pub listed : (id : String) (p : Vec3i) → times id (g.items_at p) ≡ due p (lookup id g.items)
  pub owned : (id : String) (e : ItemEntity) → lookup id g.items ≡ some e → e.entity_id ≡ id
  -- The ids that are still to come are free.
  pub free : (n : ℕ) → g.next_item_num < n → n < word → lookup (numbered "IT" n) g.items ≡ none

times-append : (id : String) (xs ys : List String) → times id (xs ++ ys) ≡ times id xs + times id ys
times-append id [] ys = omega arith
times-append id (x ∷ xs) ys = omega (arith, times-append id xs ys)

times-remove_id :
    (id gone : String) (ids : List String)
    → times id (remove_id ids gone) ≡ times id ids - (if str_eq gone id then 1 else 0)
unfolding remove_id
times-remove_id id gone [] = ground arith
times-remove_id id gone (x ∷ xs) =
    ground (arith, times-remove_id id gone xs, eq_iff x gone, eq_iff x id, eq_iff gone id)

module _ (g : Ground) (v : IsIndexed g) where
  remove_found-IsIndexed :
      (id : String) (found : Option ItemEntity)
      → lookup id g.items ≡ found
      → IsIndexed (remove_found id found g)
  unfolding remove_found put_ids
  remove_found-IsIndexed id none f = v
  remove_found-IsIndexed id (some e) f = record {
    listed = λ j p. ground (
      arith,
      times-remove_id j id (g.items_at e.pos),
      lookup-delete id j g.items,
      v.listed j e.pos,
      v.listed j p,
      eq_iff id j,
      same_pos-path p e.pos,
      same_pos_refl p,
    );
    owned = λ j d h. ground (arith, lookup-delete id j g.items, v.owned j d);
    free = λ n a b. ground (arith, lookup-delete id (numbered "IT" n) g.items, v.free n);
  }

  -- With its index rewritten below.
  move_found-IsIndexed :
      (id : String) (to : Vec3i) (found : Option ItemEntity)
      → lookup id g.items ≡ found
      → IsIndexed (move_found id to found g)
  unfolding move_found put_ids
  move_found-IsIndexed id to none f = v
  move_found-IsIndexed id to (some e) f = elim (Bool-cases (same_pos e.pos to)) [
    | inl here ↦ rw here v
    | inr away ↦ rw away (record {
      listed = λ j p. ground (
        arith,
        times-remove_id j id (g.items_at e.pos),
        times-append j (g.items_at to) (id ∷ []),
        lookup-insert id j (record e { pos = to }) g.items,
        v.listed j e.pos,
        v.listed j p,
        v.listed j to,
        eq_iff id j,
        same_pos-path p e.pos,
        same_pos-path p to,
        same_pos_refl p,
      );
      owned = λ j d h. ground (
        arith,
        lookup-insert id j (record e { pos = to }) g.items,
        v.owned j d,
        v.owned id e,
        eq_iff id j,
      );
      free = λ n a b. ground (
        arith,
        lookup-insert id (numbered "IT" n) (record e { pos = to }) g.items,
        v.free n,
        eq_iff id (numbered "IT" n),
      );
    })
  ]

  merged-IsIndexed :
      (now : ℕ) (id : String) (count : ℕ) (found : Option ItemEntity)
      → lookup id g.items ≡ found
      → IsIndexed (merged now id count found g)
  unfolding merged
  merged-IsIndexed now id count none f = v
  merged-IsIndexed now id count (some e) f =
      let exp = add64 now entity_ttl_ticks_default in
      let e' : ItemEntity = record e {
        count = add64 e.count count;
        expires_tick = if ltb e.expires_tick exp then exp else e.expires_tick;
      } in
      record {
        listed = λ j p. ground (arith, lookup-insert id j e' g.items, v.listed j p, eq_iff id j);
        owned = λ j d h.
            ground (arith, lookup-insert id j e' g.items, v.owned j d, v.owned id e, eq_iff id j);
        free = λ n a b. ground (
          arith,
          lookup-insert id (numbered "IT" n) e' g.items,
          v.free n,
          eq_iff id (numbered "IT" n),
        );
      }

  -- While ids last, a new entity gets one that is free.
  spawned-IsIndexed :
      (now : ℕ) (pos : Vec3i) (item : String) (count : ℕ)
      → g.next_item_num + 1 < word
      → let (id, g') = new_item_entity_id g in IsIndexed (placed now pos item count id g')
  unfolding new_item_entity_id placed put_ids
  spawned-IsIndexed now pos item count room =
      let num : add64 g.next_item_num 1 ≡ g.next_item_num + 1 = omega arith in
      let id = numbered "IT" (add64 g.next_item_num 1) in
      let fresh : lookup id g.items ≡ none =
        v.free (add64 g.next_item_num 1) (omega arith) (omega arith) in
      let e : ItemEntity = record {
        entity_id = id;
        pos = pos;
        item = item;
        count = count;
        created_tick = now;
        expires_tick = add64 now entity_ttl_ticks_default;
      } in
      record {
        listed = λ j p. ground (
          arith,
          times-append j (g.items_at pos) (id ∷ []),
          lookup-insert id j e g.items,
          v.listed j p,
          v.listed j pos,
          eq_iff id j,
          same_pos-path p pos,
          same_pos_refl p,
        );
        owned = λ j d h. ground (arith, lookup-insert id j e g.items, v.owned j d, eq_iff id j);
        free = λ n a b. ground (
          arith,
          lookup-insert id (numbered "IT" n) e g.items,
          v.free n,
          eq_iff id (numbered "IT" n),
          numbered_injective "IT" (add64 g.next_item_num 1) n,
        );
      }

  pub spawn-IsIndexed :
      (now : ℕ) (pos : Vec3i) (item : String) (count : ℕ)
      → g.next_item_num + 1 < word
      → IsIndexed (spawn now pos item count g).1
  unfolding spawn spawn_at
  spawn-IsIndexed now pos item count room = elim (Bool-cases (str_eq item "")) [
    | inl blank ↦ rw blank v
    | inr named ↦ elim (Bool-cases (le_int count 0)) [
      | inl nothing ↦ rw (named, nothing) v
      | inr some_of_it ↦
          rw (named, some_of_it)
            (elim (Option-cases (find_merge_target (g.items_at pos) item g.items)) [
              | inl no_target ↦ rw no_target (spawned-IsIndexed now pos item count room)
              | inr (id, target) ↦
                  rw target (merged-IsIndexed now id count (lookup id g.items) refl)
            ])
    ]
  ]

  pub remove-IsIndexed : (id : String) → IsIndexed (remove id g)
  unfolding remove
  remove-IsIndexed id = remove_found-IsIndexed id (lookup id g.items) refl

  pub move-IsIndexed : (id : String) (to : Vec3i) → IsIndexed (move id to g)
  unfolding move
  move-IsIndexed id to = move_found-IsIndexed id to (lookup id g.items) refl

pub remove_all-IsIndexed :
    (ids : List String) (g : Ground) → IsIndexed g → IsIndexed (remove_all ids g)
unfolding remove_all
remove_all-IsIndexed [] g v = v
remove_all-IsIndexed (id ∷ ids) g v =
    remove_all-IsIndexed ids (remove id g) (remove-IsIndexed g v id)

pub cleanup_expired-IsIndexed :
    (now : ℕ) (g : Ground) → IsIndexed g → IsIndexed (cleanup_expired now g)
unfolding cleanup_expired
cleanup_expired-IsIndexed now g v =
    remove_all-IsIndexed (sort_strings (expired (keys g.items) g.items now)) g v
