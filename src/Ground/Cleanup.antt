-- ===== src/Ground/Cleanup.antt =====
-- The clean-up removes the expired entities and no other.
use voxelcraft_ai.Prelude.{
  ℕ, ◌≡◌, refl, String, Option, none, some, List, [], ◌∷◌, str_eq, eq_iff, if◌then◌else◌, arith,
  Map, lookup, lookup-delete, ◌==◌,
}
use voxelcraft_ai.Kernel.Sort.{sort_strings, keys, times, times-sort_strings, times-keys}
use voxelcraft_ai.Ground.{
  ItemEntity, Ground, is_expired, expired, remove_found, remove, remove_all, cleanup_expired,
}

times-expired :
    (j : String) (ids : List String) (items : Map ItemEntity) (now : ℕ)
    → times j (expired ids items now) ≡ (if is_expired now (lookup j items) then times j ids else 0)
unfolding expired
times-expired j [] items now = ground arith
times-expired j (id ∷ ids) items now = ground (arith, times-expired j ids items now, eq_iff id j)

lookup-remove_found :
    (j id : String) (g : Ground) (found : Option ItemEntity)
    → lookup id g.items ≡ found
    → lookup j (remove_found id found g).items ≡ (if str_eq id j then none else lookup j g.items)
unfolding remove_found
lookup-remove_found j id g none f = ground (arith, eq_iff id j)
lookup-remove_found j id g (some e) f = lookup-delete id j g.items

lookup-remove_all :
    (j : String) (ids : List String) (g : Ground)
    → lookup j (remove_all ids g).items ≡ (if times j ids == 0 then lookup j g.items else none)
unfolding remove_all remove
lookup-remove_all j [] g = refl
lookup-remove_all j (id ∷ ids) g = ground (
  arith,
  lookup-remove_all j ids (remove id g),
  lookup-remove_found j id g (lookup id g.items) refl,
)

-- After the clean-up an entity is there, as it was, exactly if it was there and has not expired.
pub cleanup_expired_lem :
    (now : ℕ) (g : Ground) (id : String)
    → lookup id (cleanup_expired now g).items
      ≡ (if is_expired now (lookup id g.items) then none else lookup id g.items)
unfolding cleanup_expired
cleanup_expired_lem now g id =
    let all = expired (keys g.items) g.items now in
    ground (
      arith,
      lookup-remove_all id (sort_strings all) g,
      times-sort_strings id all,
      times-expired id (keys g.items) g.items now,
      times-keys id g.items,
    )
