-- ===== src/Kernel/Sort.antt =====
-- What the code uses of Go's package sort, on texts: `sort.Strings`, on the keys of a map.
use Prim.Native.String.{compare}
use Prim.Native.Nat.{Ordering}
use mathlib.Core.Option.{some-injective}
use voxelcraft_ai.Prelude.{
  ℕ, ◌+◌, ◌<◌, ◌⊎◌, inl, inr, refl, sym, ap, ◌∙◌, String, List, [], ◌∷◌, Map, lookup, Option, none,
  some, ◌≡◌, All, subst, Bool-cases, str_eq, eq_iff, if◌then◌else◌, arith, HasDistinctKeys,
}

unfoldable pub place : String → List String → List String
place id [] = id ∷ []
place id (other ∷ ids) =
    let rest = place id ids in
    elim (compare id other) [ Ordering.gt ↦ other ∷ rest | _ ↦ id ∷ other ∷ ids ]

unfoldable pub sort_strings : List String → List String
unfolding place
sort_strings [] = []
sort_strings (id ∷ ids) = place id (sort_strings ids)

unfoldable pub keys {ℓ} : {V : Type ℓ} → Map V → List String
keys [] = []
keys ((k, v) ∷ m) = k ∷ keys m

-- The first of a list, if there is one.
abbrev pub first_of : List String → Option String
first_of [] = none
first_of (item ∷ items) = some item

module _ {κ} (P : String → Type κ) where
  All-place : (id : String) (ids : List String) → P id → All P ids → All P (place id ids)
  unfolding place
  All-place id [] p h = (p, tt)
  All-place id (other ∷ ids) p h =
      elim (compare id other)
        as (λ o. All P (elim o [ Ordering.gt ↦ other ∷ place id ids | _ ↦ id ∷ other ∷ ids ])) [
          | Ordering.gt ↦ (h.0, All-place id ids p h.1)
          | _ ↦ (p, h)
        ]

  pub All-sort_strings : (ids : List String) → All P ids → All P (sort_strings ids)
  unfolding sort_strings
  All-sort_strings [] h = tt
  All-sort_strings (id ∷ ids) h = All-place id (sort_strings ids) h.0 (All-sort_strings ids h.1)

  pub first-All : (ids : List String) (id : String) → All P ids → first_of ids ≡ some id → P id
  first-All [] id h e = cc
  first-All (other ∷ ids) id h e = subst P (some-injective _ _ e) h.0

-- How often an id is listed.
abbrev pub times : String → List String → ℕ
times id [] = 0
times id (other ∷ ids) = (if str_eq other id then 1 else 0) + times id ids

times-place :
    (j id : String) (ids : List String)
    → times j (place id ids) ≡ (if str_eq id j then 1 else 0) + times j ids
unfolding place
times-place j id [] = refl
times-place j id (other ∷ ids) = ground (arith, times-place j id ids)

pub times-sort_strings : (j : String) (ids : List String) → times j (sort_strings ids) ≡ times j ids
unfolding sort_strings
times-sort_strings j [] = refl
times-sort_strings j (id ∷ ids) =
    ground (arith, times-place j id (sort_strings ids), times-sort_strings j ids)

-- A key of a map has an entry, and an entry has a key.
pub times-keys {ℓ} :
    {V : Type ℓ} (j : String) (m : Map V) → (lookup j m ≡ none) ⊎ (0 < times j (keys m))
unfolding keys lookup
times-keys j [] = inl refl
times-keys j ((k, v) ∷ m) = elim (Bool-cases (str_eq k j)) [
  | inl hit ↦ inr (rw hit (omega arith))
  | inr miss ↦ elim (times-keys j m) [
    | inl gone ↦ inl (rw (miss, gone))
    | inr more ↦ inr (rw miss (omega arith))
  ]
]

times-keys_absent {ℓ} :
    {V : Type ℓ} (j : String) (m : Map V) → lookup j m ≡ none → times j (keys m) ≡ 0
unfolding keys lookup
times-keys_absent j [] h = refl
times-keys_absent j ((k, v) ∷ m) h = elim (Bool-cases (str_eq k j)) [
  | inl hit ↦ cc (rw hit at h)
  | inr miss ↦ rw miss (omega (arith, times-keys_absent j m (rw miss at h)))
]

-- The keys of a Go map are distinct, and each is listed once.
pub times-keys_once {ℓ} :
    {V : Type ℓ} (j : String) (v : V) (m : Map V)
    → HasDistinctKeys m
    → lookup j m ≡ some v
    → times j (keys m) ≡ 1
unfolding keys lookup
times-keys_once j v [] d h = cc
times-keys_once j v ((k, w) ∷ m) d h = elim (Bool-cases (str_eq k j)) [
  | inl hit ↦
      let gone = ap (λ i. lookup i m) (sym ((eq_iff k j).0 hit)) ∙ d.0 in
      rw hit (omega (arith, times-keys_absent j m gone))
  | inr miss ↦ rw miss (omega (arith, times-keys_once j v m d.1 (rw miss at h)))
]
