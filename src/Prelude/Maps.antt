-- ===== src/Prelude/Maps.antt =====
-- Go's `map[string]V` as an association list. Reading a missing key of `map[string]int` gives 0.
-- Go iterates over a map in any order: here in the order of the list, and the laws hold for each.
use Prim.Native.Nat.{ℕ}
use Prim.Native.String.{String}
use mathlib.Core.Path.{◌≡◌, refl, subst}
use mathlib.Core.Logic.{inl, inr}
use mathlib.Core.Bool.{false}
use mathlib.Core.Option.{Option, none, some, some-injective}
use mathlib.Core.List.{List, [], ◌∷◌}
use native.Mathlib.Omega.{arith}
use text.Mathlib.Text.{◌==◌ as str_eq}
use text.Mathlib.TextEquality.{eq_iff}
use text.Mathlib.TextPositions.{eq_refl}
use voxelcraft_ai.Prelude.Tests.{if◌then◌else◌, Bool-cases}
use voxelcraft_ai.Prelude.Lists.{All}

abbrev pub Map {ℓ} : Type ℓ → Type ℓ
Map V = List (String × V)

module _ {ℓ} {V : Type ℓ} where
  unfoldable pub lookup : (key : String) → Map V → Option V
  lookup key [] = none
  lookup key ((other, found) ∷ rest) =
      let later = lookup key rest in if str_eq other key then some found else later

  -- m[key] = value
  unfoldable pub insert : (key : String) (value : V) → Map V → Map V
  insert key value [] = (key, value) ∷ []
  insert key value ((other, old) ∷ rest) =
      let changed = insert key value rest in
      if str_eq other key then (key, value) ∷ rest else (other, old) ∷ changed

  -- delete(m, k)
  unfoldable pub delete : String → Map V → Map V
  delete k [] = []
  delete k ((j, v) ∷ m) = let rest = delete k m in if str_eq j k then rest else (j, v) ∷ rest

  pub lookup-insert :
      (key probe : String) (value : V) (m : Map V)
      → lookup probe (insert key value m)
        ≡ (if str_eq key probe then some value else lookup probe m)
  unfolding lookup insert
  lookup-insert key probe value [] = refl
  lookup-insert key probe value ((other, old) ∷ rest) = ground (
    arith,
    lookup-insert key probe value rest,
    eq_iff other key,
    eq_iff other probe,
    eq_iff key probe,
  )

  pub lookup-insert_self : (k : String) (v : V) (m : Map V) → lookup k (insert k v m) ≡ some v
  lookup-insert_self k v m = simp (lookup-insert, eq_refl)

  pub lookup-delete :
      (k j : String) (m : Map V) → lookup j (delete k m) ≡ (if str_eq k j then none else lookup j m)
  unfolding lookup delete
  lookup-delete k j [] = ground arith
  lookup-delete k j ((i, w) ∷ m) =
      ground (arith, eq_iff k j, eq_iff i k, eq_iff i j, lookup-delete k j m)

  -- The keys of a Go map are distinct.
  abbrev pub HasDistinctKeys : Map V → Type ℓ
  HasDistinctKeys [] = Unit
  HasDistinctKeys ((k, v) ∷ m) = (lookup k m ≡ none) × HasDistinctKeys m

module _ {ℓ} {V : Type ℓ} where
  insert_absent :
      (k j : String) (v : V) (m : Map V)
      → str_eq k j ≡ false
      → lookup j m ≡ none
      → lookup j (insert k v m) ≡ none
  insert_absent k j v m n h = rw (lookup-insert, n) h

  -- A write keeps the keys distinct.
  pub insert-HasDistinctKeys :
      (k : String) (v : V) (m : Map V) → HasDistinctKeys m → HasDistinctKeys (insert k v m)
  unfolding lookup insert
  insert-HasDistinctKeys k v [] d = (refl, tt)
  insert-HasDistinctKeys k v ((j, w) ∷ m) d =
      ground
        (arith, eq_iff j k, eq_iff k j, insert-HasDistinctKeys k v m d.1, insert_absent k j v m)

-- What holds of every value holds of a value that is found.
pub lookup-All {ℓ κ} :
    {V : Type ℓ} (P : V → Type κ) (k : String) (m : Map V) {v : V}
    → All (λ e. P e.1) m
    → lookup k m ≡ some v
    → P v
unfolding lookup
lookup-All P k [] a e = cc
lookup-All P k ((j, w) ∷ m) a e = elim (Bool-cases (str_eq j k)) [
  | inl hit ↦ subst P (some-injective _ _ (rw hit at e)) a.0
  | inr miss ↦ lookup-All P k m a.1 (rw miss at e)
]

-- `m[k]` of a map of numbers.
abbrev or_zero : Option ℕ → ℕ
or_zero none = 0
or_zero (some n) = n

unfoldable pub get : Map ℕ → String → ℕ
get m k = or_zero (lookup k m)

pub get-insert :
    (k j : String) (n : ℕ) (m : Map ℕ) → get (insert k n m) j ≡ (if str_eq k j then n else get m j)
unfolding get
get-insert k j n m = ground (arith, lookup-insert k j n m)

pub get-delete :
    (k j : String) (m : Map ℕ) → get (delete k m) j ≡ (if str_eq k j then 0 else get m j)
unfolding get
get-delete k j m = ground (arith, lookup-delete k j m)

pub get-empty : (k : String) → get [] k ≡ 0
unfolding get lookup
get-empty k = refl
