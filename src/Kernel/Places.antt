-- ===== src/Kernel/Places.antt =====
-- Sets of positions, which the source keeps as `map[Pos]bool` with entries that are all true, and the
-- four cells around a position (`cardinalDirs` of logic/conveyorpower/logic.go).
use voxelcraft_ai.Prelude.{
  ℕ, ◌-◌, ◌≡◌, ◌⊎◌, inl, inr, subst, Bool, true, false, ◌||◌, List, [], ◌∷◌, ◌++◌, arith, refl, All,
  word, add64, Bool-cases, sym,
}
use voxelcraft_ai.Kernel.Vec.{Vec3i, same_pos, same_pos-path, same_pos_refl}

unfoldable pub seen : Vec3i → List Vec3i → Bool
seen p [] = false
seen p (q ∷ qs) = same_pos p q || seen p qs

abbrev pub minus_one : ℕ
minus_one = word - 1

abbrev pub offset : Vec3i → ℕ → ℕ → Vec3i
offset p dx dz = record { x = add64 p.x dx; y = p.y; z = add64 p.z dz }

unfoldable pub neighbours : Vec3i → List Vec3i
neighbours p = offset p 1 0 ∷ offset p minus_one 0 ∷ offset p 0 1 ∷ offset p 0 minus_one ∷ []

abbrev pub Distinct : List Vec3i → Type 0
Distinct [] = Unit
Distinct (p ∷ ps) = (seen p ps ≡ false) × Distinct ps

pub seen_nil : (p : Vec3i) → seen p [] ≡ true → ⊥
unfolding seen
seen_nil p h = cc

pub Distinct-single : (p : Vec3i) → Distinct (p ∷ [])
unfolding seen
Distinct-single p = (refl, tt)

pub seen-append : (p : Vec3i) (ps qs : List Vec3i) → seen p (ps ++ qs) ≡ (seen p ps || seen p qs)
unfolding seen
seen-append p [] qs = refl
seen-append p (q ∷ ps) qs = ground (arith, seen-append p ps qs)

pub seen_head : (p : Vec3i) (ps : List Vec3i) → seen p (p ∷ ps) ≡ true
unfolding seen
seen_head p ps = rw (same_pos_refl p)

-- Who is in a list with one more place.
pub seen-cons :
    (p q : Vec3i) (ps : List Vec3i) → seen p (q ∷ ps) ≡ true → (p ≡ q) ⊎ (seen p ps ≡ true)
unfolding seen
seen-cons p q ps h = elim (Bool-cases (same_pos p q)) [
  | inl same ↦ inl (same_pos-path p q same)
  | inr other ↦ inr (rw other at h)
]

pub seen_tail : (p q : Vec3i) (ps : List Vec3i) → seen p ps ≡ true → seen p (q ∷ ps) ≡ true
unfolding seen
seen_tail p q ps h = ground arith

pub seen-concat_old :
    (p q : Vec3i) (ps : List Vec3i) → seen p ps ≡ true → seen p (ps ++ q ∷ []) ≡ true
seen-concat_old p q ps h = ground (arith, seen-append p ps (q ∷ []))

pub seen-concat_new : (q : Vec3i) (ps : List Vec3i) → seen q (ps ++ q ∷ []) ≡ true
seen-concat_new q ps = ground (arith, seen-append q ps (q ∷ []), seen_head q [])

pub seen-All {κ} :
    (P : Vec3i → Type κ) (p : Vec3i) (ps : List Vec3i) → All P ps → seen p ps ≡ true → P p
unfolding seen
seen-All P p [] a h = cc
seen-All P p (q ∷ ps) a h = elim (seen-cons p q ps h) [
  | inl e ↦ subst P (sym e) a.0
  | inr later ↦ seen-All P p ps a.1 later
]
