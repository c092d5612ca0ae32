-- ===== src/Contracts/Lifecycle/Deposits.antt =====
-- The scaled deposit of feature/contracts/lifecycle/logic.go and reputation/reputation.go.
use voxelcraft_ai.Prelude.{
  ℕ, ◌*◌, ◌<◌, ◌≡◌, ◌⊎◌, inl, inr, Bool-cases, refl, String, ◌||◌, none, [], ◌∷◌, arith, str_eq,
  if◌then◌else◌, half, mul64, le_int, Map, HasDistinctKeys, All, lookup,
}
use voxelcraft_ai.Economy.Inventory.Transfer.{IsPositive}
use voxelcraft_ai.Contracts.Lifecycle.{scale_by, scale_deposit, deposit_multiplier}

abbrev pub Scales : ℕ → Map ℕ → Type 0
Scales factor = All (λ e. e.1 * factor < half)

-- The multipliers of `DepositMultiplier`.
abbrev IsMultiplier : ℕ → Type 0
IsMultiplier factor = (factor ≡ 1) ⊎ ((factor ≡ 2) ⊎ (factor ≡ 3))

multiplied :
    (factor n : ℕ)
    → IsMultiplier factor
    → 0 < n
    → n * factor < half
    → (0 < mul64 n factor) × (mul64 n factor < half)
multiplied factor n (inl one) p b = rw one (omega (arith, p, (rw one at b)))
multiplied factor n (inr (inl two)) p b = rw two (omega (arith, p, (rw two at b)))
multiplied factor n (inr (inr three)) p b = rw three (omega (arith, p, (rw three at b)))

module _ (factor : ℕ) (p : IsMultiplier factor) where
  lookup-scale_by :
      (base : Map ℕ) (j : String) → lookup j base ≡ none → lookup j (scale_by factor base) ≡ none
  unfolding scale_by lookup
  lookup-scale_by [] j e = refl
  lookup-scale_by ((item, n) ∷ base) j e = ground (arith, lookup-scale_by base j)

  scale_by-IsPositive :
      (base : Map ℕ)
      → HasDistinctKeys base
      → IsPositive base
      → Scales factor base
      → HasDistinctKeys (scale_by factor base) × IsPositive (scale_by factor base)
  unfolding scale_by lookup
  scale_by-IsPositive [] d a s = (tt, tt)
  scale_by-IsPositive ((item, n) ∷ base) d a s =
      let rest = scale_by-IsPositive base d.1 a.1 s.1 in
      elim (Bool-cases (str_eq item "" || le_int n 0)) [
        | inl left_out ↦ rw left_out rest
        | inr kept ↦
            rw kept
              ((lookup-scale_by base item d.0, rest.0), (multiplied factor n p a.0.0 s.0, rest.1))
      ]

deposit_multiplier-IsMultiplier : (rep : ℕ) → IsMultiplier (deposit_multiplier rep)
unfolding deposit_multiplier
deposit_multiplier-IsMultiplier rep = ground arith

-- A deposit that can be tripled without overflow.
abbrev pub Triples : Map ℕ → Type 0
Triples = All (λ e. e.1 * 3 < half)

Triples-Scales :
    (factor : ℕ) (base : Map ℕ) → IsMultiplier factor → Triples base → Scales factor base
Triples-Scales factor [] p t = tt
Triples-Scales factor ((item, n) ∷ base) p t = (bounded p, Triples-Scales factor base p t.1)
  where
    bounded : IsMultiplier factor → n * factor < half
    bounded (inl one) = rw one (omega (arith, t.0))
    bounded (inr (inl two)) = rw two (omega (arith, t.0))
    bounded (inr (inr three)) = rw three t.0

-- The deposit that is asked for is again a map of positive counts.
pub scale_deposit-IsPositive :
    (base : Map ℕ) (rep : ℕ)
    → HasDistinctKeys base
    → IsPositive base
    → Triples base
    → let deposit = scale_deposit base (deposit_multiplier rep) in
      HasDistinctKeys deposit × IsPositive deposit
unfolding scale_deposit
scale_deposit-IsPositive base rep d a t =
    let p = deposit_multiplier-IsMultiplier rep in
    let plain : (if le_int (deposit_multiplier rep) 1 then 1 else deposit_multiplier rep)
        ≡ deposit_multiplier rep =
      chosen (deposit_multiplier rep) p in
    rw plain (scale_by-IsPositive (deposit_multiplier rep) p base d a (Triples-Scales _ base p t))
  where
    chosen : (m : ℕ) → IsMultiplier m → (if le_int m 1 then 1 else m) ≡ m
    chosen m p = ground arith
