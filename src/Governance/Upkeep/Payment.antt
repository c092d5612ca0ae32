-- ===== src/Governance/Upkeep/Payment.antt =====
-- What the payment of an upkeep keeps, and that nobody does not pay.
use voxelcraft_ai.Prelude.{
  ℕ, ◌≡◌, refl, sym, ap, ◌∙◌, inl, inr, String, false, Bool-cases, Option, none, some, str_eq,
  eq_iff, arith, Map, lookup, insert, lookup-insert,
}
use voxelcraft_ai.Kernel.Text.{trim_space}
use voxelcraft_ai.Economy.Inventory.{has_items, deduct_items}
use voxelcraft_ai.Governance.Rules.{effective_cost}
use voxelcraft_ai.Governance.Land.{LandClaim, Organization}
use voxelcraft_ai.Governance.Orgs.{treasury_for, put_treasury}
use voxelcraft_ai.Governance.Upkeep.{
  Upkeep, Config, pay_from_org, pay_from_agent, pay_by, pay_maintenance,
}

-- Neither an organisation nor an agent.
abbrev pub IsNobody : String → Upkeep → Type 0
IsNobody k w = (lookup k w.orgs ≡ none) × (lookup k w.inventories ≡ none)

-- An entry is written under a key that there is, so a key that is not there stays away.
still_absent {ℓ} :
    {V : Type ℓ} (k owner : String) (v : V) (m : Map V) (old : V)
    → lookup owner m ≡ some old
    → lookup k m ≡ none
    → lookup k (insert owner v m) ≡ none
still_absent k owner v m old e gone = elim (Bool-cases (str_eq owner k)) [
  | inl hit ↦ cc (sym gone ∙ ap (λ i. lookup i m) (sym ((eq_iff owner k).0 hit)) ∙ e)
  | inr miss ↦ lookup-insert owner k v m ∙ rw miss gone
]

module _ (cfg : Config) (k : String) where
  -- What a payment keeps.
  abbrev pub Keeps : Upkeep → Upkeep → Type 0
  Keeps w u = (u.claims ≡ w.claims) × (IsNobody k w → IsNobody k u)

  pay_from_agent-Keeps :
      (owner : String) (cost : Map ℕ) (found : Option (Map ℕ)) (w : Upkeep)
      → lookup owner w.inventories ≡ found
      → Keeps w (pay_from_agent cfg owner cost found w).1
  unfolding pay_from_agent
  pay_from_agent-Keeps owner cost none w e = (refl, λ n. n)
  pay_from_agent-Keeps owner cost (some inventory) w e =
      elim (Bool-cases (has_items inventory cost)) [
        | inr poor ↦ rw poor (refl, λ n. n)
        | inl rich ↦
            rw rich (refl, λ n. (n.0, still_absent k owner _ w.inventories inventory e n.1))
      ]

  pay_by-Keeps :
      (owner : String) (cost : Map ℕ) (found : Option Organization) (w : Upkeep)
      → lookup owner w.orgs ≡ found
      → Keeps w (pay_by cfg owner cost found w).1
  unfolding pay_by pay_from_org
  pay_by-Keeps owner cost none w e = pay_from_agent-Keeps owner cost _ w refl
  pay_by-Keeps owner cost (some org) w e =
      elim (Bool-cases (has_items (treasury_for cfg.world_id org).0 cost)) [
        | inr poor ↦ rw poor (
          refl,
          λ n. (still_absent k owner (treasury_for cfg.world_id org).1 w.orgs org e n.0, n.1),
        )
        | inl rich ↦ rw rich (
          refl,
          λ n. (
            still_absent k owner
                (put_treasury cfg.world_id (deduct_items (treasury_for cfg.world_id org).0 cost)
                  (treasury_for cfg.world_id org).1)
                w.orgs org e n.0,
            n.1,
          ),
        )
      ]

  pub pay_maintenance-Keeps : (c : LandClaim) (w : Upkeep) → Keeps w (pay_maintenance cfg c w).1
  unfolding pay_maintenance
  pay_maintenance-Keeps c w = elim (Bool-cases (str_eq (trim_space c.owner) "")) [
    | inl blank ↦ rw blank (refl, λ n. n)
    | inr named ↦
        rw named (pay_by-Keeps (trim_space c.owner) (effective_cost cfg.maintenance_cost) _ w refl)
  ]

-- Nobody does not pay.
pub pay_maintenance_nobody :
    (cfg : Config) (c : LandClaim) (w : Upkeep)
    → IsNobody (trim_space c.owner) w
    → (pay_maintenance cfg c w).0 ≡ false
unfolding pay_maintenance pay_by pay_from_agent
pay_maintenance_nobody cfg c w (gone, away) = rw (gone, away) (ground arith)
