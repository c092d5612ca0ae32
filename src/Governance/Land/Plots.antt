-- ===== src/Governance/Land/Plots.antt =====
-- Claims and upgrades keep the lands of a world apart: no column of blocks is in two of them.
use voxelcraft_ai.Prelude.{
  ℕ, ◌≤◌, ◌<◌, ◌≡◌, refl, sym, ap, subst, ◌∙◌, String, Bool, true, false, not, Bool-cases, Option,
  none, some, ◌⊎◌, inl, inr, [], ◌∷◌, str_eq, eq_iff, if◌then◌else◌, arith, word, le_int, Map,
  lookup, insert, lookup-insert,
}
use mathlib.Core.Option.{some-injective}
use voxelcraft_ai.Kernel.Vec.{Vec3i}
use voxelcraft_ai.Kernel.Event.{Event}
use voxelcraft_ai.Economy.Inventory.{has_items}
use voxelcraft_ai.Economy.Trade.Validation.{pass}
use voxelcraft_ai.Governance.Land.{
  LandClaim, contains, overlaps, upgrade_overlaps, claim_overlaps, validate_upgrade_radius,
  validate_upgrade_input, upgrade_cost,
}
use voxelcraft_ai.Governance.Land.Overlaps.{
  claim_overlaps_lem, upgrade_overlaps_lem, upgraded_radius, claim_radius_lem,
}
use voxelcraft_ai.Governance.Land.Disjoint.{IsSpot, IsPlot, apart}
use voxelcraft_ai.Governance.Land.Steps.{checked_lem, checked_land_lem}
use voxelcraft_ai.Governance.Land.Handlers.{
  Estate, ClaimEnv, ClaimReq, refuse, upgrade_for, upgrade_land, handle_upgrade_claim, ClaimTaskEnv,
  TaskReq, ClaimSite, claim_radius, new_claim, place_claim, handle_task_claim_land,
}

pub record IsPlotted (claims : Map LandClaim) : Type 0 where
  pub plots :
      (id : String) (c : LandClaim)
      → lookup id claims ≡ some c
      → (c.land_id ≡ id) × (str_eq id "" ≡ false) × IsPlot c
  -- No position is in two lands.
  pub disjoint :
      (i j : String) (c d : LandClaim) (p : Vec3i)
      → str_eq i j ≡ false
      → lookup i claims ≡ some c
      → lookup j claims ≡ some d
      → IsSpot p
      → contains c p ≡ true
      → contains d p ≡ true
      → ⊥

module _ (claims : Map LandClaim) (v : IsPlotted claims) (id : String) (c : LandClaim)
    (named : (c.land_id ≡ id) × (str_eq id "" ≡ false)) (plot : IsPlot c)
    (free : (i : String) (d : LandClaim)
      → lookup i claims ≡ some d
      → str_eq i id ≡ false
      → overlaps c.anchor c.radius d ≡ false) where
  found :
      (i : String) (d : LandClaim)
      → lookup i (insert id c claims) ≡ some d
      → (i ≡ id) × (c ≡ d) ⊎ (lookup i claims ≡ some d) × (str_eq i id ≡ false)
  found i d e = elim (Bool-cases (str_eq id i)) [
    | inl hit ↦ inl (
      sym ((eq_iff id i).0 hit),
      some-injective _ _ (sym (lookup-insert id i c claims ∙ rw hit refl) ∙ e),
    )
    | inr miss ↦ inr (
      sym (lookup-insert id i c claims ∙ rw miss refl) ∙ e,
      ground (arith, eq_iff id i, eq_iff i id),
    )
  ]

  apart_from_new :
      (i : String) (d : LandClaim) (p : Vec3i)
      → lookup i claims ≡ some d
      → str_eq i id ≡ false
      → IsSpot p
      → contains c p ≡ true
      → contains d p ≡ true
      → ⊥
  apart_from_new i d p e other spot h k =
      apart c d p plot (v.plots i d e).2 spot (free i d e other) h k

  insert-IsPlotted : IsPlotted (insert id c claims)
  insert-IsPlotted = record {
    plots = λ i d e. elim (found i d e) [
      | inl (at, same) ↦
          subst (λ (x : LandClaim). (x.land_id ≡ i) × (str_eq i "" ≡ false) × IsPlot x) same
            (named.0 ∙ sym at, ap (λ s. str_eq s "") at ∙ named.1, plot)
      | inr (old, _) ↦ v.plots i d old
    ];
    disjoint = λ i j d f p other ed ef spot h k. elim (found i d ed) [
      | inl (at, same) ↦ elim (found j f ef) [
        | inl (at', same') ↦ cc (sym other ∙ (eq_iff i j).1 (at ∙ sym at'))
        | inr (old, new) ↦
            apart_from_new j f p old new spot
              (subst (λ (x : LandClaim). contains x p ≡ true) (sym same) h) k
      ]
      | inr (old, new) ↦ elim (found j f ef) [
        | inl (at', same') ↦
            apart_from_new i d p old new spot
              (subst (λ (x : LandClaim). contains x p ≡ true) (sym same') k) h
        | inr (old', _) ↦ v.disjoint i j d f p other old old' spot h k
      ]
    ];
  }

module _ (env : ClaimEnv) (agent_id : String) (inst : ClaimReq) (now : ℕ) where
  upgrade_for-IsPlotted :
      (s : Estate) (land : LandClaim) (cost : Map ℕ)
      → IsPlotted s.claims
      → lookup inst.land_id s.claims ≡ some land
      → validate_upgrade_radius land.radius inst.radius ≡ pass
      → IsPlotted (upgrade_for env agent_id inst now land cost s).0.claims
  unfolding upgrade_for
  upgrade_for-IsPlotted s land [] v e ok = v
  upgrade_for-IsPlotted s land (entry ∷ rest) v e ok =
      elim (Bool-cases (not (has_items s.inventory (entry ∷ rest)))) [
        | inl poor ↦ rw poor v
        | inr rich ↦
            elim (Bool-cases (upgrade_overlaps land.anchor inst.radius land.land_id s.claims)) [
              | inl near ↦ rw (rich, near) v
              | inr far ↦
                  let (name, real, plot) = v.plots inst.land_id land e in
                  let (x, z, _, _) = plot in
                  rw (rich, far)
                    (insert-IsPlotted s.claims v inst.land_id (record land { radius = inst.radius })
                      (name, real)
                      (let (small, some_radius) = upgraded_radius land.radius inst.radius ok in
                        (x, z, small, some_radius))
                      (λ i d e' other.
                        let (name', real', plot') = v.plots i d e' in
                        let (_, _, _, size) = plot' in
                        upgrade_overlaps_lem land.anchor inst.radius land.land_id s.claims far i d
                          e'
                          (
                            ap (λ t. str_eq t "") name' ∙ real',
                            size,
                            ap (λ t. str_eq t land.land_id) name' ∙ ap (str_eq i) name ∙ other,
                          )))
            ]
      ]

  upgrade_land-IsPlotted :
      (s : Estate) (land : LandClaim)
      → IsPlotted s.claims
      → lookup inst.land_id s.claims ≡ some land
      → IsPlotted (upgrade_land env agent_id inst now land s).0.claims
  unfolding upgrade_land
  upgrade_land-IsPlotted s land v e = elim (Bool-cases (le_int 1 land.maintenance_stage)) [
    | inl late ↦ rw late v
    | inr paid ↦ rw paid (
        checked_lem env agent_id inst now s (λ u. IsPlotted u.claims) v
          (validate_upgrade_radius land.radius inst.radius)
          (if not (str_eq (env.block_name_at land.anchor) "CLAIM_TOTEM")
            then refuse env agent_id inst now "E_INVALID_TARGET" "claim totem missing" s
            else upgrade_for env agent_id inst now land (upgrade_cost land.radius inst.radius) s)
          (λ ok. elim (Bool-cases (not (str_eq (env.block_name_at land.anchor) "CLAIM_TOTEM"))) [
            | inl gone ↦ rw gone v
            | inr there ↦ rw there (upgrade_for-IsPlotted s land _ v e ok)
          ]))
  ]

  -- Upgrading a land, by whomever, keeps the lands apart: if no position with x and z from - 2 ^
  -- 40 to 2 ^ 40 - 1 is in two of them, and each stands under its id, which is not empty, with its
  -- anchor in that range and a radius from 1 to 128, then so it is after the upgrade.
  pub handle_upgrade_claim-IsPlotted :
      (s : Estate)
      → IsPlotted s.claims
      → IsPlotted (handle_upgrade_claim env agent_id inst now s).0.claims
  unfolding handle_upgrade_claim
  handle_upgrade_claim-IsPlotted s v =
      checked_land_lem env agent_id inst now s (λ u. IsPlotted u.claims) v
        (validate_upgrade_input inst.land_id inst.radius) (lookup inst.land_id s.claims)
        (λ land. upgrade_land env agent_id inst now land s)
        (λ land e admin. upgrade_land-IsPlotted s land v e)

module _ (env : ClaimTaskEnv) (agent_id : String) (tr : TaskReq) (now : ℕ)
    (spots : (p : Vec3i) → env.in_bounds p ≡ true → IsSpot p)
    (new_id : str_eq (env.new_land_id agent_id) "" ≡ false) where
  place_claim-IsPlotted :
      (r : ℕ) (totem : Option ℕ) (w : ClaimSite)
      → IsPlotted w.estate.claims
      → IsSpot tr.anchor
      → (r ≤ 128) × (le_int r 0 ≡ false)
      → claim_overlaps tr.anchor r w.estate.claims ≡ false
      → IsPlotted (place_claim env agent_id tr now r totem w).0.estate.claims
  unfolding place_claim new_claim
  place_claim-IsPlotted r none w v spot size far = v
  place_claim-IsPlotted r (some totem) w v spot size far =
      insert-IsPlotted w.estate.claims v (env.new_land_id agent_id)
        (new_claim env agent_id tr now (env.new_land_id agent_id) r) (refl, new_id)
        (spot.0, spot.1, size.0, size.1)
        (λ i d e other. claim_overlaps_lem tr.anchor r w.estate.claims far i d e)

  -- Where positions in bounds have x and z from - 2 ^ 40 to 2 ^ 40 - 1 and the new id is not
  -- empty, claiming a land keeps the lands apart: no position with x and z in that range is in two
  -- of them, and each stands under its id, which is not empty, with its anchor in that range and a
  -- radius from 1 to 128.
  pub handle_task_claim_land-IsPlotted :
      (allow_claims : Bool) (w : ClaimSite)
      → tr.radius < word
      → IsPlotted w.estate.claims
      → IsPlotted (handle_task_claim_land env agent_id tr now allow_claims w).0.estate.claims
  unfolding handle_task_claim_land
  handle_task_claim_land-IsPlotted allow_claims w fits v =
      let P = λ (u : ClaimSite × Event). IsPlotted u.0.estate.claims in
      let r = claim_radius tr.radius in
      let placed =
        λ (inside : not (env.in_bounds tr.anchor) ≡ false)
            (far : claim_overlaps tr.anchor r w.estate.claims ≡ false).
          place_claim-IsPlotted r env.claim_totem_block_id w v
            (spots tr.anchor (ground (arith, inside))) (claim_radius_lem tr.radius fits) far in
      ground (arith, v, placed)
