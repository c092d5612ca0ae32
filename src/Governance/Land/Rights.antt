-- ===== src/Governance/Land/Rights.antt =====
-- Only an admin of a land changes it: its owner, or a leader or officer of the organisation that owns
-- it.
use voxelcraft_ai.Prelude.{
  ℕ, ◌≡◌, sym, ap, ◌∙◌, String, true, false, not, Bool-cases, some, inl, inr, [], ◌∷◌, str_eq,
  eq_iff, if◌then◌else◌, arith, le_int, Map, lookup, insert, delete, lookup-insert,
}
use mathlib.Core.Option.{some-injective}
use voxelcraft_ai.Governance.Land.{
  LandClaim, is_land_admin, validate_set_permissions_input, validate_upgrade_input,
  validate_upgrade_radius, upgrade_cost, validate_member_mutation_input, validate_deed_input,
  normalize_new_owner, apply_policy_flags,
}
use voxelcraft_ai.Governance.Land.Steps.{checked_lem, checked_land_lem}
use voxelcraft_ai.Governance.Land.Handlers.{
  Estate, ClaimEnv, ClaimReq, refuse, put_land, done, policy_of, handle_set_permissions,
  upgrade_for, upgrade_land, handle_upgrade_claim, handle_add_member, handle_remove_member, deed_to,
  handle_deed_land,
}

-- The land is as it was.
abbrev pub Untouched : String → LandClaim → Estate → Type 0
Untouched id land u = lookup id u.claims ≡ some land

module _ (env : ClaimEnv) (agent_id : String) (inst : ClaimReq) (now : ℕ) (s : Estate) (id : String)
    (land : LandClaim) (here : lookup id s.claims ≡ some land)
    (outsider : is_land_admin env.orgs agent_id land ≡ false) where
  -- The land that an admin changes is another one.
  other_land :
      (l l' : LandClaim)
      → lookup inst.land_id s.claims ≡ some l
      → is_land_admin env.orgs agent_id l ≡ true
      → lookup id (insert inst.land_id l' s.claims) ≡ some land
  other_land l l' e admin = elim (Bool-cases (str_eq inst.land_id id)) [
    | inl hit ↦
        let same : l ≡ land =
          some-injective _ _
            (sym e ∙ ap (λ t. lookup t s.claims) ((eq_iff inst.land_id id).0 hit) ∙ here) in
        cc (sym admin ∙ ap (is_land_admin env.orgs agent_id) same ∙ outsider)
    | inr miss ↦ lookup-insert inst.land_id id l' s.claims ∙ rw miss here
  ]

  upgrade_for-Untouched :
      (l : LandClaim) (cost : Map ℕ)
      → lookup inst.land_id s.claims ≡ some l
      → is_land_admin env.orgs agent_id l ≡ true
      → Untouched id land (upgrade_for env agent_id inst now l cost s).0
  unfolding upgrade_for
  upgrade_for-Untouched l [] e admin = here
  upgrade_for-Untouched l (entry ∷ rest) e admin =
      ground (arith, here, other_land l (record l { radius = inst.radius }) e admin)

  upgrade_land-Untouched :
      (l : LandClaim)
      → lookup inst.land_id s.claims ≡ some l
      → is_land_admin env.orgs agent_id l ≡ true
      → Untouched id land (upgrade_land env agent_id inst now l s).0
  unfolding upgrade_land
  upgrade_land-Untouched l e admin = elim (Bool-cases (le_int 1 l.maintenance_stage)) [
    | inl late ↦ rw late here
    | inr paid ↦ rw paid (
        checked_lem env agent_id inst now s (Untouched id land) here
          (validate_upgrade_radius l.radius inst.radius)
          (if not (str_eq (env.block_name_at l.anchor) "CLAIM_TOTEM")
            then refuse env agent_id inst now "E_INVALID_TARGET" "claim totem missing" s
            else upgrade_for env agent_id inst now l (upgrade_cost l.radius inst.radius) s)
          (λ ok.
            ground
              (arith, here, upgrade_for-Untouched l (upgrade_cost l.radius inst.radius) e admin)))
  ]

  deed_to-Untouched :
      (owner : String) (l : LandClaim)
      → lookup inst.land_id s.claims ≡ some l
      → is_land_admin env.orgs agent_id l ≡ true
      → Untouched id land (deed_to env agent_id inst now owner l s).0
  unfolding deed_to
  deed_to-Untouched owner l e admin =
      ground (arith, here, other_land l (record l { owner = owner }) e admin)

  -- A land stays as it is through any of the five handlers of claims if the agent is no admin of
  -- it: neither its owner, nor a leader or officer of the organisation that owns it.
  pub claim_handlers-Untouched :
      (Untouched id land (handle_set_permissions env agent_id inst now s).0)
      × Untouched id land (handle_upgrade_claim env agent_id inst now s).0
      × Untouched id land (handle_add_member env agent_id inst now s).0
      × Untouched id land (handle_remove_member env agent_id inst now s).0
      × Untouched id land (handle_deed_land env agent_id inst now s).0
  unfolding handle_set_permissions handle_upgrade_claim handle_add_member handle_remove_member
      handle_deed_land
  claim_handlers-Untouched =
      let found = lookup inst.land_id s.claims in
      let run = checked_land_lem env agent_id inst now s (Untouched id land) here in
      (
        run (validate_set_permissions_input inst.land_id inst.policy) found
            (λ l. done env agent_id inst now (
              put_land env agent_id inst now
                (record l {
                  flags = apply_policy_flags l.flags (policy_of env agent_id inst now inst.policy);
                })
                s))
            (λ l e admin. other_land l _ e admin),
        run (validate_upgrade_input inst.land_id inst.radius) found
            (λ l. upgrade_land env agent_id inst now l s) upgrade_land-Untouched,
        run (validate_member_mutation_input inst.land_id inst.member_id) found
            (λ l. done env agent_id inst now (
              put_land env agent_id inst now
                (record l { members = insert inst.member_id true l.members }) s))
            (λ l e admin. other_land l _ e admin),
        run (validate_member_mutation_input inst.land_id inst.member_id) found
            (λ l. done env agent_id inst now (
              put_land env agent_id inst now
                (record l { members = delete inst.member_id l.members }) s))
            (λ l e admin. other_land l _ e admin),
        run (validate_deed_input inst.land_id inst.new_owner) found
            (λ l. deed_to env agent_id inst now (normalize_new_owner inst.new_owner) l s)
            (λ l e admin. deed_to-Untouched (normalize_new_owner inst.new_owner) l e admin),
      )
