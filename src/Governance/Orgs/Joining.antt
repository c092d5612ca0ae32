-- ===== src/Governance/Orgs/Joining.antt =====
-- The founding of an organisation and the joining of one keep every membership told by both sides.
use voxelcraft_ai.Prelude.{
  ℕ, ◌+◌, ◌<◌, ◌≡◌, ◌≢◌, refl, sym, ap, subst, ◌∙◌, String, false, not, Bool-cases, Option, none,
  some, inl, inr, str_eq, eq_iff, arith, word, add64, Map, lookup, insert, lookup-insert,
  lookup-insert_self,
}
use voxelcraft_ai.Governance.Land.{Organization, OrgRole, leader, member}
use voxelcraft_ai.Governance.Orgs.{
  OrgWorld, OrgReq, handle_create_org, join_found, handle_join_org, org_by_id, set_org, put_org,
  normalize_org_kind, validate_org_name,
}
use voxelcraft_ai.Governance.Orgs.Founding.{found_org-IsConsistent}
use voxelcraft_ai.Governance.Orgs.Membership.{
  free-apart, outside-none, IsConsistent, put-IsConsistent, told_alike,
}

module _ (agent_id : String) (inst : OrgReq) (now : ℕ) (has_id : str_eq agent_id "" ≡ false) where
  pub handle_create_org-IsConsistent :
      (w : OrgWorld)
      → IsConsistent w
      → w.next_org_num + 1 < word
      → IsConsistent (handle_create_org agent_id inst now w).0
  unfolding handle_create_org
  handle_create_org-IsConsistent w v room =
      elim (Bool-cases (str_eq (normalize_org_kind inst.org_kind) "")) [
        | inl bad ↦ rw bad v
        | inr fine ↦ elim (Bool-cases (not (validate_org_name inst.org_name))) [
          | inl bad ↦ rw (fine, bad) v
          | inr good ↦ elim (Bool-cases (str_eq (w.org_of agent_id) "")) [
            | inr busy ↦ rw (fine, good, busy) v
            | inl alone ↦
                rw (fine, good, alone)
                  (found_org-IsConsistent agent_id inst now has_id _ _ w v alone room)
          ]
        ]
      ]

  among_others :
      (m : Map OrgRole) (a : String)
      → str_eq a agent_id ≡ false
      → lookup a (insert agent_id member m) ≡ lookup a m
  among_others m a other =
      ground (arith, lookup-insert agent_id a member m, eq_iff a agent_id, eq_iff agent_id a)

  -- The leader is another one than an agent that is no member.
  keeps_leader :
      (m : Map OrgRole)
      → lookup agent_id m ≡ none
      → ((a : String) × (lookup a m ≡ some leader))
      → ((a : String) × (lookup a (insert agent_id member m) ≡ some leader))
  keeps_leader m gone (a, e) = elim (Bool-cases (str_eq a agent_id)) [
    | inl me ↦ cc (sym gone ∙ ap (λ x. lookup x m) (sym ((eq_iff a agent_id).0 me)) ∙ e)
    | inr other ↦ (a, among_others m a other ∙ e)
  ]

  join_found-IsConsistent :
      (w : OrgWorld) (found : Option Organization)
      → IsConsistent w
      → lookup inst.org_id w.orgs ≡ found
      → IsConsistent (join_found agent_id inst now found w).0
  unfolding join_found set_org put_org
  join_found-IsConsistent w none v e = v
  join_found-IsConsistent w (some org) v e = elim (Bool-cases (str_eq (w.org_of agent_id) "")) [
    | inr busy ↦ rw busy v
    | inl alone ↦
        let joined = record org {
          org_members = insert agent_id member org.org_members;
          meta_version = add64 org.meta_version 1;
        } in
        let nowhere : w.org_of agent_id ≡ "" = (eq_iff (w.org_of agent_id) "").0 alone in
        let alike = told_alike w v inst.org_id org e in
        let (same, real) = v.named inst.org_id org e in
        let gone = outside-none w v inst.org_id org agent_id e nowhere in
        rw alone (
          put-IsConsistent w v agent_id inst.org_id org.org_id joined
            (set_org agent_id inst now org.org_id (put_org agent_id inst now inst.org_id joined w))
            (record {
              has_name = (real, same);
              has_agent = has_id;
              others = λ a other.
                  let at = among_others org.org_members a other in
                  (
                    λ m. (alike a).0 (subst (λ x. x ≢ none) at m),
                    λ h. subst (λ x. x ≢ none) (sym at) ((alike a).1 h),
                  );
              own =
                  inl
                    (same, λ n. cc (sym (lookup-insert_self agent_id member org.org_members) ∙ n));
              before = inl nowhere;
              leads = keeps_leader org.org_members gone (v.led inst.org_id org e);
            })
            refl (λ a. refl) (free-apart w v inst.org_id org e))
  ]

  pub handle_join_org-IsConsistent :
      (w : OrgWorld) → IsConsistent w → IsConsistent (handle_join_org agent_id inst now w).0
  unfolding handle_join_org org_by_id
  handle_join_org-IsConsistent w v = elim (Bool-cases (str_eq inst.org_id "")) [
    | inl blank ↦ rw blank v
    | inr real ↦ rw real (join_found-IsConsistent w _ v refl)
  ]
