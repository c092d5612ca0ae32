-- ===== src/Governance/Orgs/Founding.antt =====
-- The founder of an organisation is its leader and its only member.
use voxelcraft_ai.Prelude.{
  ℕ, ◌+◌, ◌<◌, ◌≡◌, ◌≢◌, refl, sym, ap, ◌∙◌, String, true, false, none, some, inl, [], ◌∷◌, str_eq,
  eq_iff, arith, word, add64, lookup,
}
use voxelcraft_ai.Kernel.Format.{numbered}
use voxelcraft_ai.Kernel.Format.Injective.{numbered_injective, numbered_named}
use voxelcraft_ai.Governance.Land.{OrgRole, leader}
use voxelcraft_ai.Governance.Orgs.{
  OrgWorld, OrgReq, set_org, put_org, new_org, found_org, new_org_id,
}
use voxelcraft_ai.Governance.Orgs.Membership.{IsConsistent, put-IsConsistent}

only_member : (a : String) (r : OrgRole) → lookup a ((a, r) ∷ []) ≡ some r
unfolding lookup
only_member a r = ground (arith, eq_iff a a)

no_member : (a b : String) (r : OrgRole) → str_eq a b ≡ false → lookup a ((b, r) ∷ []) ≡ none
unfolding lookup
no_member a b r h = ground (arith, eq_iff a b, eq_iff b a)

-- Nobody says to be in an organisation that is not there, and its founder is its only member.
alone_in :
    (id b : String) (w : OrgWorld)
    → IsConsistent w
    → lookup id w.orgs ≡ none
    → str_eq id "" ≡ false
    → (r : OrgRole) (a : String) → str_eq a b ≡ false
    → ((lookup a ((b, r) ∷ []) ≢ none) → (w.org_of a ≡ id) × (str_eq a "" ≡ false))
      × (w.org_of a ≡ id → lookup a ((b, r) ∷ []) ≢ none)
alone_in id b w v fresh real r a other = (
  λ m. absurd (m (no_member a b r other)),
  λ at.
      let (o, e, m) = v.joined a (ap (λ s. str_eq s "") at ∙ real) in
      absurd (cc (sym fresh ∙ ap (λ s. lookup s w.orgs) (sym at) ∙ e)),
)

module _ (agent_id : String) (inst : OrgReq) (now : ℕ) (has_id : str_eq agent_id "" ≡ false) where
  pub found_org-IsConsistent :
      (kind name : String) (w : OrgWorld)
      → IsConsistent w
      → str_eq (w.org_of agent_id) "" ≡ true
      → w.next_org_num + 1 < word
      → IsConsistent (found_org agent_id inst now kind name w).0
  unfolding found_org new_org_id set_org put_org new_org
  found_org-IsConsistent kind name w v alone room =
      let n = add64 w.next_org_num 1 in
      let id = numbered "ORG" n in
      let org = new_org agent_id inst now id kind name in
      let fresh : lookup id w.orgs ≡ none = v.free n (omega arith) (omega arith) in
      let nowhere : w.org_of agent_id ≡ "" = (eq_iff (w.org_of agent_id) "").0 alone in
      let real : str_eq id "" ≡ false = numbered_named "ORG" n refl in
      put-IsConsistent w v agent_id id id org (found_org agent_id inst now kind name w).0
        (record {
          has_name = (real, refl);
          has_agent = has_id;
          others = alone_in id agent_id w v fresh real leader;
          own = inl (refl, (λ e. cc (sym (only_member agent_id leader) ∙ e)));
          before = inl nowhere;
          leads = (agent_id, only_member agent_id leader);
        })
        refl (λ a. refl)
        (λ k h b. (
          v.free k (omega arith) b,
          ground (arith, eq_iff id (numbered "ORG" k), numbered_injective "ORG" n k),
        ))
