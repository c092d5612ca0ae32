-- ===== src/Governance/Orgs/Leaving.antt =====
-- An agent leaves an organisation: the next leader follows a leader, and nobody's leaving leaves an
-- organisation without members behind.
use voxelcraft_ai.Prelude.{
  ℕ, ◌≡◌, ◌≢◌, refl, sym, ap, subst, ◌∙◌, String, true, false, Bool-cases, none, some, inl, inr, [],
  ◌∷◌, str_eq, eq_iff, if◌then◌else◌, arith, add64, Map, lookup, insert, delete, lookup-insert,
  lookup-insert_self, lookup-delete,
}
use voxelcraft_ai.Kernel.Format.{numbered}
use voxelcraft_ai.Governance.Land.{Organization, OrgRole, leader}
use voxelcraft_ai.Governance.Orgs.{
  OrgWorld, OrgReq, handle_leave_org, leave_found, after_leaving, promote, is_leader, org_by_id,
  set_org, put_org,
}
use voxelcraft_ai.Governance.Orgs.Leaders.{
  select_next_leader_member, select_next_leader-some, promoted_alike,
}
use voxelcraft_ai.Governance.Orgs.Membership.{
  free-apart, IsConsistent, put-IsConsistent, told_alike,
}

module _ (agent : String) (inst : OrgReq) (now : ℕ) (w : OrgWorld) (v : IsConsistent w)
    (org : Organization) (here : lookup (w.org_of agent) w.orgs ≡ some org)
    (real : str_eq (w.org_of agent) "" ≡ false) where
  abbrev left : Map OrgRole
  left = delete agent org.org_members

  abbrev without : OrgWorld
  without = set_org agent inst now "" w

  among_others : (a : String) → str_eq a agent ≡ false → lookup a left ≡ lookup a org.org_members
  among_others a other =
      ground (arith, lookup-delete agent a org.org_members, eq_iff a agent, eq_iff agent a)

  agent_gone : (a : String) → str_eq a agent ≡ true → lookup a left ≡ none
  agent_gone a me =
      ground (arith, lookup-delete agent a org.org_members, eq_iff agent a, eq_iff a agent)

  abbrev deleted : OrgWorld
  deleted = record without { orgs = delete (w.org_of agent) w.orgs }

  kept :
      (i : String)
      → lookup i deleted.orgs ≡ (if str_eq (w.org_of agent) i then none else lookup i w.orgs)
  unfolding set_org
  kept i = lookup-delete (w.org_of agent) i w.orgs

  kept_some :
      (i : String) (o : Organization)
      → lookup i deleted.orgs ≡ some o
      → (lookup i w.orgs ≡ some o) × (str_eq (w.org_of agent) i ≡ false)
  kept_some i o h = elim (Bool-cases (str_eq (w.org_of agent) i)) [
    | inl hit ↦ cc (sym h ∙ ◌∙◌ {c = none} (kept i) (rw hit refl))
    | inr apart ↦ (sym (kept i ∙ rw apart refl) ∙ h, apart)
  ]

  deleted_joined :
      left ≡ []
      → (a : String) → str_eq a agent ≡ false
      → str_eq (w.org_of a) "" ≡ false
      → (o : Organization) × (lookup (w.org_of a) deleted.orgs ≡ some o)
        × (lookup a o.org_members ≢ none)
  unfolding lookup
  deleted_joined empty a other h =
      let (o, e, m) = v.joined a h in
      elim (Bool-cases (str_eq (w.org_of agent) (w.org_of a))) [
        | inr apart ↦ (o, kept (w.org_of a) ∙ rw apart e, m)
        | inl same ↦
            let at = sym ((eq_iff (w.org_of agent) (w.org_of a)).0 same) in
            absurd (
              (told_alike w v (w.org_of agent) org here a).1 at
                (sym (among_others a other) ∙ ap (lookup a) empty))
      ]

  -- The organisation has no members any more, and is deleted.
  deleted-IsConsistent : left ≡ [] → IsConsistent deleted
  unfolding set_org
  deleted-IsConsistent empty = record {
    joined = λ a. elim (Bool-cases (str_eq a agent)) [
      | inl me ↦ rw me (λ h. cc h)
      | inr other ↦ rw other (deleted_joined empty a other)
    ];
    listed = λ i a o h m.
        let (old, apart) = kept_some i o h in
        let (at, is_named) = v.listed i a o old m in
        elim (Bool-cases (str_eq a agent)) [
          | inr other ↦ (rw other at, is_named)
          | inl me ↦ cc (
              sym apart
              ∙ (eq_iff (w.org_of agent) i).1 (ap w.org_of (sym ((eq_iff a agent).0 me)) ∙ at))
        ];
    led = λ i o h. v.led i o (kept_some i o h).0;
    named = λ i o h. v.named i o (kept_some i o h).0;
    free = λ n a b. ground (arith, kept (numbered "ORG" n), v.free n a b);
  }

  -- The organisation is put back with the members `m`.
  left-IsConsistent :
      (after : Organization)
      → after.org_id ≡ org.org_id
      → ((a : String)
          → str_eq a agent ≡ false
          → (lookup a after.org_members ≢ none → lookup a left ≢ none)
            × (lookup a left ≢ none → lookup a after.org_members ≢ none))
      → lookup agent after.org_members ≡ none
      → ((a : String) × (lookup a after.org_members ≡ some leader))
      → IsConsistent (put_org agent inst now (w.org_of agent) after without)
  unfolding set_org put_org
  left-IsConsistent after same others gone leads =
      let id = w.org_of agent in
      let alike = told_alike w v id org here in
      let (named, _) = v.named id org here in
      let (_, _, m) = v.joined agent real in
      put-IsConsistent w v agent id "" after _
        (record {
          has_name = (real, same ∙ named);
          has_agent = ((alike agent).0 ((alike agent).1 refl)).1;
          others = λ a other.
              let at = among_others a other in
              (
                λ h. (alike a).0 (subst (λ x. x ≢ none) at ((others a other).0 h)),
                λ h. (others a other).1 (subst (λ x. x ≢ none) (sym at) ((alike a).1 h)),
              );
          own = inr (refl, gone);
          before = inr refl;
          leads = leads;
        })
        refl (λ a. refl) (free-apart w v id org here)

  -- The member `best` is promoted.
  promoted-IsConsistent :
      (best : String)
      → (lookup best left ≢ none)
      → (rest : Organization) → rest.org_id ≡ org.org_id
      → rest.org_members ≡ left
      → IsConsistent (
          put_org agent inst now (w.org_of agent) (promote agent inst now (some best) rest) without)
  unfolding promote
  promoted-IsConsistent best m rest same members =
      let other : str_eq best agent ≡ false = elim (Bool-cases (str_eq best agent)) [
        | inr apart ↦ apart
        | inl me ↦ absurd (m (agent_gone best me))
      ] in
      let is_named : str_eq best "" ≡ false =
        (v.listed (w.org_of agent) best org here
          (subst (λ x. x ≢ none) (among_others best other) m)).1 in
      let at = λ (a : String). lookup-insert best a leader left in
      rw (is_named, members)
        (left-IsConsistent
          (record rest {
            org_members = insert best leader left;
            meta_version = add64 rest.meta_version 1;
          })
          same
          (λ a apart. (
            (λ h e. h ((promoted_alike best left m a).1 e)),
            (λ h e. h ((promoted_alike best left m a).0 e)),
          ))
          (ground (
            arith,
            lookup-insert best agent leader left,
            eq_iff best agent,
            agent_gone agent ((eq_iff agent agent).1 refl),
          ))
          (best, lookup-insert_self best leader left))

  stays_leader :
      is_leader (lookup agent org.org_members) ≡ false
      → ((a : String) × (lookup a org.org_members ≡ some leader))
      → ((a : String) × (lookup a left ≡ some leader))
  stays_leader no_leader (a, e) = elim (Bool-cases (str_eq a agent)) [
    | inl me ↦ cc (
        sym no_leader
        ∙ ap is_leader (ap (λ x. lookup x org.org_members) (sym ((eq_iff a agent).0 me)) ∙ e))
    | inr other ↦ (a, among_others a other ∙ e)
  ]

  after_leaving-IsConsistent :
      (rest : Organization) (members : Map OrgRole)
      → rest.org_id ≡ org.org_id
      → rest.org_members ≡ left
      → members ≡ left
      → IsConsistent (
          after_leaving agent inst now
            (w.org_of agent)
            (lookup agent org.org_members)
            rest
            members
            without)
  unfolding after_leaving set_org
  after_leaving-IsConsistent rest [] same has is_left = deleted-IsConsistent (sym is_left)
  after_leaving-IsConsistent rest ((k, r) ∷ members) same has is_left =
      elim (Bool-cases (is_leader (lookup agent org.org_members))) [
        | inl leads ↦
            let (best, e) = select_next_leader-some k r members in
            rw (leads, e)
              (promoted-IsConsistent best
                (subst (λ m. lookup best m ≢ none) is_left
                  (select_next_leader_member ((k, r) ∷ members) best e))
                rest same has)
        | inr follows ↦ rw follows (
            left-IsConsistent rest same
              (λ a other. (
                subst (λ (m : Map OrgRole). lookup a m ≢ none) has,
                subst (λ (m : Map OrgRole). lookup a m ≢ none) (sym has),
              ))
              (ap (lookup agent) has ∙ agent_gone agent ((eq_iff agent agent).1 refl))
              (subst (λ (m : Map OrgRole). (a : String) × (lookup a m ≡ some leader)) (sym has)
                (stays_leader follows (v.led (w.org_of agent) org here))))
      ]

pub handle_leave_org-IsConsistent :
    (agent : String) (inst : OrgReq) (now : ℕ) (w : OrgWorld)
    → IsConsistent w
    → IsConsistent (handle_leave_org agent inst now w).0
unfolding handle_leave_org leave_found org_by_id
handle_leave_org-IsConsistent agent inst now w v = elim (Bool-cases (str_eq (w.org_of agent) "")) [
  | inl blank ↦ rw blank v
  | inr real ↦
      let (org, here, m) = v.joined agent real in
      rw (real, here)
        (after_leaving-IsConsistent agent inst now w v org here real
          (record org {
            org_members = delete agent org.org_members;
            meta_version = add64 org.meta_version 1;
          })
          (delete agent org.org_members) refl refl refl)
]
