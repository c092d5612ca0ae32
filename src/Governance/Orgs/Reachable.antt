-- ===== src/Governance/Orgs/Reachable.antt =====
-- The organisations of a world after any requests of its agents.
use voxelcraft_ai.Prelude.{
  ℕ, ◌+◌, ◌<◌, ◌≡◌, ◌≢◌, refl, sym, ap, subst, ◌∙◌, String, false, Bool-cases, none, some, inl, inr,
  str_eq, eq_iff, if◌then◌else◌, word, Map, lookup, insert, lookup-insert, not, lt_int, get,
}
use mathlib.Core.Option.{some-injective}
use voxelcraft_ai.Kernel.Format.{numbered}
use voxelcraft_ai.Contracts.Container.{add_item, take_item}
use voxelcraft_ai.Governance.Land.{Organization, OrgRole, leader, is_org_member, is_org_admin}
use voxelcraft_ai.Governance.Orgs.{
  OrgWorld, OrgReq, handle_create_org, handle_join_org, handle_leave_org, handle_org_deposit,
  handle_org_withdraw, set_inventory, put_org, treasury_for, put_treasury, deposit_into,
  withdraw_from,
}
use voxelcraft_ai.Governance.Orgs.Membership.{free-apart, IsConsistent}
use voxelcraft_ai.Governance.Orgs.Joining.{
  handle_create_org-IsConsistent, handle_join_org-IsConsistent,
}
use voxelcraft_ai.Governance.Orgs.Leaving.{handle_leave_org-IsConsistent}
use voxelcraft_ai.Governance.Orgs.Treasury.{transfer_checked_lem}

-- A world that is like `w`, but for the treasury of an organisation and the inventories.
module _ (w u : OrgWorld) (id : String) (org after : Organization) (v : IsConsistent w)
    (here : lookup id w.orgs ≡ some org)
    (same : (after.org_id ≡ org.org_id) × (after.org_members ≡ org.org_members))
    (orgs : u.orgs ≡ insert id after w.orgs)
    (others : (u.org_of ≡ w.org_of) × (u.next_org_num ≡ w.next_org_num)) where
  found : (i : String) → lookup i u.orgs ≡ (if str_eq id i then some after else lookup i w.orgs)
  found i = ap (lookup i) orgs ∙ lookup-insert id i after w.orgs

  found_here : lookup id u.orgs ≡ some after
  found_here =
      found id
      ∙ ◌∙◌ {c = some after}
          (ap (λ b. if b then some after else lookup id w.orgs) ((eq_iff id id).1 refl)) refl

  -- What is found now was there before, up to its treasury.
  found_before :
      (i : String) (o : Organization)
      → lookup i u.orgs ≡ some o
      → (o' : Organization) × (lookup i w.orgs ≡ some o')
        × (o'.org_id ≡ o.org_id)
        × (o'.org_members ≡ o.org_members)
  found_before i o e = elim (Bool-cases (str_eq id i)) [
    | inl hit ↦
        let is_after : after ≡ o = some-injective _ _ (sym (found i ∙ rw hit refl) ∙ e) in
        (
          org,
          ap (λ s. lookup s w.orgs) (sym ((eq_iff id i).0 hit)) ∙ here,
          sym same.0 ∙ ap (λ (x : Organization). x.org_id) is_after,
          sym same.1 ∙ ap (λ (x : Organization). x.org_members) is_after,
        )
    | inr apart ↦ (o, sym (found i ∙ rw apart refl) ∙ e, refl, refl)
  ]

  joined_after :
      (a : String)
      → str_eq (w.org_of a) "" ≡ false
      → (o : Organization) × (lookup (w.org_of a) u.orgs ≡ some o) × (lookup a o.org_members ≢ none)
  joined_after a h =
      let (o, e, m) = v.joined a h in
      elim (Bool-cases (str_eq id (w.org_of a))) [
        | inr apart ↦ (o, found (w.org_of a) ∙ rw apart e, m)
        | inl hit ↦
            let at = sym ((eq_iff id (w.org_of a)).0 hit) in
            let is_org : o ≡ org =
              some-injective _ _ (sym e ∙ ap (λ s. lookup s w.orgs) at ∙ here) in
            (
              after,
              ap (λ s. lookup s u.orgs) at ∙ found_here,
              subst (λ (x : Map OrgRole). lookup a x ≢ none)
                  (ap (λ (x : Organization). x.org_members) is_org ∙ sym same.1) m,
            )
      ]

  replaced-IsConsistent : IsConsistent u
  replaced-IsConsistent = record {
    joined = λ a. rw others.0 (joined_after a);
    listed = λ i a o e m.
        let (o', e', _, members) = found_before i o e in
        rw others.0
          (v.listed i a o' e' (subst (λ (x : Map OrgRole). lookup a x ≢ none) (sym members) m));
    led = λ i o e.
        let (o', e', _, members) = found_before i o e in
        subst (λ (x : Map OrgRole). (a : String) × (lookup a x ≡ some leader)) members
          (v.led i o' e');
    named = λ i o e.
        let (o', e', name, _) = found_before i o e in
        let (at, real) = v.named i o' e' in (sym name ∙ at, real);
    free = λ n a b.
        let (gone, apart) = free-apart w v id org here n (subst (λ k. k < n) others.1 a) b in
        found (numbered "ORG" n) ∙ rw apart gone;
  }

module _ (agent_id : String) (inst : OrgReq) (now : ℕ) (w : OrgWorld) (v : IsConsistent w) where
  deposit_into-IsConsistent :
      (org : Organization)
      → lookup inst.org_id w.orgs ≡ some org
      → IsConsistent (deposit_into agent_id inst now org w).0
  unfolding deposit_into set_inventory put_org treasury_for put_treasury
  deposit_into-IsConsistent org here =
      elim (Bool-cases (not (is_org_member w.orgs agent_id org.org_id))) [
        | inl outside ↦ rw outside v
        | inr inside ↦
            elim (Bool-cases (lt_int (get (w.inventory_of agent_id) inst.item_id) inst.count)) [
              | inl short ↦ rw (inside, short) v
              | inr enough ↦
                  rw (inside, enough)
                    (replaced-IsConsistent w _ inst.org_id org
                      (put_treasury w.world_id
                        (add_item inst.item_id inst.count (treasury_for w.world_id org).0)
                        (treasury_for w.world_id org).1)
                      v here (refl, refl) refl (refl, refl))
            ]
      ]

  withdraw_from-IsConsistent :
      (org : Organization)
      → lookup inst.org_id w.orgs ≡ some org
      → IsConsistent (withdraw_from agent_id inst now org w).0
  unfolding withdraw_from set_inventory put_org treasury_for put_treasury
  withdraw_from-IsConsistent org here =
      elim (Bool-cases (not (is_org_admin w.orgs agent_id org.org_id))) [
        | inl outside ↦ rw outside v
        | inr inside ↦
            elim (Bool-cases
              (lt_int (get (treasury_for w.world_id org).0 inst.item_id) inst.count)) [
                | inl short ↦
                    rw (inside, short)
                      (replaced-IsConsistent w _ inst.org_id org (treasury_for w.world_id org).1 v
                        here (refl, refl) refl (refl, refl))
                | inr enough ↦
                    rw (inside, enough)
                      (replaced-IsConsistent w _ inst.org_id org
                        (put_treasury w.world_id
                          (take_item inst.item_id inst.count (treasury_for w.world_id org).0)
                          (treasury_for w.world_id org).1)
                        v here (refl, refl) refl (refl, refl))
              ]
      ]

  handle_org_deposit-IsConsistent : IsConsistent (handle_org_deposit agent_id inst now w).0
  unfolding handle_org_deposit
  handle_org_deposit-IsConsistent =
      transfer_checked_lem agent_id inst now w IsConsistent v (deposit_into agent_id inst now)
        (λ org here positive. deposit_into-IsConsistent org here) _ refl

  handle_org_withdraw-IsConsistent : IsConsistent (handle_org_withdraw agent_id inst now w).0
  unfolding handle_org_withdraw
  handle_org_withdraw-IsConsistent =
      transfer_checked_lem agent_id inst now w IsConsistent v (withdraw_from agent_id inst now)
        (λ org here positive. withdraw_from-IsConsistent org here) _ refl

-- A request of an agent. The agent has an id, and a new organisation gets a number that fits in the
-- word.
pub data Request : OrgWorld → OrgWorld → Type 0 where
  create :
      {w : OrgWorld} (agent_id : String) (inst : OrgReq) (now : ℕ)
      → str_eq agent_id "" ≡ false
      → w.next_org_num + 1 < word
      → Request w (handle_create_org agent_id inst now w).0
  join :
      {w : OrgWorld} (agent_id : String) (inst : OrgReq) (now : ℕ)
      → str_eq agent_id "" ≡ false
      → Request w (handle_join_org agent_id inst now w).0
  leave :
      {w : OrgWorld} (agent_id : String) (inst : OrgReq) (now : ℕ)
      → Request w (handle_leave_org agent_id inst now w).0
  deposit :
      {w : OrgWorld} (agent_id : String) (inst : OrgReq) (now : ℕ)
      → Request w (handle_org_deposit agent_id inst now w).0
  withdraw :
      {w : OrgWorld} (agent_id : String) (inst : OrgReq) (now : ℕ)
      → Request w (handle_org_withdraw agent_id inst now w).0

-- The worlds that requests lead to from `w`.
pub data Reachable (w : OrgWorld) : OrgWorld → Type 0 where
  start : Reachable w w
  later : {u u' : OrgWorld} → Reachable w u → Request u u' → Reachable w u'

Request-IsConsistent : {w u : OrgWorld} → IsConsistent w → Request w u → IsConsistent u
Request-IsConsistent v (create agent_id inst now real room) =
    handle_create_org-IsConsistent agent_id inst now real _ v room
Request-IsConsistent v (join agent_id inst now real) =
    handle_join_org-IsConsistent agent_id inst now real _ v
Request-IsConsistent v (leave agent_id inst now) =
    handle_leave_org-IsConsistent agent_id inst now _ v
Request-IsConsistent v (deposit agent_id inst now) =
    handle_org_deposit-IsConsistent agent_id inst now _ v
Request-IsConsistent v (withdraw agent_id inst now) =
    handle_org_withdraw-IsConsistent agent_id inst now _ v

-- Through any requests to found, join and leave organisations, to deposit and to withdraw, by
-- agents with ids, while the numbers of organisations do not overflow: an agent says to be in an
-- organisation exactly if it is a member of it, and each organisation has a leader, if they did at
-- first.
pub Reachable-IsConsistent : {w u : OrgWorld} → IsConsistent w → Reachable w u → IsConsistent u
Reachable-IsConsistent v start = v
Reachable-IsConsistent v (later before r) = Request-IsConsistent (Reachable-IsConsistent v before) r
