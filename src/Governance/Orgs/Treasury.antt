-- ===== src/Governance/Orgs/Treasury.antt =====
-- A transfer between the inventory of an agent and the treasury of an organisation loses nothing.
use voxelcraft_ai.Prelude.{
  ℕ, ◌+◌, ◌<◌, ◌≡◌, refl, sym, ap, subst, ◌∙◌, String, false, Bool-cases, Option, none, some, inl,
  inr, [], str_eq, eq_iff, arith, half, word, Map, lookup, get, lookup-insert_self, lt_int, le_int,
  is_blank,
}
use mathlib.Core.Option.{some-injective}
use voxelcraft_ai.Kernel.Event.{Event}
use voxelcraft_ai.Contracts.Container.{add_item, take_item}
use voxelcraft_ai.Contracts.Container.Ledger.{get-add_item, get-take_item}
use voxelcraft_ai.Economy.Trade.Validation.{Check, pass, reject}
use voxelcraft_ai.Governance.Land.{Organization, is_org_member, is_org_admin}
use voxelcraft_ai.Governance.Orgs.{
  OrgWorld, OrgReq, world_key, put_treasury, treasury_for, validate_org_transfer_input,
  set_inventory, put_org, deposit_into, withdraw_from, transfer_found, transfer_checked,
  handle_org_deposit, handle_org_withdraw, org_by_id,
}

pub treasury_for-put :
    (world_id : String) (m : Map ℕ) (o : Organization)
    → (treasury_for world_id (put_treasury world_id m o)).0 ≡ m
unfolding treasury_for put_treasury
treasury_for-put world_id m o =
    rw (lookup-insert_self (world_key world_id) m o.treasury_by_world) refl

abbrev fund : String → Option Organization → Map ℕ
fund world_id none = []
fund world_id (some org) = (treasury_for world_id org).0

-- What an agent and an organisation have of an item in this world.
abbrev pub held : OrgWorld → (agent_id org_id item : String) → ℕ
held w agent_id org_id item =
    get (w.inventory_of agent_id) item + get (fund w.world_id (lookup org_id w.orgs)) item

exchange :
    (item j : String) (n : ℕ) (from to : Map ℕ)
    → get from j + get to j < half
    → n < word
    → le_int n 0 ≡ false
    → lt_int (get from item) n ≡ false
    → get (take_item item n from) j + get (add_item item n to) j ≡ get from j + get to j
exchange item j n from to fits small positive enough = elim (Bool-cases (str_eq item j)) [
  | inr apart ↦ ground (arith, get-take_item item n from j, get-add_item item n to j)
  | inl same ↦
      let at = ap (get from) ((eq_iff item j).0 same) in
      ground (arith, get-take_item item n from j, get-add_item item n to j)
]

module _ (agent_id : String) (inst : OrgReq) (now : ℕ) (w : OrgWorld) (org : Organization)
    (item : String) (here : lookup inst.org_id w.orgs ≡ some org) (small : inst.count < word)
    (positive : le_int inst.count 0 ≡ false) (fits : held w agent_id inst.org_id item < half) where
  -- A transfer that leaves the inventory `m` and the treasury `tr`.
  held_after :
      (m tr : Map ℕ) (o : Organization)
      → held
          (set_inventory agent_id inst now m
            (put_org agent_id inst now inst.org_id (put_treasury w.world_id tr o) w))
          agent_id
          inst.org_id
          item
        ≡ get m item + get tr item
  unfolding set_inventory put_org
  held_after m tr o =
      rw
        (
          lookup-insert_self inst.org_id (put_treasury w.world_id tr o) w.orgs,
          (eq_iff agent_id agent_id).1 refl,
          treasury_for-put w.world_id tr o,
        )
        refl

  held_now : get (w.inventory_of agent_id) item + get (treasury_for w.world_id org).0 item < half
  held_now =
      subst (λ o. get (w.inventory_of agent_id) item + get (fund w.world_id o) item < half) here
        fits

  held-deposit_into :
      held (deposit_into agent_id inst now org w).0 agent_id inst.org_id item
      ≡ held w agent_id inst.org_id item
  unfolding deposit_into
  held-deposit_into = elim (Bool-cases (is_org_member w.orgs agent_id org.org_id)) [
    | inr outside ↦ rw outside refl
    | inl inside ↦
        elim (Bool-cases (lt_int (get (w.inventory_of agent_id) inst.item_id) inst.count)) [
          | inl short ↦ rw (inside, short) refl
          | inr enough ↦
              rw (inside, enough, here)
                (held_after _ (add_item inst.item_id inst.count (treasury_for w.world_id org).0)
                    (treasury_for w.world_id org).1
                  ∙ exchange inst.item_id item inst.count _ _ held_now small positive enough)
        ]
  ]

  held-withdraw_from :
      held (withdraw_from agent_id inst now org w).0 agent_id inst.org_id item
      ≡ held w agent_id inst.org_id item
  unfolding withdraw_from treasury_for
  held-withdraw_from = elim (Bool-cases (is_org_admin w.orgs agent_id org.org_id)) [
    | inr outside ↦ rw outside refl
    | inl inside ↦
        elim (Bool-cases (lt_int (get (treasury_for w.world_id org).0 inst.item_id) inst.count)) [
          | inl short ↦
              rw
                (
                  inside,
                  short,
                  here,
                  lookup-insert_self inst.org_id (treasury_for w.world_id org).1 w.orgs,
                )
                (ap (λ (m : Map ℕ). get (w.inventory_of agent_id) item + get m item)
                  (treasury_for-put w.world_id (treasury_for w.world_id org).0 org))
          | inr enough ↦
              rw (inside, enough, here)
                (held_after _ (take_item inst.item_id inst.count (treasury_for w.world_id org).0)
                    (treasury_for w.world_id org).1
                  ∙ omega (
                    arith,
                    held_now,
                    exchange inst.item_id item inst.count (treasury_for w.world_id org).0
                        (w.inventory_of agent_id) (omega (arith, held_now)) small positive enough,
                  ))
        ]
  ]

module _ (agent_id : String) (inst : OrgReq) (now : ℕ) (w : OrgWorld) where
  named : is_blank inst.org_id ≡ false → str_eq inst.org_id "" ≡ false
  unfolding is_blank
  named h = elim (Bool-cases (str_eq inst.org_id "")) [
    | inr real ↦ real
    | inl blank ↦ cc (sym h ∙ ap is_blank ((eq_iff inst.org_id "").0 blank))
  ]

  accepted :
      validate_org_transfer_input inst.org_id inst.item_id inst.count ≡ pass
      → (le_int inst.count 0 ≡ false) × (str_eq inst.org_id "" ≡ false)
  unfolding validate_org_transfer_input
  accepted e = ground (arith, named)

  module _ (P : OrgWorld → Type 0) (same : P w) (next : Organization → OrgWorld → OrgWorld × Event)
      (step : (org : Organization)
        → lookup inst.org_id w.orgs ≡ some org
        → le_int inst.count 0 ≡ false
        → P (next org w).0) where
    transfer_found_lem :
        (found : Option Organization)
        → lookup inst.org_id w.orgs ≡ found
        → le_int inst.count 0 ≡ false
        → P (transfer_found agent_id inst now next found w).0
    unfolding transfer_found
    transfer_found_lem none e positive = same
    transfer_found_lem (some org) e positive = step org e positive

    -- What the rejected transfer keeps and the step brings about.
    pub transfer_checked_lem :
        (c : Check)
        → validate_org_transfer_input inst.org_id inst.item_id inst.count ≡ c
        → P (transfer_checked agent_id inst now next c w).0
    unfolding transfer_checked org_by_id
    transfer_checked_lem (reject code msg) e = same
    transfer_checked_lem pass e =
        let (positive, real) = accepted e in rw real (transfer_found_lem _ refl positive)

  -- Where an agent and an organisation have together fewer than 2 ^ 63 of an item, a deposit and a
  -- withdrawal keep that number, and they change nothing for an agent who is no member, or no
  -- admin.
  pub handle_org_transfer_lem :
      (item : String)
      → inst.count < word
      → held w agent_id inst.org_id item < half
      → (held (handle_org_deposit agent_id inst now w).0 agent_id inst.org_id item
          ≡ held w agent_id inst.org_id item)
        × (held (handle_org_withdraw agent_id inst now w).0 agent_id inst.org_id item
            ≡ held w agent_id inst.org_id item)
        × ((org : Organization)
            → lookup inst.org_id w.orgs ≡ some org
            → (is_org_member w.orgs agent_id org.org_id ≡ false
                → (handle_org_deposit agent_id inst now w).0 ≡ w)
              × (is_org_admin w.orgs agent_id org.org_id ≡ false
                  → (handle_org_withdraw agent_id inst now w).0 ≡ w))
  unfolding handle_org_deposit handle_org_withdraw deposit_into withdraw_from
  handle_org_transfer_lem item small fits = (
    transfer_checked_lem (λ u. held u agent_id inst.org_id item ≡ held w agent_id inst.org_id item)
        refl (deposit_into agent_id inst now)
        (λ org here positive.
          held-deposit_into agent_id inst now w org item here small positive fits)
        _ refl,
    transfer_checked_lem (λ u. held u agent_id inst.org_id item ≡ held w agent_id inst.org_id item)
        refl (withdraw_from agent_id inst now)
        (λ org here positive.
          held-withdraw_from agent_id inst now w org item here small positive fits)
        _ refl,
    λ org here. (
      λ outside.
          transfer_checked_lem (λ u. u ≡ w) refl (deposit_into agent_id inst now)
            (λ o e positive.
              rw
                (ap (λ (x : Organization). is_org_member w.orgs agent_id x.org_id)
                    (some-injective _ _ (sym e ∙ here))
                  ∙ outside)
                refl)
            _ refl,
      λ outside.
          transfer_checked_lem (λ u. u ≡ w) refl (withdraw_from agent_id inst now)
            (λ o e positive.
              rw
                (ap (λ (x : Organization). is_org_admin w.orgs agent_id x.org_id)
                    (some-injective _ _ (sym e ∙ here))
                  ∙ outside)
                refl)
            _ refl,
    ),
  )
