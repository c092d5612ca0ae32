-- ===== src/Governance/Orgs/Membership.antt =====
-- Who is in an organisation is told by the agent and by the organisation alike, and each
-- organisation has a leader.
use voxelcraft_ai.Prelude.{
  ℕ, ◌<◌, ◌≡◌, ◌≢◌, ◌⊎◌, refl, sym, ap, subst, ◌∙◌, String, true, false, Bool-cases, Option-cases,
  none, some, inl, inr, str_eq, eq_iff, if◌then◌else◌, arith, word, lookup, insert, lookup-insert,
}
use mathlib.Core.Option.{some-injective}
use voxelcraft_ai.Kernel.Format.{numbered}
use voxelcraft_ai.Governance.Land.{Organization, leader}
use voxelcraft_ai.Governance.Orgs.{OrgWorld}

pub record IsConsistent (w : OrgWorld) : Type 0 where
  -- Who says to be in an organisation is a member of it.
  pub joined :
      (a : String)
      → str_eq (w.org_of a) "" ≡ false
      → (org : Organization) × (lookup (w.org_of a) w.orgs ≡ some org)
        × (lookup a org.org_members ≢ none)
  -- A member says to be in the organisation, and has an id.
  pub listed :
      (id a : String) (org : Organization)
      → lookup id w.orgs ≡ some org
      → lookup a org.org_members ≢ none
      → (w.org_of a ≡ id) × (str_eq a "" ≡ false)
  pub led :
      (id : String) (org : Organization)
      → lookup id w.orgs ≡ some org
      → (a : String) × (lookup a org.org_members ≡ some leader)
  pub named :
      (id : String) (org : Organization)
      → lookup id w.orgs ≡ some org
      → (org.org_id ≡ id) × (str_eq id "" ≡ false)
  -- The ids that are still to come are free.
  pub free : (n : ℕ) → w.next_org_num < n → n < word → lookup (numbered "ORG" n) w.orgs ≡ none

-- The organisation `org` is put under `id`, and the agent says to be in `new`: in this organisation,
-- or in none.
module _ (w : OrgWorld) (v : IsConsistent w) (agent id new : String) (org : Organization) where
  abbrev Others : Type 0
  Others =
      (a : String)
      → str_eq a agent ≡ false
      → ((lookup a org.org_members ≢ none) → (w.org_of a ≡ id) × (str_eq a "" ≡ false))
        × (w.org_of a ≡ id → lookup a org.org_members ≢ none)

  pub record Put : Type 0 where
    pub has_name : (str_eq id "" ≡ false) × (org.org_id ≡ id)
    pub has_agent : str_eq agent "" ≡ false
    pub others : Others
    pub own :
        (new ≡ id) × (lookup agent org.org_members ≢ none)
        ⊎ (new ≡ "") × (lookup agent org.org_members ≡ none)
    pub before : (w.org_of agent ≡ "") ⊎ (w.org_of agent ≡ id)
    pub leads : (a : String) × (lookup a org.org_members ≡ some leader)

  module _ (u : OrgWorld) (p : Put) (orgs : u.orgs ≡ insert id org w.orgs)
      (org_of : (a : String) → u.org_of a ≡ (if str_eq a agent then new else w.org_of a)) where
    found : (i : String) → lookup i u.orgs ≡ (if str_eq id i then some org else lookup i w.orgs)
    found i = ap (lookup i) orgs ∙ lookup-insert id i org w.orgs

    found_here : lookup id u.orgs ≡ some org
    found_here = ground (arith, found id, eq_iff id id)

    put_joined :
        (a : String)
        → str_eq (u.org_of a) "" ≡ false
        → (o : Organization) × (lookup (u.org_of a) u.orgs ≡ some o)
          × (lookup a o.org_members ≢ none)
    put_joined a h = elim (Bool-cases (str_eq a agent)) [
      | inl me ↦ elim p.own [
        | inr (none_now, gone) ↦
            let blank : u.org_of a ≡ "" = org_of a ∙ rw me none_now in
            cc (sym h ∙ ap (λ s. str_eq s "") blank)
        | inl (here, there) ↦
            let now : u.org_of a ≡ id = org_of a ∙ rw me here in
            (
              org,
              rw now (found_here),
              subst (λ x. lookup x org.org_members ≢ none) (sym ((eq_iff a agent).0 me)) there,
            )
      ]
      | inr other ↦
          let now : u.org_of a ≡ w.org_of a = org_of a ∙ rw other refl in
          let (o, e, m) = v.joined a (rw now at h) in
          elim (Bool-cases (str_eq id (w.org_of a))) [
            | inl same ↦
                let here : w.org_of a ≡ id = sym ((eq_iff id (w.org_of a)).0 same) in
                (org, rw (now, here) found_here, (p.others a other).1 here)
            | inr apart ↦ (o, rw now (found (w.org_of a) ∙ rw apart e), m)
          ]
    ]

    -- The agent was in no other organisation.
    moved_away :
        (i a : String) (o : Organization)
        → str_eq id i ≡ false
        → lookup i w.orgs ≡ some o
        → w.org_of a ≡ i
        → str_eq a agent ≡ true
        → ⊥
    moved_away i a o apart old there me =
        let at : w.org_of agent ≡ i = ap w.org_of (sym ((eq_iff a agent).0 me)) ∙ there in
        elim p.before [
          | inl nowhere ↦ cc (sym (v.named i o old).1 ∙ ap (λ s. str_eq s "") (sym at ∙ nowhere))
          | inr here ↦ cc (sym apart ∙ (eq_iff id i).1 (sym here ∙ at))
        ]

    put_listed_here :
        (a : String) {i : String}
        → (lookup a org.org_members ≢ none)
        → id ≡ i
        → (u.org_of a ≡ i) × (str_eq a "" ≡ false)
    put_listed_here a m at = elim (Bool-cases (str_eq a agent)) [
      | inr other ↦
          let (there, real) = (p.others a other).0 m in (org_of a ∙ rw other (there ∙ at), real)
      | inl me ↦ elim p.own [
        | inl (here, there) ↦ (
          org_of a ∙ rw me (here ∙ at),
          ap (λ s. str_eq s "") ((eq_iff a agent).0 me) ∙ p.has_agent,
        )
        | inr (none_now, gone) ↦
            absurd (m (ap (λ s. lookup s org.org_members) ((eq_iff a agent).0 me) ∙ gone))
      ]
    ]

    put_listed :
        (i a : String) (o : Organization)
        → lookup i u.orgs ≡ some o
        → lookup a o.org_members ≢ none
        → (u.org_of a ≡ i) × (str_eq a "" ≡ false)
    put_listed i a o h m = elim (Bool-cases (str_eq id i)) [
      | inl here ↦
          let is_org : org ≡ o = some-injective _ _ (sym (found i ∙ rw here refl) ∙ h) in
          let at : id ≡ i = (eq_iff id i).0 here in
          put_listed_here a
            (subst (λ (x : Organization). lookup a x.org_members ≢ none) (sym is_org) m) at
      | inr apart ↦
          let old : lookup i w.orgs ≡ some o = sym (found i ∙ rw apart refl) ∙ h in
          let (there, real) = v.listed i a o old m in
          elim (Bool-cases (str_eq a agent)) [
            | inr other ↦ (org_of a ∙ rw other there, real)
            | inl me ↦ absurd (moved_away i a o apart old there me)
          ]
    ]

    put_here :
        (i : String) (o : Organization)
        → lookup i u.orgs ≡ some o
        → (id ≡ i) × (org ≡ o) ⊎ (lookup i w.orgs ≡ some o)
    put_here i o h = elim (Bool-cases (str_eq id i)) [
      | inl here ↦ inl ((eq_iff id i).0 here, some-injective _ _ (sym (found i ∙ rw here refl) ∙ h))
      | inr apart ↦ inr (sym (found i ∙ rw apart refl) ∙ h)
    ]

    pub put-IsConsistent :
        ((n : ℕ)
          → u.next_org_num < n
          → n < word
          → (lookup (numbered "ORG" n) w.orgs ≡ none) × (str_eq id (numbered "ORG" n) ≡ false))
        → IsConsistent u
    put-IsConsistent free = record {
      joined = put_joined;
      listed = put_listed;
      led = λ i o h. elim (put_here i o h) [
        | inl (at, same) ↦
            subst (λ (x : Organization). (a : String) × (lookup a x.org_members ≡ some leader)) same
              p.leads
        | inr old ↦ v.led i o old
      ];
      named = λ i o h. elim (put_here i o h) [
        | inl (at, same) ↦ (
          ap (λ (x : Organization). x.org_id) (sym same) ∙ p.has_name.1 ∙ at,
          ap (λ s. str_eq s "") (sym at) ∙ p.has_name.0,
        )
        | inr old ↦ v.named i o old
      ];
      free = λ n a b. let (gone, apart) = free n a b in found (numbered "ORG" n) ∙ rw apart gone;
    }

-- What an organisation that is there tells of an agent.
pub told_alike :
    (w : OrgWorld) (v : IsConsistent w) (id : String) (org : Organization)
    → lookup id w.orgs ≡ some org
    → (a : String)
    → ((lookup a org.org_members ≢ none) → (w.org_of a ≡ id) × (str_eq a "" ≡ false))
      × (w.org_of a ≡ id → lookup a org.org_members ≢ none)
told_alike w v id org e a = (
  v.listed id a org e,
  λ at.
      let (o, e', m) = v.joined a (ap (λ s. str_eq s "") at ∙ (v.named id org e).1) in
      subst (λ (x : Organization). lookup a x.org_members ≢ none)
        (some-injective _ _ (sym e' ∙ ap (λ s. lookup s w.orgs) at ∙ e)) m,
)

-- An id that is still to come is another one than that of an organisation that is there.
pub free-apart :
    (w : OrgWorld) (v : IsConsistent w) (id : String) (org : Organization)
    → lookup id w.orgs ≡ some org
    → (n : ℕ) → w.next_org_num < n
    → n < word
    → (lookup (numbered "ORG" n) w.orgs ≡ none) × (str_eq id (numbered "ORG" n) ≡ false)
free-apart w v id org e n a b = elim (Bool-cases (str_eq id (numbered "ORG" n))) [
  | inr apart ↦ (v.free n a b, apart)
  | inl hit ↦ cc (sym (v.free n a b) ∙ ap (λ s. lookup s w.orgs) (sym ((eq_iff _ _).0 hit)) ∙ e)
]

-- Who is in no organisation is no member of one.
pub outside-none :
    (w : OrgWorld) (v : IsConsistent w) (id : String) (org : Organization) (agent : String)
    → lookup id w.orgs ≡ some org
    → w.org_of agent ≡ ""
    → lookup agent org.org_members ≡ none
outside-none w v id org agent e nowhere = elim (Option-cases (lookup agent org.org_members)) [
  | inl absent ↦ absent
  | inr (r, present) ↦
      let at = ((told_alike w v id org e agent).0 (λ n. cc (sym n ∙ present))).0 in
      cc (sym (v.named id org e).1 ∙ ap (λ s. str_eq s "") (sym at ∙ nowhere))
]
