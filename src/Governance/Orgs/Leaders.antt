-- ===== src/Governance/Orgs/Leaders.antt =====
-- Who may lead an organisation after its leader has left.
use Prim.Native.String.{compare}
use Prim.Native.Nat.{Ordering}
use voxelcraft_ai.Prelude.{
  ◌≡◌, ◌≢◌, refl, sym, ap, ◌∙◌, String, Bool-cases, none, some, inl, inr, List, [], ◌∷◌, eq_iff,
  if◌then◌else◌, arith, Map, lookup, insert, lookup-insert, All, str_eq,
}
use voxelcraft_ai.Kernel.Sort.{sort_strings, place, keys, first_of, All-sort_strings, first-All}
use voxelcraft_ai.Governance.Land.{OrgRole, leader}
use voxelcraft_ai.Governance.Orgs.{select_next_leader}

module _ (m : Map OrgRole) where
  all_keys :
      (part : Map OrgRole)
      → ((k : String) → lookup k part ≢ none → lookup k m ≢ none)
      → All (λ k. lookup k m ≢ none) (keys part)
  unfolding keys lookup
  all_keys [] f = tt
  all_keys ((k, r) ∷ part) f = (
    f k (λ n. ground (arith, n, eq_iff k k)),
    all_keys part (λ i h. f i (λ n. h (ground (arith, n, eq_iff k i)))),
  )

  -- The promoted agent is a member.
  pub select_next_leader_member :
      (best : String) → select_next_leader (keys m) ≡ some best → lookup best m ≢ none
  unfolding select_next_leader
  select_next_leader_member best e =
      first-All (λ k. lookup k m ≢ none) _ best
        (All-sort_strings _ (keys m) (all_keys m (λ k h. h))) e

place-some :
    (id : String) (ids : List String) → (best : String) × (first_of (place id ids) ≡ some best)
unfolding place
place-some id [] = (id, refl)
place-some id (other ∷ ids) =
    elim (compare id other)
      as (λ o.
        (best : String) × (first_of
            (elim o [ Ordering.gt ↦ other ∷ place id ids | _ ↦ id ∷ other ∷ ids ])
          ≡ some best)) [ Ordering.gt ↦ (other, refl) | _ ↦ (id, refl) ]

-- Where there is a member, one is promoted.
pub select_next_leader-some :
    (k : String) (r : OrgRole) (m : Map OrgRole)
    → (best : String) × (select_next_leader (keys ((k, r) ∷ m)) ≡ some best)
unfolding select_next_leader sort_strings keys
select_next_leader-some k r m = place-some k (sort_strings (keys m))

-- The promotion of a member brings in no other.
pub promoted_alike :
    (best : String) (m : Map OrgRole)
    → lookup best m ≢ none
    → (a : String)
    → (lookup a (insert best leader m) ≡ none → lookup a m ≡ none)
      × (lookup a m ≡ none → lookup a (insert best leader m) ≡ none)
promoted_alike best m h a = elim (Bool-cases (str_eq best a)) [
  | inl same ↦ (
    λ e. cc (
        sym e
        ∙ lookup-insert best a leader m
        ∙ ap (λ b. if b then some leader else lookup a m) same),
    λ e. absurd (h (ap (λ x. lookup x m) ((eq_iff best a).0 same) ∙ e)),
  )
  | inr apart ↦
      let at : lookup a (insert best leader m) ≡ lookup a m =
        lookup-insert best a leader m ∙ rw apart refl in
      (λ e. sym at ∙ e, λ e. at ∙ e)
]
