-- ===== src/Governance/Upkeep/Decay.antt =====
-- A land for which nobody pays: its stage rises each day, until those who are no members may build.
use voxelcraft_ai.Prelude.{
  Map, ℕ, ◌+◌, ◌≤◌, ◌<◌, ◌≡◌, refl, sym, ap, ◌∙◌, inl, inr, String, Bool, false, Bool-cases, Option,
  none, some, List, [], ◌∷◌, str_eq, eq_iff, if◌then◌else◌, arith, word, ◌==◌, ltb, le_int, lookup,
  insert, lookup-insert, lookup-insert_self, insert-HasDistinctKeys, subst, HasDistinctKeys,
}
use voxelcraft_ai.Kernel.Sort.{sort_strings, keys, times, times-sort_strings, times-keys_once}
use voxelcraft_ai.Kernel.Text.{trim_space}
use voxelcraft_ai.Governance.Rules.{ClaimFlags, next_due, next_stage, for_land, wild_permissions}
use voxelcraft_ai.Kernel.Vec.{Vec3i}
use voxelcraft_ai.Governance.Land.{
  Organization, land_at, is_land_member, permissions_for, LandClaim,
}
use voxelcraft_ai.Governance.Upkeep.{
  Upkeep, Config, pay_maintenance, notify, aged, settle_land, tick_land, tick_lands,
  tick_claims_maintenance,
}
use voxelcraft_ai.Governance.Upkeep.Payment.{
  IsNobody, pay_maintenance-Keeps, pay_maintenance_nobody,
}

module _ (cfg : Config) (now : ℕ) where
  -- A land is written, and nobody stays nobody.
  abbrev Writes : String → LandClaim → Upkeep → Upkeep → Type 0
  Writes id c w u = (u.claims ≡ insert id c w.claims) × ((k : String) → IsNobody k w → IsNobody k u)

  notify-Writes :
      (id : String) (c d : LandClaim) (status : String) (w u : Upkeep)
      → Writes id c w u
      → Writes id c w (notify cfg now d status u)
  unfolding notify
  notify-Writes id c d status w u h = ground (arith, h)

  settle_land-Writes :
      (id : String) (c : LandClaim) (w : Upkeep) (paid : Bool) (u : Upkeep)
      → (u.claims ≡ w.claims) × ((k : String) → IsNobody k w → IsNobody k u)
      → Writes id (aged cfg now paid c) w (settle_land cfg now id c (paid, u))
  unfolding settle_land
  settle_land-Writes id c w paid u (same, keeps) =
      notify-Writes id (aged cfg now paid c) (aged cfg now paid c) (if paid then "PAID" else "LATE")
        w (record u { claims = insert id (aged cfg now paid c) u.claims })
        (ap (insert id (aged cfg now paid c)) same, keeps)

  -- What becomes of a land on a tick, for which nobody pays if `unpaid`.
  settled :
      (id : String) (c : LandClaim) (w : Upkeep)
      → Writes id
          (aged cfg now (pay_maintenance cfg c w).0 c)
          w
          (settle_land cfg now id c (pay_maintenance cfg c w))
  settled id c w =
      settle_land-Writes id c w (pay_maintenance cfg c w).0 (pay_maintenance cfg c w).1
        ((pay_maintenance-Keeps cfg "" c w).0, λ k. (pay_maintenance-Keeps cfg k c w).1)

  tick_land-Keeps :
      (id : String) (found : Option LandClaim) (w : Upkeep)
      → ((k : String) → IsNobody k w → IsNobody k (tick_land cfg now id found w))
        × ((j : String)
            → str_eq id j ≡ false
            → lookup j (tick_land cfg now id found w).claims ≡ lookup j w.claims)
        × (HasDistinctKeys w.claims → HasDistinctKeys (tick_land cfg now id found w).claims)
  unfolding tick_land
  tick_land-Keeps id none w = (λ k n. n, λ j h. refl, λ d. d)
  tick_land-Keeps id (some c) w = elim (Bool-cases (c.maintenance_due_tick == 0)) [
    | inl unset ↦ rw unset (
      λ k n. n,
      λ j h. lookup-insert id j _ w.claims ∙ rw h refl,
      insert-HasDistinctKeys id _ w.claims,
    )
    | inr due ↦ elim (Bool-cases (ltb now c.maintenance_due_tick)) [
      | inl early ↦ rw (due, early) (λ k n. n, λ j h. refl, λ d. d)
      | inr late ↦
          let (claims, keeps) = settled id c w in
          rw (due, late)
            (
              keeps,
              λ j h. ap (lookup j) claims ∙ lookup-insert id j _ w.claims ∙ rw h refl,
              λ d. subst HasDistinctKeys (sym claims) (insert-HasDistinctKeys id _ w.claims d),
            )
    ]
  ]

  tick_land_nobody :
      (id : String) (c : LandClaim) (w : Upkeep)
      → IsNobody (trim_space c.owner) w
      → (c.maintenance_due_tick == 0) ≡ false
      → ltb now c.maintenance_due_tick ≡ false
      → lookup id (tick_land cfg now id (some c) w).claims ≡ some (aged cfg now false c)
  unfolding tick_land
  tick_land_nobody id c w n due late =
      rw (due, late)
        (ap (lookup id) (settled id c w).0
          ∙ lookup-insert_self id (aged cfg now (pay_maintenance cfg c w).0 c) w.claims
          ∙ ap (λ paid. some (aged cfg now paid c)) (pay_maintenance_nobody cfg c w n))

  tick_lands-Keeps :
      (ids : List String) (w : Upkeep)
      → ((k : String) → IsNobody k w → IsNobody k (tick_lands cfg now ids w))
        × ((j : String)
            → times j ids ≡ 0
            → lookup j (tick_lands cfg now ids w).claims ≡ lookup j w.claims)
        × (HasDistinctKeys w.claims → HasDistinctKeys (tick_lands cfg now ids w).claims)
  unfolding tick_lands
  tick_lands-Keeps [] w = (λ k n. n, λ j h. refl, λ d. d)
  tick_lands-Keeps (id ∷ ids) w =
      let (near, here, keys_near) = tick_land-Keeps id (lookup id w.claims) w in
      let (far, there, keys_far) =
        tick_lands-Keeps ids (tick_land cfg now id (lookup id w.claims) w) in
      (
        λ k n. far k (near k n),
        λ j h. there j (ground (arith, h)) ∙ here j (ground (arith, h)),
        λ d. keys_far (keys_near d),
      )

  tick_lands_nobody :
      (id : String) (c : LandClaim) (ids : List String) (w : Upkeep)
      → lookup id w.claims ≡ some c
      → times id ids ≡ 1
      → IsNobody (trim_space c.owner) w
      → (c.maintenance_due_tick == 0) ≡ false
      → ltb now c.maintenance_due_tick ≡ false
      → lookup id (tick_lands cfg now ids w).claims ≡ some (aged cfg now false c)
  unfolding tick_lands
  tick_lands_nobody id c [] w e once n due late = absurd (omega (arith, once))
  tick_lands_nobody id c (i ∷ ids) w e once n due late = elim (Bool-cases (str_eq i id)) [
    | inl hit ↦
        let rest =
          (tick_lands-Keeps ids (tick_land cfg now i (lookup i w.claims) w)).1 id
            (ground (arith, once, hit)) in
        rest ∙ rw ((eq_iff i id).0 hit, e) (tick_land_nobody id c w n due late)
    | inr miss ↦
        let (near, here, _) = tick_land-Keeps i (lookup i w.claims) w in
        tick_lands_nobody id c ids (tick_land cfg now i (lookup i w.claims) w) (here id miss ∙ e)
          (ground (arith, once, miss)) (near (trim_space c.owner) n) due late
  ]

  tick-IsNobody :
      (id : String) (c : LandClaim) (w : Upkeep)
      → le_int cfg.day_ticks 0 ≡ false
      → HasDistinctKeys w.claims
      → lookup id w.claims ≡ some c
      → IsNobody (trim_space c.owner) w
      → (c.maintenance_due_tick == 0) ≡ false
      → ltb now c.maintenance_due_tick ≡ false
      → (lookup id (tick_claims_maintenance cfg now w).claims ≡ some (aged cfg now false c))
        × IsNobody (trim_space c.owner) (tick_claims_maintenance cfg now w)
        × HasDistinctKeys (tick_claims_maintenance cfg now w).claims
  unfolding tick_claims_maintenance
  tick-IsNobody id c w days d e n due late =
      let ids = sort_strings (keys w.claims) in
      let once : times id ids ≡ 1 =
        times-sort_strings id (keys w.claims) ∙ times-keys_once id c w.claims d e in
      let (still, _, distinct) = tick_lands-Keeps ids w in
      rw days
        (tick_lands_nobody id c ids w e once n due late, still (trim_space c.owner) n, distinct d)

aged_lem :
    (cfg : Config) (now : ℕ) (c : LandClaim)
    → le_int cfg.day_ticks 0 ≡ false
    → c.maintenance_stage ≤ 2
    → 0 < c.maintenance_due_tick
    → c.maintenance_due_tick + cfg.day_ticks < word
    → ((aged cfg now false c).maintenance_due_tick ≡ c.maintenance_due_tick + cfg.day_ticks)
      × ((aged cfg now false c).maintenance_stage ≤ 2)
      × (1 ≤ (aged cfg now false c).maintenance_stage)
unfolding next_due next_stage
aged_lem cfg now c days low due room = ground arith

open_to_outsiders :
    (cfg : Config) (now : ℕ) (c : LandClaim)
    → c.maintenance_stage ≤ 2
    → 1 ≤ c.maintenance_stage
    → (flags : ClaimFlags)
    → for_land false (aged cfg now false c).maintenance_stage flags ≡ wild_permissions
unfolding next_stage for_land
open_to_outsiders cfg now c low high flags = ground arith

permissions_outside :
    (claims : Map LandClaim) (orgs : Map Organization) (agent_id : String) (pos : Vec3i)
    (c : LandClaim)
    → land_at claims pos ≡ some c
    → is_land_member orgs agent_id c ≡ false
    → ((flags : ClaimFlags) → for_land false c.maintenance_stage flags ≡ wild_permissions)
    → (permissions_for claims orgs agent_id pos).1 ≡ wild_permissions
unfolding permissions_for
permissions_outside claims orgs agent_id pos c here outsider wild =
    rw (here, outsider) (wild c.flags)

-- Where a day has ticks, a land is due and its owner is neither an organisation nor an agent, then
-- after a tick when it is due, and a tick a day after that due tick or later, an agent that is no
-- member of it has the permissions of the wild at each position that is found to be on it, as
-- non-members of it have whatever its flags; keys are distinct, its stage is at most 2, and its
-- due ticks do not overflow.
pub tick_claims_maintenance_decay :
    (cfg : Config) (w : Upkeep) (id : String) (c : LandClaim) (now later : ℕ)
    → le_int cfg.day_ticks 0 ≡ false
    → HasDistinctKeys w.claims
    → lookup id w.claims ≡ some c
    → IsNobody (trim_space c.owner) w
    → c.maintenance_stage ≤ 2
    → 0 < c.maintenance_due_tick
    → c.maintenance_due_tick ≤ now
    → c.maintenance_due_tick + cfg.day_ticks < word
    → c.maintenance_due_tick + cfg.day_ticks ≤ later
    → (after : LandClaim) × (lookup id
          (tick_claims_maintenance cfg later (tick_claims_maintenance cfg now w)).claims
        ≡ some after)
      × ((flags : ClaimFlags) → for_land false after.maintenance_stage flags ≡ wild_permissions)
      × ((claims : Map LandClaim) (orgs : Map Organization) (agent_id : String) (pos : Vec3i)
          → land_at claims pos ≡ some after
          → is_land_member orgs agent_id after ≡ false
          → (permissions_for claims orgs agent_id pos).1 ≡ wild_permissions)
tick_claims_maintenance_decay cfg w id c now later days d e n low due late room late' =
    let (e', n', d') = tick-IsNobody cfg now id c w days d e n (ground arith) (ground arith) in
    let c' = aged cfg now false c in
    let (at, low', high) = aged_lem cfg now c days low due room in
    let (e'', _, _) =
      tick-IsNobody cfg later id c' (tick_claims_maintenance cfg now w) days d' e' n'
        (ground (arith, at)) (ground (arith, at)) in
    let wild = open_to_outsiders cfg later c' low' high in
    (
      aged cfg later false c',
      e'',
      wild,
      λ claims orgs agent_id pos here outsider.
          permissions_outside claims orgs agent_id pos _ here outsider wild,
    )
