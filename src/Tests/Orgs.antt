-- ===== src/Tests/Orgs.antt =====
-- Two agents and their organisation.
use voxelcraft_ai.Prelude.{◌<◌, ◌≡◌, refl, false, some, insert, [], ◌∷◌, arith, half, lookup, get}
use voxelcraft_ai.Governance.Land.{Organization, leader, is_org_member, is_org_admin}
use voxelcraft_ai.Governance.Orgs.{
  OrgWorld, OrgReq, handle_create_org, handle_join_org, handle_leave_org, handle_org_deposit,
  handle_org_withdraw, treasury_for, put_treasury, first_treasury, world_key,
}
use voxelcraft_ai.Governance.Orgs.Membership.{IsConsistent}
use voxelcraft_ai.Governance.Orgs.Reachable.{
  create, join, leave, start, later, Reachable-IsConsistent,
}
use voxelcraft_ai.Governance.Orgs.Treasury.{held, handle_org_transfer_lem}

abbrev empty_world : OrgWorld
empty_world = record {
  orgs = [];
  org_of = λ a. "";
  inventory_of = λ a. ("COAL", 7) ∷ [];
  next_org_num = 0;
  world_id = "W1";
}

empty-IsConsistent : IsConsistent empty_world
unfolding lookup
empty-IsConsistent = record {
  joined = λ a h. cc h;
  listed = λ id a org h m. cc h;
  led = λ id org h. cc h;
  named = λ id org h. cc h;
  free = λ n a b. refl;
}

abbrev request : OrgReq
request = record {
  id = "I1";
  org_id = "ORG000001";
  org_kind = "GUILD";
  org_name = "Miners";
  item_id = "COAL";
  count = 2;
}

-- A1 founds an organisation, A2 joins it, and A1 leaves it.
abbrev founded : OrgWorld
founded = (handle_create_org "A1" request 10 empty_world).0

abbrev both : OrgWorld
both = (handle_join_org "A2" request 11 founded).0

abbrev led_by_second : OrgWorld
led_by_second = (handle_leave_org "A1" request 12 both).0

Reachable-IsConsistent_example : IsConsistent led_by_second
Reachable-IsConsistent_example = Reachable-IsConsistent empty-IsConsistent (
    later
      (later (later start (create "A1" request 10 refl (omega arith))) (join "A2" request 11 refl))
      (leave "A1" request 12))

abbrev miners : Organization
miners = record {
  org_id = "ORG000001";
  kind = "GUILD";
  name = "Miners";
  created_tick = 10;
  meta_version = 2;
  org_members = ("A1", leader) ∷ [];
  treasury = [];
  treasury_by_world = ("W1", ("COAL", 4) ∷ []) ∷ [];
}

abbrev mining : OrgWorld
mining = record empty_world { orgs = ("ORG000001", miners) ∷ [] }

mining_fits : held mining "A1" "ORG000001" "COAL" < half
unfolding get lookup treasury_for put_treasury first_treasury world_key insert
mining_fits = omega arith

handle_org_transfer_lem_example :
    (held (handle_org_deposit "A1" request 20 mining).0 "A1" "ORG000001" "COAL"
      ≡ held mining "A1" "ORG000001" "COAL")
    × (held (handle_org_withdraw "A1" request 20 mining).0 "A1" "ORG000001" "COAL"
        ≡ held mining "A1" "ORG000001" "COAL")
    × ((org : Organization)
        → lookup "ORG000001" mining.orgs ≡ some org
        → (is_org_member mining.orgs "A1" org.org_id ≡ false
            → (handle_org_deposit "A1" request 20 mining).0 ≡ mining)
          × (is_org_admin mining.orgs "A1" org.org_id ≡ false
              → (handle_org_withdraw "A1" request 20 mining).0 ≡ mining))
handle_org_transfer_lem_example =
    handle_org_transfer_lem "A1" request 20 mining "COAL" (omega arith) mining_fits
