-- ===== src/Governance/Orgs.antt =====
-- The organisations: internal/sim/world/kernel/model/org.go, feature/governance/orgs/orgs.go and
-- instants/org_handlers.go. `OrgID` of an agent and its inventory are read by the agent's id; a
-- handler returns the state and the event that the agent gets. The audit log is left out, and an
-- organisation has a map of members, which may be empty, never nil.
pub mod Membership
pub mod Founding
pub mod Leaders
pub mod Joining
pub mod Leaving
pub mod Reachable
pub mod Treasury
use Prim.Native.String.{len}
use voxelcraft_ai.Prelude.{
  ℕ, String, Bool, true, false, ◌&&◌, ◌||◌, not, Option, none, some, List, [], ◌∷◌, str_eq, ◌==◌,
  leb, if◌then◌else◌, add64, sub64, lt_int, le_int, Map, lookup, insert, delete, get, is_blank,
}
use voxelcraft_ai.Kernel.Event.{Event, ar, created}
use voxelcraft_ai.Kernel.Format.{numbered}
use voxelcraft_ai.Kernel.Sort.{sort_strings, keys, first_of}
use voxelcraft_ai.Kernel.Text.{codes, trim_upper, same, trim_space}
use voxelcraft_ai.Contracts.Container.{add_item, take_item}
use voxelcraft_ai.Economy.Trade.Validation.{Check, pass, reject}
use voxelcraft_ai.Governance.Land.{
  Organization, OrgRole, leader, officer, member, is_org_member, is_org_admin,
}

-- The loop that seeds the first treasury with the one from before there were several worlds.
unfoldable pub seed_treasury : Map ℕ → Map ℕ → Map ℕ
seed_treasury m [] = m
seed_treasury m ((item, n) ∷ old) =
    seed_treasury (if str_eq item "" || le_int n 0 then m else insert item n m) old

unfoldable pub world_key : String → String
world_key world_id = if str_eq world_id "" then "GLOBAL" else world_id

-- The map of a world that has none yet.
unfoldable pub first_treasury : Organization → Map (Map ℕ) → Map ℕ
unfolding seed_treasury
first_treasury o [] = seed_treasury [] o.treasury
first_treasury o (entry ∷ by_world) = []

abbrev treasury_or : Map ℕ → Option (Map ℕ) → Map ℕ
treasury_or new none = new
treasury_or new (some m) = m

-- A write to the map that `TreasuryFor` returned: `Treasury` is the same map.
unfoldable pub put_treasury : String → Map ℕ → Organization → Organization
unfolding world_key
put_treasury world_id m o = record o {
  treasury = m;
  treasury_by_world = insert (world_key world_id) m o.treasury_by_world;
}

-- TreasuryFor
unfoldable pub treasury_for : String → Organization → Map ℕ × Organization
unfolding put_treasury first_treasury
treasury_for world_id o =
    let m =
      treasury_or (first_treasury o o.treasury_by_world)
        (lookup (world_key world_id) o.treasury_by_world) in
    (m, put_treasury world_id m o)

-- NormalizeOrgKind
unfoldable pub normalize_org_kind : String → String
normalize_org_kind kind =
    let name = trim_upper kind in
    if same name (codes "GUILD") then "GUILD" else if same name (codes "CITY") then "CITY" else ""

unfoldable pub normalize_org_name : String → String
normalize_org_name name = trim_space name

unfoldable pub validate_org_name : String → Bool
validate_org_name name =
    let trimmed = trim_space name in not (str_eq trimmed "") && leb (len trimmed) 40

unfoldable pub validate_org_transfer_input : String → String → ℕ → Check
validate_org_transfer_input org_id item_id count =
    if is_blank org_id || is_blank item_id || le_int count 0
    then reject "E_BAD_REQUEST" "missing org_id/item_id/count"
    else pass

-- SelectNextLeader; the empty text is `none`.
unfoldable pub select_next_leader : List String → Option String
select_next_leader ids = first_of (sort_strings ids)

pub record OrgWorld : Type 0 where
  pub orgs : Map Organization
  pub org_of : String → String  -- a.OrgID
  pub inventory_of : String → Map ℕ  -- a.Inventory
  pub next_org_num : ℕ
  pub world_id : String

pub record OrgReq : Type 0 where
  pub id : String
  pub org_id : String
  pub org_kind : String
  pub org_name : String
  pub item_id : String
  pub count : ℕ

-- newOrgID
unfoldable pub new_org_id : OrgWorld → String × OrgWorld
new_org_id w = let n = add64 w.next_org_num 1 in (numbered "ORG" n, record w { next_org_num = n })

-- orgByID
unfoldable pub org_by_id : OrgWorld → String → Option Organization
org_by_id w id = if str_eq id "" then none else lookup id w.orgs

abbrev pub is_leader : Option OrgRole → Bool
is_leader (some leader) = true
is_leader _ = false

module _ (agent_id : String) (inst : OrgReq) (now : ℕ) where
  abbrev pub refuse : String → String → OrgWorld → OrgWorld × Event
  refuse code msg w = (w, ar now inst.id false code msg)

  abbrev pub done : OrgWorld → OrgWorld × Event
  done w = (w, ar now inst.id true "" "ok")

  -- a.OrgID = id
  unfoldable pub set_org : String → OrgWorld → OrgWorld
  set_org id w = record w { org_of = λ (a : String). if str_eq a agent_id then id else w.org_of a }

  unfoldable pub put_org : String → Organization → OrgWorld → OrgWorld
  put_org id org w = record w { orgs = insert id org w.orgs }

  unfoldable pub new_org : String → String → String → Organization
  new_org org_id kind name = record {
    org_id = org_id;
    kind = kind;
    name = name;
    created_tick = now;
    meta_version = 1;
    org_members = (agent_id, leader) ∷ [];
    treasury = [];
    treasury_by_world = [];
  }

  -- From `NewOrgID` on.
  unfoldable pub found_org : String → String → OrgWorld → OrgWorld × Event
  unfolding new_org_id set_org put_org new_org
  found_org kind name w =
      let (org_id, w') = new_org_id w in
      (set_org org_id (put_org org_id (new_org org_id kind name) w'), created now inst.id org_id)

  unfoldable pub handle_create_org : OrgWorld → OrgWorld × Event
  unfolding found_org
  handle_create_org w =
      let kind = normalize_org_kind inst.org_kind in
      if str_eq kind ""
      then refuse "E_BAD_REQUEST" "bad org_kind" w
      else if not (validate_org_name inst.org_name)
      then refuse "E_BAD_REQUEST" "bad org_name" w
      else if not (str_eq (w.org_of agent_id) "")
      then refuse "E_CONFLICT" "already in org" w
      else found_org kind (normalize_org_name inst.org_name) w

  -- From the lookup of the organisation on.
  unfoldable pub join_found : Option Organization → OrgWorld → OrgWorld × Event
  unfolding set_org put_org
  join_found none w = refuse "E_INVALID_TARGET" "org not found" w
  join_found (some org) w =
      if not (str_eq (w.org_of agent_id) "")
      then refuse "E_CONFLICT" "already in org" w
      else (let joined = record org {
        org_members = insert agent_id member org.org_members;
        meta_version = add64 org.meta_version 1;
      } in
          done (set_org org.org_id (put_org inst.org_id joined w)))

  unfoldable pub handle_join_org : OrgWorld → OrgWorld × Event
  unfolding join_found org_by_id
  handle_join_org w =
      if str_eq inst.org_id ""
      then refuse "E_BAD_REQUEST" "missing org_id" w
      else join_found (org_by_id w inst.org_id) w

  -- The members after the promotion of the next leader, if there is one.
  unfoldable pub promote : Option String → Organization → Organization
  promote none org = org
  promote (some best) org = if str_eq best "" then org else record org {
    org_members = insert best leader org.org_members;
    meta_version = add64 org.meta_version 1;
  }

  -- The agent has left; `role` is what it had.
  unfoldable pub after_leaving :
      String → Option OrgRole → Organization → Map OrgRole → OrgWorld → OrgWorld
  unfolding promote put_org
  after_leaving id role org [] w = record w { orgs = delete id w.orgs }
  after_leaving id role org (m ∷ members) w =
      if is_leader role
      then put_org id (promote (select_next_leader (keys (m ∷ members))) org) w
      else put_org id org w

  unfoldable pub leave_found : String → Option Organization → OrgWorld → OrgWorld
  unfolding after_leaving
  leave_found id none w = w
  leave_found id (some org) w =
      let members = delete agent_id org.org_members in
      after_leaving id (lookup agent_id org.org_members)
        (record org { org_members = members; meta_version = add64 org.meta_version 1 }) members w

  unfoldable pub handle_leave_org : OrgWorld → OrgWorld × Event
  unfolding leave_found set_org org_by_id
  handle_leave_org w =
      let id = w.org_of agent_id in
      if str_eq id ""
      then refuse "E_BLOCKED" "not in org" w
      else done (leave_found id (org_by_id w id) (set_org "" w))

  -- a.Inventory = m
  unfoldable pub set_inventory : Map ℕ → OrgWorld → OrgWorld
  set_inventory m w = record w {
    inventory_of = λ (a : String). if str_eq a agent_id then m else w.inventory_of a;
  }

  unfoldable pub deposit_into : Organization → OrgWorld → OrgWorld × Event
  unfolding set_inventory put_org put_treasury
  deposit_into org w =
      let inventory = w.inventory_of agent_id in
      let (tr, org') = treasury_for w.world_id org in
      if not (is_org_member w.orgs agent_id org.org_id)
      then refuse "E_NO_PERMISSION" "not org member" w
      else if lt_int (get inventory inst.item_id) inst.count
      then refuse "E_NO_RESOURCE" "missing items" w
      else done (
          set_inventory (take_item inst.item_id inst.count inventory) (
            put_org inst.org_id (put_treasury w.world_id (add_item inst.item_id inst.count tr) org')
              w))

  unfoldable pub withdraw_from : Organization → OrgWorld → OrgWorld × Event
  unfolding set_inventory put_org put_treasury
  withdraw_from org w =
      let inventory = w.inventory_of agent_id in
      let (tr, org') = treasury_for w.world_id org in
      if not (is_org_admin w.orgs agent_id org.org_id)
      then refuse "E_NO_PERMISSION" "not org admin" w
      else if lt_int (get tr inst.item_id) inst.count
      then refuse "E_NO_RESOURCE" "treasury lacks items" (put_org inst.org_id org' w)
      else done (
          set_inventory (add_item inst.item_id inst.count inventory) (
            put_org inst.org_id
              (put_treasury w.world_id (take_item inst.item_id inst.count tr) org') w))

  -- The validation and the lookup of both transfers.
  unfoldable pub transfer_found :
      (Organization → OrgWorld → OrgWorld × Event)
      → Option Organization
      → OrgWorld
      → OrgWorld × Event
  transfer_found next none w = refuse "E_INVALID_TARGET" "org not found" w
  transfer_found next (some org) w = next org w

  unfoldable pub transfer_checked :
      (Organization → OrgWorld → OrgWorld × Event) → Check → OrgWorld → OrgWorld × Event
  unfolding transfer_found org_by_id
  transfer_checked next (reject code msg) w = refuse code msg w
  transfer_checked next pass w = transfer_found next (org_by_id w inst.org_id) w

  unfoldable pub handle_org_deposit : OrgWorld → OrgWorld × Event
  unfolding transfer_checked deposit_into
  handle_org_deposit w =
      transfer_checked deposit_into
        (validate_org_transfer_input inst.org_id inst.item_id inst.count) w

  unfoldable pub handle_org_withdraw : OrgWorld → OrgWorld × Event
  unfolding transfer_checked withdraw_from
  handle_org_withdraw w =
      transfer_checked withdraw_from
        (validate_org_transfer_input inst.org_id inst.item_id inst.count) w
