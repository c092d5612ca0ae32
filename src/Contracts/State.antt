-- ===== src/Contracts/State.antt =====
-- The part of the world's state that contracts change (internal/sim/world/world.go,
-- kernel/model/contract.go, feature/entities/runtime/meta.go). A contract and its terminal are
-- shared pointers in the source: here they are named by their keys, and written back.
use voxelcraft_ai.Prelude.{
  ℕ, arith, ◌≡◌, String, Option, none, some, Map, lookup, insert, add64, str_eq, if◌then◌else◌,
}
use voxelcraft_ai.Kernel.Vec.{Vec3i, same_pos}
use voxelcraft_ai.Kernel.Event.{Event}
use voxelcraft_ai.Kernel.Agent.{Agent, add_event}
use voxelcraft_ai.Kernel.Format.{numbered}
use voxelcraft_ai.Economy.Heap.{Heap}
use voxelcraft_ai.Contracts.Container.{Container}
use voxelcraft_ai.Contracts.Core.{ContractState}

pub record Contract : Type 0 where
  pub contract_id : String
  pub terminal_pos : Vec3i
  pub poster : String
  pub acceptor : String
  pub kind : String
  pub requirements : Map ℕ
  pub reward : Map ℕ
  pub deposit : Map ℕ
  pub blueprint_id : String
  pub anchor : Vec3i
  pub rotation : ℕ
  pub created_tick : ℕ
  pub deadline_tick : ℕ
  pub state : ContractState

pub record Site : Type 0 where
  pub agents : Map Agent
  pub containers : Vec3i → Option Container
  pub contracts : Map Contract
  pub heap : Heap
  pub next_contract_num : ℕ

-- w.contracts[c.ContractID] = c, as `PutContract` and the writes through the pointer do.
unfoldable pub put_contract : Contract → Site → Site
put_contract c w = record w { contracts = insert c.contract_id c w.contracts }

unfoldable pub put_container : Container → Site → Site
put_container c w = record w {
  containers = λ p. if same_pos p c.pos then some c else w.containers p;
}

-- a.AddEvent(e), for the agent under the id.
unfoldable pub notify : String → Event → Site → Site
notify id e w = elim (lookup id w.agents) [
  | none ↦ w
  | some a ↦ record w { agents = insert id (add_event e a) w.agents }
]

-- newContractID
unfoldable pub new_contract_id : Site → String × Site
new_contract_id w =
    let n = add64 w.next_contract_num 1 in (numbered "C" n, record w { next_contract_num = n })

-- The container at the position, if it is of the type that the id names.
typed : String → Option Container → Option Container
typed type none = none
typed type (some c) = if str_eq c.type type then some c else none

-- GetContainerByID, where `parsed` is what `ParseContainerID` reads in the id.
unfoldable pub get_container_by_id : Site → Option (String × Vec3i) → Option Container
unfolding typed
get_container_by_id w none = none
get_container_by_id w (some (type, pos)) = typed type (w.containers pos)

typed_lem :
    (type : String) (found : Option Container) {c : Container}
    → typed type found ≡ some c
    → found ≡ some c
unfolding typed
typed_lem type none e = cc
typed_lem type (some d) e = ground (arith, e)

-- A container that is found by its id stands somewhere.
pub get_container_by_id_lem :
    (w : Site) (parsed : Option (String × Vec3i)) {c : Container}
    → get_container_by_id w parsed ≡ some c
    → (p : Vec3i) × (w.containers p ≡ some c)
unfolding get_container_by_id
get_container_by_id_lem w none e = absurd (cc e)
get_container_by_id_lem w (some (type, pos)) e = (pos, typed_lem type (w.containers pos) e)

-- Items, containers and contracts stay as they are.
abbrev pub Keeps : Site → Site → Type 0
Keeps w after =
    (after.heap ≡ w.heap) × (after.containers ≡ w.containers) × (after.contracts ≡ w.contracts)

pub notify-Keeps : (id : String) (e : Event) (w : Site) → Keeps w (notify id e w)
unfolding notify
notify-Keeps id e w = ground arith
