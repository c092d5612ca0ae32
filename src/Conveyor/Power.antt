-- ===== src/Conveyor/Power.antt =====
-- internal/sim/world/logic/conveyorpower/logic.go: whether a conveyor runs. The environment is the
-- interface of the source, and `maxNodes` is an `int`.
pub mod Expand
pub mod Network
pub mod Decision
pub mod Rules
use voxelcraft_ai.Prelude.{
  ℕ, zero, suc, String, Bool, true, false, ◌||◌, Option, none, some, List, [], ◌∷◌, ◌++◌, ltb, leb,
  if◌then◌else◌, str_eq, le_int, length,
}
use voxelcraft_ai.Kernel.Vec.{Vec3i}
use voxelcraft_ai.Kernel.Places.{seen, neighbours}

abbrev pub Pos : Type 0
Pos = Vec3i

pub record Env : Type 0 where
  pub block_name : Pos → String
  pub switch_on : Pos → Bool
  pub sensor_on : Pos → Bool

-- What a control block says: `none` is no control block.
unfoldable pub signal : Env → Pos → Option Bool
signal env p =
    if str_eq (env.block_name p) "SWITCH"
    then some (env.switch_on p)
    else if str_eq (env.block_name p) "SENSOR"
    then some (env.sensor_on p)
    else none

abbrev pub is_control : Option Bool → Bool
is_control none = false
is_control (some on) = true

abbrev pub is_on : Option Bool → Bool
is_on none = false
is_on (some on) = on

-- Rule 1, with `foundControl` for the cells before.
unfoldable pub controls : Env → (found : Bool) → List Pos → Option Bool
controls env found [] = if found then some false else none
controls env found (p ∷ ps) =
    let rest = controls env (found || is_control (signal env p)) ps in
    if is_on (signal env p) then some true else rest

unfoldable pub is_wire : Env → Pos → Bool
is_wire env p = str_eq (env.block_name p) "WIRE"

unfoldable pub wire_starts : Env → List Pos → List Pos
wire_starts env [] = []
wire_starts env (p ∷ ps) = let rest = wire_starts env ps in if is_wire env p then p ∷ rest else rest

-- `visited` and `q` of `wirePoweredBySwitch`.
pub record Search : Type 0 where
  pub visited : List Pos
  pub queue : List Pos

unfoldable pub mark : Pos → Search → Search
mark p s = record { visited = p ∷ s.visited; queue = s.queue ++ p ∷ [] }

unfoldable pub seed : Env → Search → List Pos → Search
seed env s [] = s
seed env s (p ∷ ps) =
    seed env (if is_wire env p then (if seen p s.visited then s else mark p s) else s) ps

-- The check of the control blocks around a wire.
unfoldable pub lit : Env → List Pos → Bool
lit env [] = false
lit env (p ∷ ps) = is_on (signal env p) || lit env ps

-- The loop over the neighbours of a wire; it stops at the cap.
unfoldable pub expand : Env → (max_nodes : ℕ) → Search → List Pos → Search
expand env max_nodes s [] = s
expand env max_nodes s (p ∷ ps) =
    let skipped = expand env max_nodes s ps in
    let marked = expand env max_nodes (mark p s) ps in
    if seen p s.visited
    then skipped
    else if is_wire env p
    then (if ltb max_nodes (length (mark p s).visited) then mark p s else marked)
    else skipped

-- One round of the loop, whose later rounds are `next`.
unfoldable pub round :
    Env → (max_nodes : ℕ) (visited queue : List Pos) → (Search → Option Bool) → Option Bool
round env max_nodes visited [] next = some false
round env max_nodes visited (p ∷ queue) next =
    if leb (length visited) max_nodes
    then (if lit env (neighbours p)
        then some true
        else next
            (expand env max_nodes (record { visited = visited; queue = queue }) (neighbours p)))
    else some false

-- The loop; `none` is out of fuel.
unfoldable pub search_wires : (fuel : ℕ) → Env → (max_nodes : ℕ) → Search → Option Bool
search_wires zero env max_nodes s = round env max_nodes s.visited s.queue (λ _. none)
search_wires (suc fuel) env max_nodes s =
    round env max_nodes s.visited s.queue (search_wires fuel env max_nodes)

unfoldable pub wire_powered_by_switch : Env → List Pos → (max_nodes : ℕ) → Option Bool
unfolding search_wires seed
wire_powered_by_switch env [] max_nodes = some false
wire_powered_by_switch env (p ∷ ps) max_nodes =
    if le_int max_nodes 0
    then some false
    else search_wires (suc max_nodes) env max_nodes
        (seed env (record { visited = []; queue = [] }) (p ∷ ps))

-- Rule 2 and the default, after rule 1.
unfoldable pub enabled_by_wires : Env → List Pos → (max_nodes : ℕ) → Option Bool
unfolding wire_powered_by_switch
enabled_by_wires env [] max_nodes = some true
enabled_by_wires env (p ∷ ps) max_nodes = wire_powered_by_switch env (p ∷ ps) max_nodes

unfoldable pub after_controls : Option Bool → Env → Pos → (max_nodes : ℕ) → Option Bool
unfolding enabled_by_wires wire_starts
after_controls (some on) env pos max_nodes = some on
after_controls none env pos max_nodes =
    enabled_by_wires env (wire_starts env (neighbours pos)) max_nodes

unfoldable pub enabled : Env → Pos → (max_nodes : ℕ) → Option Bool
unfolding controls after_controls
enabled env pos max_nodes = after_controls (controls env false (neighbours pos)) env pos max_nodes
