-- ===== src/Tests/Terminal.antt =====
-- A contract terminal at the origin, where Ada has posted a contract that Bob has accepted.
use mathlib.Core.Option.{some-injective}
use voxelcraft_ai.Prelude.{
  ℕ, ◌+◌, ◌<◌, ◌≡◌, refl, ◌∙◌, ap, sym, subst, true, none, some, [], ◌∷◌, inl, inr, arith, half,
  Map, get, lookup, Bool-cases, if◌then◌else◌,
}
use voxelcraft_ai.Kernel.Vec.{Vec3i, same_pos, same_pos-path}
use voxelcraft_ai.Economy.Heap.{Heap, cell}
use voxelcraft_ai.Economy.Inventory.Stacks.{Fits}
use voxelcraft_ai.Contracts.Container.{Container, owed_to}
use voxelcraft_ai.Contracts.Core.{ContractState, open_state, accepted}
use voxelcraft_ai.Contracts.State.{Contract, Site, get_container_by_id_lem}
use voxelcraft_ai.Contracts.Handlers.{ContractReq, ContractEnv, terminal}
use voxelcraft_ai.Contracts.Escrow.{Backs, IsBacked, IsPlaced, IsSoundContract}
use voxelcraft_ai.Tests.Data.{agent, origin}

-- The reward is 10 logs, the deposit 5; 4 coal are delivered.
abbrev pub desk : Map ℕ → Container
desk reserved = record {
  type = "CONTRACT_TERMINAL";
  pos = origin;
  inventory = ("LOG", 20) ∷ ("COAL", 4) ∷ [];
  reserved = reserved;
  owed = [];
}

abbrev pub job : ContractState → Contract
job state = record {
  contract_id = "C000001";
  terminal_pos = origin;
  poster = "A1";
  acceptor = "A2";
  kind = "DELIVER";
  requirements = ("COAL", 4) ∷ [];
  reward = ("LOG", 10) ∷ [];
  deposit = ("LOG", 5) ∷ [];
  blueprint_id = "";
  anchor = origin;
  rotation = 0;
  created_tick = 1;
  deadline_tick = 100;
  state = state;
}

abbrev pub purse : Heap
purse r = ("LOG", 30) ∷ []

abbrev pub site : ℕ → ContractState → Site
site reserved state = record {
  agents = ("A1", agent "A1" 1) ∷ ("A2", agent "A2" 2) ∷ [];
  containers = λ p. if same_pos p origin then some (desk (("LOG", reserved) ∷ [])) else none;
  contracts = ("C000001", job state) ∷ [];
  heap = purse;
  next_contract_num = 1;
}

abbrev pub env : ContractEnv
env = record {
  parse_container_id = λ id. some ("CONTRACT_TERMINAL", origin);
  placed = λ c. true;
  stable = λ c. true;
}

abbrev pub req : ContractReq
req = record {
  id = "I1";
  terminal_id = "CONTRACT_TERMINAL@0,0,0";
  contract_id = "C000001";
  contract_kind = "gather";
  requirements = ("COAL", 3) ∷ [];
  reward = ("LOG", 7) ∷ [];
  deposit = [];
  blueprint_id = "";
  anchor = origin;
  rotation = 0;
  deadline_tick = 0;
  duration_ticks = 50;
}

pub only_desk :
    (reserved : ℕ) (state : ContractState) (p : Vec3i) (c : Container)
    → (site reserved state).containers p ≡ some c
    → (p ≡ origin) × (desk (("LOG", reserved) ∷ []) ≡ c)
only_desk reserved state p c e = elim (Bool-cases (same_pos p origin)) [
  | inl hit ↦ (same_pos-path p origin hit, some-injective _ _ (rw hit at e))
  | inr miss ↦ absurd (cc (rw miss at e))
]

pub site-IsPlaced : (reserved : ℕ) (state : ContractState) → IsPlaced (site reserved state)
site-IsPlaced reserved state p c e =
    let (at_origin, the_desk) = only_desk reserved state p c e in
    ap (λ (d : Container). d.pos) (sym the_desk) ∙ sym at_origin

pub backed :
    (reserved : ℕ) (state : ContractState)
    → Backs origin "LOG" (site reserved state).contracts (desk (("LOG", reserved) ∷ []))
    → (p : Vec3i) → IsBacked p "LOG" (site reserved state)
backed reserved state base p c e =
    let (at_origin, the_desk) = only_desk reserved state p c e in
    let m = (site reserved state).contracts in
    subst (λ q. Backs q "LOG" m c) (sym at_origin) (subst (Backs origin "LOG" m) the_desk base)

pub accepted-IsBacked : (p : Vec3i) → IsBacked p "LOG" (site 15 accepted)
unfolding get lookup
accepted-IsBacked = backed 15 accepted (refl, omega arith, omega arith)

pub open-IsBacked : (p : Vec3i) → IsBacked p "LOG" (site 10 open_state)
unfolding get lookup
open-IsBacked = backed 10 open_state (refl, omega arith, omega arith)

-- No contract has been posted yet.
abbrev pub quiet_site : Site
quiet_site = record (site 0 open_state) { contracts = [] }

pub quiet-IsBacked : (p : Vec3i) → IsBacked p "LOG" quiet_site
unfolding get lookup
quiet-IsBacked p c e =
    let (at_origin, the_desk) = only_desk 0 open_state p c e in
    subst (Backs p "LOG" []) the_desk (refl, omega arith, omega arith)

pub the_terminal :
    (reserved : ℕ) (state : ContractState) (t : Container)
    → terminal env (agent "A2" 2) req 9 (site reserved state) ≡ some t
    → desk (("LOG", reserved) ∷ []) ≡ t
the_terminal reserved state t e =
    let (p, found) =
      get_container_by_id_lem (site reserved state) (some ("CONTRACT_TERMINAL", origin)) e in
    (only_desk reserved state p t found).1

pub has_room :
    (reserved : ℕ) (state : ContractState) (t : Container)
    → terminal env (agent "A2" 2) req 9 (site reserved state) ≡ some t
    → cell purse 2 "LOG" + get t.inventory "LOG" < half
unfolding cell get lookup
has_room reserved state t e =
    subst (λ (c : Container). cell purse 2 "LOG" + get c.inventory "LOG" < half)
      (the_terminal reserved state t e) (omega arith)

pub job-IsSound : (state : ContractState) → IsSoundContract (job state)
unfolding lookup
job-IsSound state = record {
  requirements_distinct = (refl, tt);
  requirements_positive = omega arith;
  reward_distinct = (refl, tt);
  reward_positive = omega arith;
  deposit_distinct = (refl, tt);
  deposit_positive = omega arith;
  poster_named = refl;
  acceptor_named = λ e. refl;
}

pub the_job :
    (c : Contract) → lookup "C000001" (site 15 accepted).contracts ≡ some c → job accepted ≡ c
unfolding lookup
the_job c e = some-injective _ _ e

pub has_pay_room :
    (c : Contract) (t : Container)
    → lookup "C000001" (site 15 accepted).contracts ≡ some c
    → terminal env (agent "A2" 2) req 9 (site 15 accepted) ≡ some t
    → (cell purse 2 "LOG" + (get c.reward "LOG" + get c.deposit "LOG") < half)
      × (owed_to t c.poster "LOG" + get c.requirements "LOG" < half)
unfolding cell get lookup
has_pay_room c t f e =
    subst
      (λ (c : Contract).
        (cell purse 2 "LOG" + (get c.reward "LOG" + get c.deposit "LOG") < half)
        × (owed_to t c.poster "LOG" + get c.requirements "LOG" < half))
      (the_job c f)
      (subst
        (λ (t : Container).
          (cell purse 2 "LOG" + 15 < half)
          × (owed_to t "A1" "LOG" + get (job accepted).requirements "LOG" < half))
        (the_terminal 15 accepted t e) (omega arith, omega arith))

pub logs_fit : Fits (("LOG", 7) ∷ [])
logs_fit j = ground arith
