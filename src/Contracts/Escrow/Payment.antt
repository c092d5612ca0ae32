-- ===== src/Contracts/Escrow/Payment.antt =====
-- What a submission pays (feature/contracts/instants/lifecycle_handlers.go).
use voxelcraft_ai.Prelude.{ℕ, ◌+◌, ◌≡◌, String, some, get, lookup}
use voxelcraft_ai.Kernel.Agent.{Agent}
use voxelcraft_ai.Economy.Heap.{cell}
use voxelcraft_ai.Contracts.Container.{Container, owed_to}
use voxelcraft_ai.Contracts.Core.{completed}
use voxelcraft_ai.Contracts.State.{Contract, Site}
use voxelcraft_ai.Contracts.Handlers.{ContractReq, ContractEnv}
use voxelcraft_ai.Contracts.Submission.Settlement.{goods_of, stake_of}

module _ (env : ContractEnv) (a : Agent) (inst : ContractReq) (now : ℕ) where
  -- The agent gets the stake and the poster is owed the goods, to the item, and what the terminal
  -- keeps is the rest.
  pub record Pays (w after : Site) (c : Contract) (t : Container) (j : String) : Type 0 where
    pub t' : Container
    pub stands : after.containers t.pos ≡ some t'
    pub paid : cell after.heap a.inventory j ≡ cell w.heap a.inventory j + stake_of c j
    pub delivered : owed_to t' c.poster j ≡ owed_to t c.poster j + goods_of c j
    pub kept : get t'.inventory j + (goods_of c j + stake_of c j) ≡ get t.inventory j
    pub closed :
        (c' : Contract) × (lookup inst.contract_id after.contracts ≡ some c')
        × (c'.state ≡ completed)
