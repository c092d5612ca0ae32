-- ===== src/Economy/Heap.antt =====
-- Inventories and treasuries are Go maps, which are shared by reference: a heap of maps from item to
-- count, by address. Two names of one map are one address.
pub mod Supply
use voxelcraft_ai.Prelude.{
  ℕ, String, Bool, ◌&&◌, ◌≡◌, arith, ◌==◌, str_eq, if◌then◌else◌, add64, sub64, Map, get, insert,
  get-insert,
}

abbrev pub Heap : Type 0
Heap = ℕ → Map ℕ

unfoldable pub cell : Heap → ℕ → String → ℕ
cell h r i = get (h r) i

-- m[i] = n
unfoldable pub put_cell : Heap → ℕ → String → ℕ → Heap
put_cell h r i n q = if q == r then insert i n (h q) else h q

-- m[i] += n
unfoldable pub bump : Heap → ℕ → String → ℕ → Heap
bump h r i n = put_cell h r i (add64 (cell h r i) n)

-- m[i] -= n
unfoldable pub drain : Heap → ℕ → String → ℕ → Heap
drain h r i n = put_cell h r i (sub64 (cell h r i) n)

pub cell-put_cell :
    (h : Heap) (r : ℕ) (i : String) (n q : ℕ) (j : String)
    → cell (put_cell h r i n) q j ≡ (if q == r && str_eq i j then n else cell h q j)
unfolding cell put_cell
cell-put_cell h r i n q j = ground (arith, get-insert i j n (h q))
