-- ===== src/Economy/Heap/Supply.antt =====
-- How much of an item a list of maps holds together, and how a write changes it.
use voxelcraft_ai.Prelude.{
  ℕ, ap, ◌+◌, ◌%◌, ◌≡◌, String, true, false, List, [], ◌∷◌, inl, inr, arith, ◌==◌, str_eq, eq_iff,
  if◌then◌else◌, word, Bool-cases,
}
use voxelcraft_ai.Economy.Heap.{Heap, cell, put_cell, bump, drain, cell-put_cell}

abbrev pub supply : Heap → List ℕ → String → ℕ
supply h [] j = 0
supply h (r ∷ rs) j = cell h r j + supply h rs j

-- How often an address stands in the list.
abbrev pub times : ℕ → List ℕ → ℕ
times r [] = 0
times r (q ∷ qs) = (if q == r then 1 else 0) + times r qs

module _ (h : Heap) (r : ℕ) (i : String) (n : ℕ) (j : String) where
  supply-put_cell_other :
      (rs : List ℕ) → str_eq i j ≡ false → supply (put_cell h r i n) rs j ≡ supply h rs j
  supply-put_cell_other [] e = omega arith
  supply-put_cell_other (q ∷ qs) e =
      ground (arith, cell-put_cell h r i n q j, supply-put_cell_other qs e)

  supply-put_cell_absent :
      (rs : List ℕ) → times r rs ≡ 0 → supply (put_cell h r i n) rs j ≡ supply h rs j
  supply-put_cell_absent [] t = omega arith
  supply-put_cell_absent (q ∷ qs) t =
      ground (arith, cell-put_cell h r i n q j, supply-put_cell_absent qs)

  supply-put_cell :
      (rs : List ℕ)
      → times r rs ≡ 1
      → str_eq i j ≡ true
      → supply (put_cell h r i n) rs j + cell h r j ≡ supply h rs j + n
  supply-put_cell [] t e = omega arith
  supply-put_cell (q ∷ qs) t e =
      ground (arith, cell-put_cell h r i n q j, supply-put_cell qs, supply-put_cell_absent qs)

-- `m[i] += n` adds n to what the maps hold, and `m[i] -= n` takes it away, modulo 2 ^ 64.
module _ (h : Heap) (r : ℕ) (i : String) (n : ℕ) (j : String) (rs : List ℕ)
    (t : times r rs ≡ 1) where
  pub supply-bump :
      supply (bump h r i n) rs j % word ≡ (supply h rs j + (if str_eq i j then n else 0)) % word
  unfolding bump
  supply-bump = elim (Bool-cases (str_eq i j)) [
    | inl e ↦
        rw e (omega (arith, supply-put_cell h r i _ j rs t e, ap (cell h r) ((eq_iff i j).0 e)))
    | inr e ↦ rw e (omega (arith, supply-put_cell_other h r i _ j rs e))
  ]

  pub supply-drain :
      (supply (drain h r i n) rs j + (if str_eq i j then n else 0)) % word ≡ supply h rs j % word
  unfolding drain
  supply-drain = elim (Bool-cases (str_eq i j)) [
    | inl e ↦
        rw e (omega (arith, supply-put_cell h r i _ j rs t e, ap (cell h r) ((eq_iff i j).0 e)))
    | inr e ↦ rw e (omega (arith, supply-put_cell_other h r i _ j rs e))
  ]
