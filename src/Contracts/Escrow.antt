-- ===== src/Contracts/Escrow.antt =====
-- What the contracts at a terminal hold in escrow there, of one item.
pub mod Handlers
pub mod Submission
pub mod Tick
pub mod Payment
use voxelcraft_ai.Prelude.{
  ℕ, ◌+◌, ◌-◌, ◌<◌, ◌≤◌, ◌≡◌, refl, ◌∙◌, ap, subst, String, Bool, true, false, Option, none, some,
  [], ◌∷◌, arith, str_eq, eq_iff, if◌then◌else◌, ◌==◌, ◌&&◌, half, Map, get, lookup, insert,
  Bool-cases, inl, inr, All, HasDistinctKeys,
}
use mathlib.Core.Option.{some-injective}
use voxelcraft_ai.Kernel.Vec.{Vec3i, same_pos, same_pos-path, same_pos_refl}
use voxelcraft_ai.Economy.Inventory.Transfer.{IsPositive}
use voxelcraft_ai.Contracts.Container.{Container}
use voxelcraft_ai.Contracts.Core.{ContractState, open_state, accepted, failed}
use voxelcraft_ai.Contracts.State.{Contract, Site, put_container}

-- An open contract holds its reward, an accepted one its deposit too.
abbrev pub stake : ContractState → ℕ → ℕ → ℕ
stake open_state reward deposit = reward
stake accepted reward deposit = reward + deposit
stake _ reward deposit = 0

abbrev pub held_at : Vec3i → String → Contract → ℕ
held_at p j c =
    if same_pos c.terminal_pos p then stake c.state (get c.reward j) (get c.deposit j) else 0

abbrev pub escrow : Vec3i → String → Map Contract → ℕ
escrow p j [] = 0
escrow p j ((key, c) ∷ m) = held_at p j c + escrow p j m

-- What is reserved is exactly what the live contracts hold, and it is there.
abbrev pub Backs : Vec3i → String → Map Contract → Container → Type 0
Backs p j m c =
    (escrow p j m ≡ get c.reserved j)
    × (get c.reserved j ≤ get c.inventory j)
    × (get c.inventory j < half)

abbrev pub IsBacked : Vec3i → String → Site → Type 0
IsBacked p j w = (c : Container) → w.containers p ≡ some c → Backs p j w.contracts c

-- Every container stands under its position.
abbrev pub IsPlaced : Site → Type 0
IsPlaced w = (p : Vec3i) (c : Container) → w.containers p ≡ some c → c.pos ≡ p

-- A contract as the handlers make it.
pub record IsSoundContract (c : Contract) : Type 0 where
  pub requirements_distinct : HasDistinctKeys c.requirements
  pub requirements_positive : IsPositive c.requirements
  pub reward_distinct : HasDistinctKeys c.reward
  pub reward_positive : IsPositive c.reward
  pub deposit_distinct : HasDistinctKeys c.deposit
  pub deposit_positive : IsPositive c.deposit
  pub poster_named : str_eq c.poster "" ≡ false
  pub acceptor_named : c.state ≡ accepted → str_eq c.acceptor "" ≡ false

module _ (p : Vec3i) (j : String) where
  pub escrow-insert_new :
      (k : String) (c : Contract) (m : Map Contract)
      → lookup k m ≡ none
      → escrow p j (insert k c m) ≡ held_at p j c + escrow p j m
  unfolding lookup insert
  escrow-insert_new k c [] e = refl
  escrow-insert_new k c ((i, d) ∷ m) e = elim (Bool-cases (str_eq i k)) [
    | inl hit ↦ absurd (cc (rw hit at e))
    | inr miss ↦ rw miss (omega (arith, escrow-insert_new k c m (rw miss at e)))
  ]

  pub escrow-insert :
      (k : String) (c d : Contract) (m : Map Contract)
      → lookup k m ≡ some c
      → escrow p j (insert k d m) + held_at p j c ≡ escrow p j m + held_at p j d
  unfolding lookup insert
  escrow-insert k c d [] e = absurd (cc e)
  escrow-insert k c d ((i, b) ∷ m) e = elim (Bool-cases (str_eq i k)) [
    | inl hit ↦ rw hit (omega (arith, ap (held_at p j) (some-injective _ _ (rw hit at e))))
    | inr miss ↦ rw miss (omega (arith, escrow-insert k c d m (rw miss at e)))
  ]

  pub held_at-le :
      (k : String) (c : Contract) (m : Map Contract)
      → lookup k m ≡ some c
      → held_at p j c ≤ escrow p j m
  held_at-le k c m e =
      let closed : Contract = record c { state = failed } in
      ground (arith, escrow-insert k c closed m e)

pub held_at_here :
    (p : Vec3i) (j : String) (c : Contract) {s : ContractState}
    → same_pos c.terminal_pos p ≡ true
    → c.state ≡ s
    → held_at p j c ≡ stake s (get c.reward j) (get c.deposit j)
held_at_here p j c {s} e q =
    let here : held_at p j c ≡ stake c.state (get c.reward j) (get c.deposit j) = rw e refl in
    here ∙ ap (λ r. stake r (get c.reward j) (get c.deposit j)) q

pub held_at_away :
    (p q : Vec3i) (j : String) (c : Contract)
    → same_pos q c.terminal_pos ≡ true
    → same_pos q p ≡ false
    → held_at p j c ≡ 0
held_at_away p q j c e f = let g : same_pos c.terminal_pos p ≡ false = ground arith in rw g refl

-- A terminal and the contracts are written: it is enough to look at the terminal, if the contracts
-- of the other positions are as before.
pub settle-IsBacked :
    (p : Vec3i) (j : String) (w : Site) (term t : Container) (m : Map Contract)
    → w.containers term.pos ≡ some term
    → t.pos ≡ term.pos
    → IsBacked p j w
    → (Backs term.pos j w.contracts term → Backs term.pos j m t)
    → (same_pos term.pos p ≡ false → escrow p j m ≡ escrow p j w.contracts)
    → IsBacked p j (record (put_container t w) { contracts = m })
unfolding put_container
settle-IsBacked p j w term t m found same b here away c e =
    elim (Bool-cases (same_pos term.pos p)) [
      | inl hit ↦
          let q = same_pos-path term.pos p hit in
          let backs =
            subst (λ r. IsBacked r j w → Backs r j m t) q (λ b'. here (b' term found)) b in
          let g : same_pos p t.pos ≡ true = rw (same, q) (same_pos_refl p) in
          subst (Backs p j m) (some-injective _ _ (rw g at e)) backs
      | inr miss ↦
          let g : same_pos p t.pos ≡ false = rw same (ground arith) in
          let old = b c (rw g at e) in (away miss ∙ old.0, old.1, old.2)
    ]
