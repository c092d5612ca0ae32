-- ===== src/ActDedupe/Memory.antt =====
-- The entries of internal/sim/world/act_dedupe.go.
use mathlib.Core.Option.{some-injective}
use voxelcraft_ai.Prelude.{
  ℕ, ◌<◌, ◌≡◌, refl, ap, sym, ◌∙◌, true, false, some, [], ◌∷◌, arith, leb, eq_iff, if◌then◌else◌,
  Bool-cases, inl, inr,
}
use voxelcraft_ai.ActDedupe.{ActDedupeKey, same_key, ActDedupeEntry, Entries, find, store, cleanup}

pub same_key-path : (k l : ActDedupeKey) → same_key k l ≡ true → k ≡ l
same_key-path k l e =
    ground
      (arith, eq_iff k.agent_id l.agent_id, eq_iff k.world_id l.world_id, eq_iff k.act_id l.act_id)

pub same_key_refl : (k : ActDedupeKey) → same_key k k ≡ true
same_key_refl k =
    ground
      (arith, eq_iff k.agent_id k.agent_id, eq_iff k.world_id k.world_id, eq_iff k.act_id k.act_id)

pub differs :
    (k key probe : ActDedupeKey)
    → same_key k key ≡ false
    → same_key k probe ≡ true
    → same_key key probe ≡ false
differs k key probe miss found = elim (Bool-cases (same_key key probe)) [
  | inr other ↦ other
  | inl hit ↦ absurd (cc (sym miss ∙ ap (same_key k) (same_key-path key probe hit) ∙ found))
]

module _ (Ack : Type 0) where
  -- The entry is what a request under the key finds.
  abbrev pub Remembers : ActDedupeKey → ActDedupeEntry Ack → Entries Ack → Type 0
  Remembers key e entries = find Ack key entries ≡ some e

  pub cleanup-Remembers :
      (now : ℕ) (key : ActDedupeKey) (e : ActDedupeEntry Ack) (entries : Entries Ack)
      → now < e.expires_tick
      → Remembers key e entries
      → Remembers key e (cleanup Ack now entries)
  unfolding find cleanup
  cleanup-Remembers now key e [] b r = r
  cleanup-Remembers now key e ((k, d) ∷ entries) b r = elim (Bool-cases (same_key k key)) [
    | inl hit ↦
        let same : d ≡ e = some-injective _ _ (rw hit at r) in
        let live : leb d.expires_tick now ≡ false = rw same (ground (arith, b)) in
        rw (live, hit) (ap some same)
    | inr miss ↦
        let rest = cleanup-Remembers now key e entries b (rw miss at r) in
        elim (Bool-cases (leb d.expires_tick now)) [
          | inl expired ↦ rw expired rest
          | inr live ↦ rw (live, miss) rest
        ]
  ]

  pub find-store :
      (key probe : ActDedupeKey) (e : ActDedupeEntry Ack) (entries : Entries Ack)
      → find Ack probe (store Ack key e entries)
        ≡ (if same_key key probe then some e else find Ack probe entries)
  unfolding find store
  find-store key probe e [] = refl
  find-store key probe e ((k, d) ∷ entries) = elim (Bool-cases (same_key k key)) [
    | inl hit ↦
        let q = same_key-path k key hit in
        elim (Bool-cases (same_key key probe)) [
          | inl found ↦ rw (hit, found) refl
          | inr other ↦
              let other' : same_key k probe ≡ false = ap (λ l. same_key l probe) q ∙ other in
              rw (hit, other, other') refl
        ]
    | inr miss ↦
        let rest = find-store key probe e entries in
        elim (Bool-cases (same_key k probe)) [
          | inl found ↦
              let other : same_key key probe ≡ false = differs k key probe miss found in
              rw (miss, found, other) refl
          | inr other ↦ rw (miss, other) rest
        ]
  ]
