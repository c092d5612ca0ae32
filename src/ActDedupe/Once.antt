-- ===== src/ActDedupe/Once.antt =====
-- How long an answer of internal/sim/world/act_dedupe.go is remembered.
use mathlib.Core.Option.{some-injective}
use voxelcraft_ai.Prelude.{
  ℕ, ◌+◌, ◌<◌, ◌≡◌, refl, ap, sym, ◌∙◌, String, true, false, Option, none, some, List, [], ◌∷◌,
  arith, ltb, str_eq, lt→ltb, add64, word, All, Bool-cases, inl, inr,
}
use voxelcraft_ai.ActDedupe.{
  ActDedupeKey, same_key, ActDedupeEntry, ActDedupeReq, Entries, find, cleanup, request_key, answer,
  handle_act_dedupe_req, act_dedupe_ttl_ticks,
}
use voxelcraft_ai.ActDedupe.Memory.{
  same_key-path, same_key_refl, Remembers, cleanup-Remembers, find-store,
}

module _ (Ack : Type 0) where
  answer-Remembers :
      (now : ℕ) (key asked : ActDedupeKey) (e : ActDedupeEntry Ack) (req : ActDedupeReq Ack)
      (found : Option (ActDedupeEntry Ack)) (entries : Entries Ack)
      → now < e.expires_tick
      → find Ack asked entries ≡ found
      → Remembers Ack key e entries
      → Remembers Ack key e (answer Ack now asked req found entries).1
  unfolding answer
  answer-Remembers now key asked e req none entries b f r =
      find-store Ack asked key _ entries ∙ rw (other_key f) r
    where
      other_key : find Ack asked entries ≡ none → same_key asked key ≡ false
      other_key f = elim (Bool-cases (same_key asked key)) [
        | inr other ↦ other
        | inl hit ↦
            absurd (cc (sym f ∙ ap (λ k. find Ack k entries) (same_key-path asked key hit) ∙ r))
      ]
  answer-Remembers now key asked e req (some d) entries b f r =
      elim (Bool-cases (ltb now d.expires_tick)) [
        | inl live ↦ rw live r
        | inr expired ↦ elim (Bool-cases (same_key asked key)) [
          | inl hit ↦
              let same : d ≡ e =
                some-injective _ _
                  (sym f ∙ ap (λ k. find Ack k entries) (same_key-path asked key hit) ∙ r) in
              let live : ltb now d.expires_tick ≡ true = rw same (lt→ltb now e.expires_tick b) in
              absurd (cc (sym expired ∙ live))
          | inr other ↦ rw expired (find-store Ack asked key _ entries ∙ rw other r)
        ]
      ]

  handle-Remembers :
      (cfg_id : String) (now : ℕ) (key : ActDedupeKey) (e : ActDedupeEntry Ack)
      (req : ActDedupeReq Ack) (entries : Entries Ack)
      → now < e.expires_tick
      → Remembers Ack key e entries
      → Remembers Ack key e (handle_act_dedupe_req Ack cfg_id now req entries).1
  unfolding handle_act_dedupe_req
  handle-Remembers cfg_id now key e req entries b r = elim (Bool-cases (str_eq req.act_id "")) [
    | inl unnamed ↦ rw unnamed r
    | inr named ↦ rw named (
        answer-Remembers now key (request_key Ack cfg_id req) e req _ (cleanup Ack now entries) b
          refl (cleanup-Remembers Ack now key e entries b r))
  ]

  -- Requests that come one after the other, each at its tick.
  abbrev pub handle_all : String → List (ℕ × ActDedupeReq Ack) → Entries Ack → Entries Ack
  handle_all cfg_id [] entries = entries
  handle_all cfg_id ((now, req) ∷ calls) entries =
      handle_all cfg_id calls (handle_act_dedupe_req Ack cfg_id now req entries).1

  handle_all-Remembers :
      (cfg_id : String) (key : ActDedupeKey) (e : ActDedupeEntry Ack)
      (calls : List (ℕ × ActDedupeReq Ack)) (entries : Entries Ack)
      → All (λ c. c.0 < e.expires_tick) calls
      → Remembers Ack key e entries
      → Remembers Ack key e (handle_all cfg_id calls entries)
  handle_all-Remembers cfg_id key e [] entries b r = r
  handle_all-Remembers cfg_id key e ((now, req) ∷ calls) entries b r =
      handle_all-Remembers cfg_id key e calls _ b.1
        (handle-Remembers cfg_id now key e req entries b.0 r)

  answer_new :
      (now : ℕ) (key : ActDedupeKey) (req : ActDedupeReq Ack) (found : Option (ActDedupeEntry Ack))
      (entries : Entries Ack)
      → now + act_dedupe_ttl_ticks < word
      → (answer Ack now key req found entries).0.duplicate ≡ false
      → let e : ActDedupeEntry Ack = record {
        ack = req.proposed;
        expires_tick = now + act_dedupe_ttl_ticks;
      } in
        Remembers Ack key e (answer Ack now key req found entries).1
  unfolding answer
  answer_new now key req none entries b new =
      let exact : add64 now act_dedupe_ttl_ticks ≡ now + act_dedupe_ttl_ticks = omega (arith, b) in
      find-store Ack key key _ entries ∙ rw (same_key_refl key, exact) refl
  answer_new now key req (some d) entries b new =
      let exact : add64 now act_dedupe_ttl_ticks ≡ now + act_dedupe_ttl_ticks = omega (arith, b) in
      elim (Bool-cases (ltb now d.expires_tick)) [
        | inl live ↦ absurd (cc (rw live at new))
        | inr expired ↦
            rw expired (find-store Ack key key _ entries ∙ rw (same_key_refl key, exact) refl)
      ]

  -- The entry that a new batch leaves.
  abbrev entry_of : ℕ → ActDedupeReq Ack → ActDedupeEntry Ack
  entry_of now req = record { ack = req.proposed; expires_tick = now + act_dedupe_ttl_ticks }

  handle_new :
      (cfg_id : String) (now : ℕ) (req : ActDedupeReq Ack) (entries : Entries Ack)
      → str_eq req.act_id "" ≡ false
      → now + act_dedupe_ttl_ticks < word
      → (handle_act_dedupe_req Ack cfg_id now req entries).0.duplicate ≡ false
      → Remembers Ack
          (request_key Ack cfg_id req)
          (entry_of now req)
          (handle_act_dedupe_req Ack cfg_id now req entries).1
  unfolding handle_act_dedupe_req
  handle_new cfg_id now req entries named b new = rw named (
      answer_new now (request_key Ack cfg_id req) req _ (cleanup Ack now entries) b
        (rw named at new))

  answer_again :
      (later : ℕ) (key : ActDedupeKey) (e : ActDedupeEntry Ack) (again : ActDedupeReq Ack)
      (found : Option (ActDedupeEntry Ack)) (entries : Entries Ack)
      → later < e.expires_tick
      → found ≡ some e
      → let r = (answer Ack later key again found entries).0 in
        (r.duplicate ≡ true) × (r.ack ≡ e.ack)
  unfolding answer
  answer_again later key e again none entries b f = absurd (cc f)
  answer_again later key e again (some d) entries b f =
      let same : d ≡ e = some-injective _ _ f in
      let live : ltb later d.expires_tick ≡ true = rw same (lt→ltb later e.expires_tick b) in
      rw live (refl, ap (λ (x : ActDedupeEntry Ack). x.ack) same)

  handle_again :
      (cfg_id : String) (later : ℕ) (e : ActDedupeEntry Ack) (again : ActDedupeReq Ack)
      (entries : Entries Ack)
      → str_eq again.act_id "" ≡ false
      → later < e.expires_tick
      → Remembers Ack (request_key Ack cfg_id again) e entries
      → let r = (handle_act_dedupe_req Ack cfg_id later again entries).0 in
        (r.duplicate ≡ true) × (r.ack ≡ e.ack)
  unfolding handle_act_dedupe_req
  handle_again cfg_id later e again entries named b r =
      let key = request_key Ack cfg_id again in
      rw named (
        answer_again later key e again _ (cleanup Ack later entries) b
          (cleanup-Remembers Ack later key e entries b r))

  -- After a new batch with an id, for its 3000 ticks, which do not overflow, and whatever else is
  -- asked within them, a batch of the same agent, world and id is a duplicate and gets the answer
  -- of the first.
  pub handle_act_dedupe_req_once :
      (cfg_id : String) (now later : ℕ) (req again : ActDedupeReq Ack)
      (calls : List (ℕ × ActDedupeReq Ack)) (entries : Entries Ack)
      → str_eq req.act_id "" ≡ false
      → now + 3000 < word
      → (handle_act_dedupe_req Ack cfg_id now req entries).0.duplicate ≡ false
      → All (λ c. c.0 < now + 3000) calls
      → later < now + 3000
      → request_key Ack cfg_id again ≡ request_key Ack cfg_id req
      → let after = handle_all cfg_id calls (handle_act_dedupe_req Ack cfg_id now req entries).1 in
        let r = (handle_act_dedupe_req Ack cfg_id later again after).0 in
        (r.duplicate ≡ true) × (r.ack ≡ req.proposed)
  unfolding request_key
  handle_act_dedupe_req_once cfg_id now later req again calls entries named b new within soon same =
      let e = entry_of now req in
      let first = handle_new cfg_id now req entries named b new in
      let kept = handle_all-Remembers cfg_id (request_key Ack cfg_id req) e calls _ within first in
      let named' : str_eq again.act_id "" ≡ false =
        ap (λ (k : ActDedupeKey). str_eq k.act_id "") same ∙ named in
      handle_again cfg_id later e again _ named' soon (
        ap
          (λ k.
            find Ack k
              (handle_all cfg_id calls (handle_act_dedupe_req Ack cfg_id now req entries).1))
          same
        ∙ kept)
