-- ===== src/ActDedupe.antt =====
-- internal/sim/world/act_dedupe.go: an action batch that a client sends again gets the first
-- answer. The channels of the request are left out: the world's loop takes one request at a time.
pub mod Memory
pub mod Once
use voxelcraft_ai.Prelude.{
  ℕ, String, Bool, true, false, ◌&&◌, Option, none, some, List, [], ◌∷◌, leb, ltb, str_eq,
  if◌then◌else◌, add64,
}

abbrev pub act_dedupe_ttl_ticks : ℕ
act_dedupe_ttl_ticks = 3000

pub record ActDedupeKey : Type 0 where
  pub agent_id : String
  pub world_id : String
  pub act_id : String

-- == on the struct
abbrev pub same_key : ActDedupeKey → ActDedupeKey → Bool
same_key k l =
    str_eq k.agent_id l.agent_id && str_eq k.world_id l.world_id && str_eq k.act_id l.act_id

-- The acknowledgement is a message of internal/protocol, which the code only passes on.
module _ (Ack : Type 0) where
  pub record ActDedupeEntry : Type 0 where
    pub ack : Ack
    pub expires_tick : ℕ

  pub record ActDedupeReq : Type 0 where
    pub agent_id : String
    pub world_id : String
    pub act_id : String
    pub proposed : Ack

  pub record ActDedupeResp : Type 0 where
    pub ack : Ack
    pub duplicate : Bool

  -- map[actDedupeKey]actDedupeEntry
  abbrev pub Entries : Type 0
  Entries = List (ActDedupeKey × ActDedupeEntry)

  unfoldable pub find : ActDedupeKey → Entries → Option ActDedupeEntry
  find key [] = none
  find key ((k, e) ∷ entries) =
      let later = find key entries in if same_key k key then some e else later

  unfoldable pub store : ActDedupeKey → ActDedupeEntry → Entries → Entries
  store key e [] = (key, e) ∷ []
  store key e ((k, old) ∷ entries) =
      let rest = store key e entries in
      if same_key k key then (key, e) ∷ entries else (k, old) ∷ rest

  -- The cleanup: for k, v := range w.actDedupe { if now >= v.ExpiresTick { delete } }
  unfoldable pub cleanup : ℕ → Entries → Entries
  cleanup now [] = []
  cleanup now ((k, e) ∷ entries) =
      let rest = cleanup now entries in if leb e.expires_tick now then rest else (k, e) ∷ rest

  pub request_key : String → ActDedupeReq → ActDedupeKey
  request_key cfg_id req = record {
    agent_id = req.agent_id;
    world_id = if str_eq req.world_id "" then cfg_id else req.world_id;
    act_id = req.act_id;
  }

  -- From the lookup on.
  unfoldable pub answer :
      ℕ → ActDedupeKey → ActDedupeReq → Option ActDedupeEntry → Entries → ActDedupeResp × Entries
  answer now key req none entries = (
    record { ack = req.proposed; duplicate = false },
    store key (record { ack = req.proposed; expires_tick = add64 now act_dedupe_ttl_ticks })
        entries,
  )
  answer now key req (some e) entries =
      if ltb now e.expires_tick then (record { ack = e.ack; duplicate = true }, entries) else (
        record { ack = req.proposed; duplicate = false },
        store key (record { ack = req.proposed; expires_tick = add64 now act_dedupe_ttl_ticks })
            entries,
      )

  unfoldable pub handle_act_dedupe_req :
      String → ℕ → ActDedupeReq → Entries → ActDedupeResp × Entries
  unfolding answer request_key
  handle_act_dedupe_req cfg_id now req entries =
      let key = request_key cfg_id req in
      let kept = cleanup now entries in
      if str_eq req.act_id ""
      then (record { ack = req.proposed; duplicate = false }, entries)
      else answer now key req (find key kept) kept
