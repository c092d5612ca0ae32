-- ===== src/Tests/Dedupe.antt =====
-- A batch that is sent twice.
use voxelcraft_ai.Prelude.{◌≡◌, refl, String, true, [], ◌∷◌, arith}
use voxelcraft_ai.ActDedupe.{ActDedupeReq, handle_act_dedupe_req, find, cleanup}
use voxelcraft_ai.ActDedupe.Once.{handle_all, handle_act_dedupe_req_once}

-- Acknowledgements are texts here.
abbrev batch : String → String → ActDedupeReq String
batch id ack = record { agent_id = "A1"; world_id = ""; act_id = id; proposed = ack }

handle_act_dedupe_req_once_example :
    let first = handle_act_dedupe_req String "W1" 10 (batch "x" "one") [] in
    let after = handle_all String "W1" ((11, batch "y" "two") ∷ []) first.1 in
    let r = (handle_act_dedupe_req String "W1" 3000 (batch "x" "three") after).0 in
    (r.duplicate ≡ true) × (r.ack ≡ "one")
unfolding handle_act_dedupe_req find cleanup
handle_act_dedupe_req_once_example =
    handle_act_dedupe_req_once String "W1" 10 3000 (batch "x" "one") (batch "x" "three")
      ((11, batch "y" "two") ∷ []) [] refl (omega arith) refl (omega arith, tt) (omega arith) refl
