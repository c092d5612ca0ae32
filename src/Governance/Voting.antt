-- ===== src/Governance/Voting.antt =====
-- `HandleVoteLaw` of internal/sim/world/feature/governance/instants/law_handlers.go. The result is
-- the laws, and the event that the agent gets; the audit entry and the hook are left out.
pub mod Ballots
use voxelcraft_ai.Prelude.{
  ℕ, String, Bool, true, false, not, ◌||◌, Option, none, some, str_eq, if◌then◌else◌, Map, lookup,
  insert, is_blank,
}
use voxelcraft_ai.Kernel.Event.{Event, ar}
use voxelcraft_ai.Economy.Trade.Validation.{Check, pass, reject}
use voxelcraft_ai.Governance.Laws.{
  Status, notice, voting, active, rejected, Law, normalize_vote_choice,
}

unfoldable pub validate_vote_input : Bool → String → String → Check
validate_vote_input allow_laws law_id choice =
    if allow_laws
    then if is_blank law_id || is_blank choice
      then reject "E_BAD_REQUEST" "missing law_id/choice"
      else pass
    else reject "E_NO_PERMISSION" "laws disabled in this world"

-- LawInstantEnv, as far as the vote uses it; the lands are its own affair.
pub record LawInstantEnv : Type 1 where
  pub Land : Type 0
  pub get_land : String → Option Land
  pub is_land_member : String → Land → Bool

pub record VoteReq : Type 0 where
  pub id : String
  pub law_id : String
  pub choice : String

is_in_voting : Status → Bool
is_in_voting voting = true
is_in_voting _ = false

module _ (env : LawInstantEnv) (agent_id : String) (inst : VoteReq) (now : ℕ) where
  abbrev refuse : String → String → Map Law → Map Law × Event
  refuse code msg laws = (laws, ar now inst.id false code msg)

  -- law.Votes[a.ID] = choice
  unfoldable pub cast : Law → Map Law → Map Law
  cast law laws =
      let votes = insert agent_id (normalize_vote_choice inst.choice) law.votes in
      insert inst.law_id (record law { votes = votes }) laws

  -- From the lookup of the land on.
  unfoldable pub vote_in : Law → Option env.Land → Map Law → Map Law × Event
  vote_in law none laws = refuse "E_INVALID_TARGET" "land not found" laws
  vote_in law (some land) laws =
      if not (env.is_land_member agent_id land)
      then refuse "E_NO_PERMISSION" "not eligible to vote" laws
      else if str_eq (normalize_vote_choice inst.choice) ""
      then refuse "E_BAD_REQUEST" "bad choice" laws
      else (cast law laws, ar now inst.id true "" "ok")

  -- From the lookup of the law on.
  unfoldable pub vote_found : Option Law → Map Law → Map Law × Event
  unfolding is_in_voting
  vote_found none laws = refuse "E_INVALID_TARGET" "law not found" laws
  vote_found (some law) laws =
      if not (is_in_voting law.status)
      then refuse "E_BLOCKED" "law not in voting" laws
      else vote_in law (env.get_land law.land_id) laws

  unfoldable pub vote_checked : Check → Map Law → Map Law × Event
  vote_checked (reject code msg) laws = refuse code msg laws
  vote_checked pass laws = vote_found (lookup inst.law_id laws) laws

  unfoldable pub handle_vote_law : Bool → Map Law → Map Law × Event
  handle_vote_law allow_laws laws =
      vote_checked (validate_vote_input allow_laws inst.law_id inst.choice) laws
