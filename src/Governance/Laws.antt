-- ===== src/Governance/Laws.antt =====
-- internal/sim/world/feature/governance/laws: the life of a law, from its notice over the vote to
-- its effect (laws.go, runtime/lifecycle.go, runtime/runtime.go). The hooks but
-- `OnActivate` broadcast and audit, and are left out.
pub mod Life
use voxelcraft_ai.Prelude.{
  ℕ, ◌+◌, suc, String, Bool, true, false, ◌&&◌, ◌||◌, Option, none, some, List, [], ◌∷◌, map, leb,
  ltb, str_eq, if◌then◌else◌, add64, lt_int, Map, lookup, insert, is_blank,
}
use voxelcraft_ai.Kernel.Text.{codes, trim_upper, same}
use voxelcraft_ai.Kernel.Sort.{sort_strings, keys}
use voxelcraft_ai.Kernel.Event.{ar}
use voxelcraft_ai.Kernel.Event.{Event}
use voxelcraft_ai.Economy.Trade.Validation.{Check, pass, reject}

pub data Status : Type 0 where
  notice voting active rejected : Status

pub record Law : Type 0 where
  pub law_id : String
  pub land_id : String
  pub template_id : String
  pub title : String
  pub params : Map String
  pub proposed_by : String
  pub proposed_tick : ℕ
  pub notice_ends_tick : ℕ
  pub vote_ends_tick : ℕ
  pub status : Status
  pub votes : Map String

is_one_of : List ℕ → List String → Bool
is_one_of name [] = false
is_one_of name (s ∷ names) = same name (codes s) || is_one_of name names

-- NormalizeVoteChoice; the empty text is no choice.
unfoldable pub normalize_vote_choice : String → String
unfolding is_one_of
normalize_vote_choice choice =
    let name = trim_upper choice in
    if is_one_of name ("YES" ∷ "Y" ∷ "1" ∷ "TRUE" ∷ [])
    then "YES"
    else if is_one_of name ("NO" ∷ "N" ∷ "0" ∷ "FALSE" ∷ [])
    then "NO"
    else if is_one_of name ("ABSTAIN" ∷ [])
    then "ABSTAIN"
    else ""

-- The loop of `CountVotes`, for one of its two counts. A map has fewer than 2 ^ 63 entries.
unfoldable pub count_choice : String → Map String → ℕ
count_choice choice [] = 0
count_choice choice ((voter, v) ∷ votes) =
    (if str_eq (normalize_vote_choice v) choice then 1 else 0) + count_choice choice votes

unfoldable pub count_votes : Map String → ℕ × ℕ
count_votes votes = (count_choice "YES" votes, count_choice "NO" votes)

unfoldable pub vote_passed : ℕ → ℕ → Bool
vote_passed ayes noes = lt_int noes ayes

pub record Transition : Type 0 where
  pub should_transition : Bool
  pub to_voting : Bool  -- NextStatus == "VOTING"

abbrev stay : Transition
stay = record { should_transition = false; to_voting = false }

unfoldable pub next_transition : Status → ℕ → ℕ → ℕ → Transition
next_transition notice now notice_ends vote_ends =
    if leb notice_ends now then record { should_transition = true; to_voting = true } else stay
next_transition voting now notice_ends vote_ends =
    if leb vote_ends now then record { should_transition = true; to_voting = false } else stay
next_transition _ now notice_ends vote_ends = stay

-- BuildLawTimeline
unfoldable pub build_law_timeline : ℕ → ℕ → ℕ → ℕ × ℕ
build_law_timeline now notice_ticks vote_ticks =
    let n = if lt_int 0 notice_ticks then notice_ticks else 0 in
    let v = if lt_int 0 vote_ticks then vote_ticks else 0 in (add64 now n, add64 (add64 now n) v)

-- The lands, whatever they are, and the hook `OnActivate`, which changes one or fails.
module _ (Lands : Type 0) (on_activate : Law → Lands → Option Lands) where
  pub record Polity : Type 0 where
    pub laws : Map Law
    pub lands : Lands

  -- law.Status = s
  unfoldable pub set_status : String → Law → Status → Polity → Polity
  set_status id law s w = record w { laws = insert id (record law { status = s }) w.laws }

  -- The vote has passed: the law takes effect, or is rejected where it cannot.
  unfoldable pub activate : String → Law → Option Lands → Polity → Polity
  unfolding set_status
  activate id law none w = set_status id law rejected w
  activate id law (some lands) w = set_status id law active (record w { lands = lands })

  -- The vote is over.
  unfoldable pub close_vote : String → Law → Polity → Polity
  unfolding activate set_status
  close_vote id law w =
      let (ayes, noes) = count_votes law.votes in
      if vote_passed ayes noes
      then activate id law (on_activate law w.lands) w
      else set_status id law rejected w

  abbrev is_voting : Status → Bool
  is_voting voting = true
  is_voting _ = false

  -- One round of the loop of `TickLaws`, for a law with the status.
  unfoldable pub tick_status : ℕ → String → Law → Status → Polity → Polity
  unfolding close_vote set_status
  tick_status now id law s w =
      let tr = next_transition s now law.notice_ends_tick law.vote_ends_tick in
      if tr.should_transition && tr.to_voting
      then set_status id law voting w
      else if tr.should_transition && is_voting s
      then close_vote id law w
      else w

  -- law := laws[id]; a missing law is skipped.
  unfoldable pub tick_found : ℕ → String → Option Law → Polity → Polity
  unfolding tick_status
  tick_found now id none w = w
  tick_found now id (some law) w = tick_status now id law law.status w

  unfoldable pub tick_each : ℕ → List String → Polity → Polity
  unfolding tick_found
  tick_each now [] w = w
  tick_each now (id ∷ ids) w = tick_each now ids (tick_found now id (lookup id w.laws) w)

  sorted_ids : Map Law → List String
  sorted_ids laws = sort_strings (keys laws)

  -- TickLaws
  unfoldable pub tick_laws : ℕ → Polity → Polity
  unfolding tick_each sorted_ids
  tick_laws now w = tick_each now (sorted_ids w.laws) w
