-- ===== src/Tests/Laws.antt =====
-- A law whose vote ends at tick 50, with two votes for it and one against.
use voxelcraft_ai.Prelude.{
  String, ◌+◌, ◌≡◌, ◌⊎◌, ◌||◌, true, str_eq, if◌then◌else◌, lookup, ℕ, suc, some, [], ◌∷◌, Option,
}
use voxelcraft_ai.Governance.Laws.{
  Law, Polity, voting, tick_laws, count_choice, normalize_vote_choice,
}
use voxelcraft_ai.Governance.Laws.Life.{Follows, tick_laws-Follows}
use voxelcraft_ai.Governance.Voting.{LawInstantEnv, VoteReq, handle_vote_law}
use voxelcraft_ai.Governance.Voting.Ballots.{ballot, handle_vote_law_lem}

abbrev curfew : Law
curfew = record {
  law_id = "LAW000001";
  land_id = "L1";
  template_id = "CURFEW_NO_BUILD";
  title = "Curfew";
  params = ("start_time", "0.75") ∷ ("end_time", "0.25") ∷ [];
  proposed_by = "A1";
  proposed_tick = 1;
  notice_ends_tick = 20;
  vote_ends_tick = 50;
  status = voting;
  votes = ("A1", "YES") ∷ ("A2", "no") ∷ ("A3", "y") ∷ [];
}

-- The lands are counted by the laws in effect.
abbrev one_more : Law → ℕ → Option ℕ
one_more law n = some (suc n)

abbrev polity : Polity ℕ one_more
polity = record { laws = ("LAW000001", curfew) ∷ []; lands = 0 }

tick_laws-Follows_example : Follows ℕ one_more 50 polity (tick_laws ℕ one_more 50 polity)
tick_laws-Follows_example = tick_laws-Follows ℕ one_more 50 polity

-- Agents whose id is A1, A2 or A3 are members of every land.
abbrev members : LawInstantEnv
members = record {
  Land = String;
  get_land = λ id. some id;
  is_land_member = λ id land. str_eq id "A1" || str_eq id "A2" || str_eq id "A3";
}

abbrev change_of_mind : VoteReq
change_of_mind = record { id = "I1"; law_id = "LAW000001"; choice = "yes" }

handle_vote_law_lem_example :
    let after = (handle_vote_law members "A2" change_of_mind 30 true polity.laws).0 in
    (after ≡ polity.laws)
    ⊎ ((law law' : Law) × (land : String) × (lookup "LAW000001" polity.laws ≡ some law)
        × (law.status ≡ voting)
        × (some law.land_id ≡ some land)
        × (members.is_land_member "A2" land ≡ true)
        × (lookup "LAW000001" after ≡ (
            if str_eq "LAW000001" "LAW000001" then some law' else lookup "LAW000001" polity.laws))
        × (count_choice "YES" law'.votes + ballot "YES" (lookup "A2" law.votes)
            ≡ count_choice "YES" law.votes + ballot "YES" (some (normalize_vote_choice "yes"))))
handle_vote_law_lem_example =
    handle_vote_law_lem members "A2" change_of_mind 30 true polity.laws "YES" "LAW000001"
