-- ===== src/Governance/Voting/Ballots.antt =====
-- What a vote of governance/instants/law_handlers.go changes in the count.
use voxelcraft_ai.Prelude.{
  ℕ, ◌+◌, ◌≡◌, refl, ◌∙◌, ap, String, Bool, true, Option, none, some, [], ◌∷◌, arith, str_eq,
  if◌then◌else◌, Map, lookup, insert, lookup-insert, Bool-cases, inl, inr, ◌⊎◌,
}
use voxelcraft_ai.Economy.Trade.Validation.{Check, pass, reject}
use voxelcraft_ai.Governance.Laws.{
  Status, notice, voting, active, rejected, Law, normalize_vote_choice, count_choice,
}
use voxelcraft_ai.Governance.Voting.{
  LawInstantEnv, VoteReq, is_in_voting, cast, vote_in, vote_found, vote_checked, handle_vote_law,
  validate_vote_input,
}

-- What a vote adds to the count of a choice.
abbrev pub ballot : String → Option String → ℕ
ballot choice none = 0
ballot choice (some v) = if str_eq (normalize_vote_choice v) choice then 1 else 0

-- A voter's new vote replaces the old one in the count.
pub count_choice-insert :
    (choice voter v : String) (votes : Map String)
    → count_choice choice (insert voter v votes) + ballot choice (lookup voter votes)
      ≡ count_choice choice votes + ballot choice (some v)
unfolding count_choice insert lookup
count_choice-insert choice voter v [] = omega arith
count_choice-insert choice voter v ((other, u) ∷ votes) = elim (Bool-cases (str_eq other voter)) [
  | inl hit ↦ rw hit (omega arith)
  | inr miss ↦ rw miss (omega (arith, count_choice-insert choice voter v votes))
]

module _ (env : LawInstantEnv) (agent_id : String) (inst : VoteReq) (now : ℕ) where
  -- One member's vote on a law that is being voted on.
  pub record Casts (laws after : Map Law) : Type 0 where
    pub law : Law
    pub land : env.Land
    pub found : lookup inst.law_id laws ≡ some law
    pub in_voting : law.status ≡ voting
    pub its_land : env.get_land law.land_id ≡ some land
    pub is_member : env.is_land_member agent_id land ≡ true
    pub written : after ≡ cast env agent_id inst now law laws

  status_voting : (s : Status) → is_in_voting s ≡ true → s ≡ voting
  unfolding is_in_voting
  status_voting notice e = absurd (cc e)
  status_voting voting e = refl
  status_voting active e = absurd (cc e)
  status_voting rejected e = absurd (cc e)

  vote_in_cases :
      (law : Law) (land : Option env.Land) (laws : Map Law)
      → lookup inst.law_id laws ≡ some law
      → law.status ≡ voting
      → env.get_land law.land_id ≡ land
      → ((vote_in env agent_id inst now law land laws).0 ≡ laws)
        ⊎ Casts laws (vote_in env agent_id inst now law land laws).0
  unfolding vote_in
  vote_in_cases law none laws f s g = inl refl
  vote_in_cases law (some land) laws f s g = elim (Bool-cases (env.is_land_member agent_id land)) [
    | inr stranger ↦ inl (rw stranger refl)
    | inl member ↦ elim (Bool-cases (str_eq (normalize_vote_choice inst.choice) "")) [
      | inl bad ↦ inl (rw (member, bad) refl)
      | inr good ↦ inr (record {
        law = law;
        land = land;
        found = f;
        in_voting = s;
        its_land = g;
        is_member = member;
        written = rw (member, good) refl;
      })
    ]
  ]

  vote_found_cases :
      (found : Option Law) (laws : Map Law)
      → lookup inst.law_id laws ≡ found
      → ((vote_found env agent_id inst now found laws).0 ≡ laws)
        ⊎ Casts laws (vote_found env agent_id inst now found laws).0
  unfolding vote_found
  vote_found_cases none laws f = inl refl
  vote_found_cases (some law) laws f = elim (Bool-cases (is_in_voting law.status)) [
    | inr closed ↦ inl (rw closed refl)
    | inl opened ↦ rw opened (vote_in_cases law _ laws f (status_voting law.status opened) refl)
  ]

  vote_checked_cases :
      (k : Check) (laws : Map Law)
      → ((vote_checked env agent_id inst now k laws).0 ≡ laws)
        ⊎ Casts laws (vote_checked env agent_id inst now k laws).0
  unfolding vote_checked
  vote_checked_cases (reject code msg) laws = inl refl
  vote_checked_cases pass laws = vote_found_cases _ laws refl

  -- A vote changes no law, or it is a member's vote on a law that is being voted on, which alone
  -- changes: in its count of any choice, the new vote of the member replaces the old one.
  pub handle_vote_law_lem :
      (allow_laws : Bool) (laws : Map Law) (choice probe : String)
      → let after = (handle_vote_law env agent_id inst now allow_laws laws).0 in
        (after ≡ laws)
        ⊎ ((law law' : Law) × (land : env.Land) × (lookup inst.law_id laws ≡ some law)
            × (law.status ≡ voting)
            × (env.get_land law.land_id ≡ some land)
            × (env.is_land_member agent_id land ≡ true)
            × (lookup probe after
                ≡ (if str_eq inst.law_id probe then some law' else lookup probe laws))
            × (count_choice choice law'.votes + ballot choice (lookup agent_id law.votes)
                ≡ count_choice choice law.votes
                  + ballot choice (some (normalize_vote_choice inst.choice))))
  unfolding handle_vote_law cast
  handle_vote_law_lem allow_laws laws choice probe =
      elim (vote_checked_cases (validate_vote_input allow_laws inst.law_id inst.choice) laws) [
        | inl kept ↦ inl kept
        | inr done ↦
            let vote = normalize_vote_choice inst.choice in
            let law' : Law = record done.law { votes = insert agent_id vote done.law.votes } in
            inr (
              done.law,
              law',
              done.land,
              done.found,
              done.in_voting,
              done.its_land,
              done.is_member,
              ap (lookup probe) done.written ∙ lookup-insert inst.law_id probe law' laws,
              count_choice-insert choice agent_id vote done.law.votes,
            )
      ]
