-- ===== src/Governance/Laws/Life.antt =====
-- How a tick of governance/laws/runtime/lifecycle.go changes a law.
use mathlib.Core.Option.{some-injective}
use voxelcraft_ai.Prelude.{
  ℕ, ◌≤◌, ◌≡◌, refl, ◌∙◌, sym, ap, subst, String, Bool, true, false, leb→le, Option, none, some,
  List, [], ◌∷◌, leb, str_eq, eq_iff, lookup, lookup-insert, Bool-cases, inl, inr, ◌⊎◌,
}
use voxelcraft_ai.Governance.Laws.{
  Status, notice, voting, active, rejected, Law, count_votes, vote_passed, next_transition, Polity,
  set_status, activate, close_vote, tick_status, tick_found, tick_each, sorted_ids, tick_laws,
}

-- Closed laws stay as they are.
abbrev pub is_closed : Status → Bool
is_closed active = true
is_closed rejected = true
is_closed _ = false

-- What may become of a law in a tick: a closed law stays as it is, and any other may change its
-- status, to active only where its vote is over and was won.
pub record Evolves (now : ℕ) (law after : Law) : Type 0 where
  pub same_law : after ≡ record law { status = after.status }
  pub stays_closed : is_closed law.status ≡ true → after.status ≡ law.status
  pub won :
      after.status ≡ active
      → (law.status ≡ active)
        ⊎ ((law.vote_ends_tick ≤ now)
            × (vote_passed (count_votes law.votes).0 (count_votes law.votes).1 ≡ true))

Evolves-refl : (now : ℕ) (law : Law) → Evolves now law law
Evolves-refl now law = record { same_law = refl; stays_closed = λ c. refl; won = λ e. inl e }

Evolves-trans : (now : ℕ) (a b c : Law) → Evolves now a b → Evolves now b c → Evolves now a c
Evolves-trans now a b c p q = record {
  same_law = q.same_law ∙ ap (λ (l : Law). record l { status = c.status }) p.same_law;
  stays_closed = λ closed. let s = p.stays_closed closed in q.stays_closed (rw s closed) ∙ s;
  won = λ e. elim (q.won e) [
    | inl earlier ↦ p.won earlier
    | inr (over, passed) ↦ inr (
      subst (λ t. t ≤ now) (ap (λ (l : Law). l.vote_ends_tick) p.same_law) over,
      subst (λ v. vote_passed (count_votes v).0 (count_votes v).1 ≡ true)
          (ap (λ (l : Law). l.votes) p.same_law) passed,
    )
  ];
}

-- A law that is not closed, and takes a status that it may take.
restated :
    (now : ℕ) (law : Law) (s : Status)
    → is_closed law.status ≡ false
    → (s ≡ active
        → (law.vote_ends_tick ≤ now)
          × (vote_passed (count_votes law.votes).0 (count_votes law.votes).1 ≡ true))
    → Evolves now law (record law { status = s })
restated now law s live won = record {
  same_law = refl;
  stays_closed = λ closed. absurd (cc (sym live ∙ closed));
  won = λ e. inr (won e);
}

module _ (Lands : Type 0) (on_activate : Law → Lands → Option Lands) (now : ℕ) where
  -- Every law is still there, and has evolved.
  abbrev pub Follows : Polity Lands on_activate → Polity Lands on_activate → Type 0
  Follows w after =
      (id : String) (law : Law)
      → lookup id w.laws ≡ some law
      → (law' : Law) × (lookup id after.laws ≡ some law') × Evolves now law law'

  Follows-refl : (w : Polity Lands on_activate) → Follows w w
  Follows-refl w id law e = (law, e, Evolves-refl now law)

  Follows-trans : (u v w : Polity Lands on_activate) → Follows u v → Follows v w → Follows u w
  Follows-trans u v w f g id law e =
      let (law', e', p) = f id law e in
      let (law'', e'', q) = g id law' e' in (law'', e'', Evolves-trans now law law' law'' p q)

  set_status-Follows :
      (id : String) (law : Law) (s : Status) (w : Polity Lands on_activate)
      → lookup id w.laws ≡ some law
      → Evolves now law (record law { status = s })
      → Follows w (set_status Lands on_activate id law s w)
  unfolding set_status
  set_status-Follows id law s w found p probe other e = elim (Bool-cases (str_eq id probe)) [
    | inl hit ↦
        let same : law ≡ other =
          some-injective _ _
            (sym found ∙ ap (λ k. lookup k w.laws) ((eq_iff id probe).0 hit) ∙ e) in
        (
          record law { status = s },
          lookup-insert id probe (record law { status = s }) w.laws ∙ rw hit refl,
          subst (λ l. Evolves now l (record law { status = s })) same p,
        )
    | inr miss ↦ (
      other,
      lookup-insert id probe (record law { status = s }) w.laws ∙ rw miss e,
      Evolves-refl now other,
    )
  ]

  activate-Follows :
      (id : String) (law : Law) (lands : Option Lands) (w : Polity Lands on_activate)
      → lookup id w.laws ≡ some law
      → is_closed law.status ≡ false
      → law.vote_ends_tick ≤ now
      → vote_passed (count_votes law.votes).0 (count_votes law.votes).1 ≡ true
      → Follows w (activate Lands on_activate id law lands w)
  unfolding activate
  activate-Follows id law none w found live over passed =
      set_status-Follows id law rejected w found
        (restated now law rejected live (λ e. (over, passed)))
  activate-Follows id law (some l) w found live over passed =
      set_status-Follows id law active (record w { lands = l }) found
        (restated now law active live (λ e. (over, passed)))

  close_vote-Follows :
      (id : String) (law : Law) (w : Polity Lands on_activate)
      → lookup id w.laws ≡ some law
      → is_closed law.status ≡ false
      → law.vote_ends_tick ≤ now
      → Follows w (close_vote Lands on_activate id law w)
  unfolding close_vote
  close_vote-Follows id law w found live over =
      elim (Bool-cases (vote_passed (count_votes law.votes).0 (count_votes law.votes).1)) [
        | inl passed ↦
            rw passed (activate-Follows id law (on_activate law w.lands) w found live over passed)
        | inr lost ↦ rw lost (
            set_status-Follows id law rejected w found
              (restated now law rejected live (λ e. absurd (cc e))))
      ]

  tick_status-Follows :
      (id : String) (law : Law) (s : Status) (w : Polity Lands on_activate)
      → lookup id w.laws ≡ some law
      → law.status ≡ s
      → Follows w (tick_status Lands on_activate now id law s w)
  unfolding tick_status next_transition
  tick_status-Follows id law notice w found e = elim (Bool-cases (leb law.notice_ends_tick now)) [
    | inl over ↦ rw over (
        set_status-Follows id law voting w found
          (restated now law voting (ap is_closed e) (λ e. absurd (cc e))))
    | inr early ↦ rw early (Follows-refl w)
  ]
  tick_status-Follows id law voting w found e = elim (Bool-cases (leb law.vote_ends_tick now)) [
    | inl over ↦
        rw over
          (close_vote-Follows id law w found (ap is_closed e) (leb→le law.vote_ends_tick now over))
    | inr early ↦ rw early (Follows-refl w)
  ]
  tick_status-Follows id law active w found e = Follows-refl w
  tick_status-Follows id law rejected w found e = Follows-refl w

  tick_found-Follows :
      (id : String) (found : Option Law) (w : Polity Lands on_activate)
      → lookup id w.laws ≡ found
      → Follows w (tick_found Lands on_activate now id found w)
  unfolding tick_found
  tick_found-Follows id none w e = Follows-refl w
  tick_found-Follows id (some law) w e = tick_status-Follows id law law.status w e refl

  tick_each-Follows :
      (ids : List String) (w : Polity Lands on_activate)
      → Follows w (tick_each Lands on_activate now ids w)
  unfolding tick_each
  tick_each-Follows [] w = Follows-refl w
  tick_each-Follows (id ∷ ids) w =
      let next = tick_found Lands on_activate now id (lookup id w.laws) w in
      Follows-trans w next (tick_each Lands on_activate now ids next)
        (tick_found-Follows id (lookup id w.laws) w refl) (tick_each-Follows ids next)

  -- A tick loses no law and changes nothing of it but its status; a closed law stays as it is, and
  -- a law becomes active only where its vote is over and was won.
  pub tick_laws-Follows :
      (w : Polity Lands on_activate) → Follows w (tick_laws Lands on_activate now w)
  unfolding tick_laws
  tick_laws-Follows w = tick_each-Follows (sorted_ids Lands on_activate w.laws) w
