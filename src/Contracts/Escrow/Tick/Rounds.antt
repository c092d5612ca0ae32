-- ===== src/Contracts/Escrow/Tick/Rounds.antt =====
-- The loop of `tickContracts` (internal/sim/world/contracts_facade.go).
use mathlib.Core.Option.{some-injective}
use voxelcraft_ai.Prelude.{
  ℕ, ◌≡◌, refl, ◌∙◌, sym, ap, String, Option, none, some, arith, if◌then◌else◌, lookup, insert, inl,
  inr, ◌⊎◌, Bool-cases,
}
use voxelcraft_ai.Kernel.Vec.{Vec3i, same_pos, same_pos-path, same_pos_refl}
use voxelcraft_ai.Contracts.Container.{Container}
use voxelcraft_ai.Contracts.Core.{
  failed, TickDecision, noop, fail_missing_target, expire_open, timeout_accepted, complete_deliver,
  complete_build, plan_settlement,
}
use voxelcraft_ai.Contracts.State.{Contract, Site, put_container}
use voxelcraft_ai.Contracts.Reputation.{add_law_penalty}
use voxelcraft_ai.Contracts.Handlers.{ContractEnv}
use voxelcraft_ai.Contracts.Tick.{next_state, pay_plan, settle_tick, apply_decision}
use voxelcraft_ai.Contracts.Tick.Plans.{Due}
use voxelcraft_ai.Contracts.Escrow.{
  IsBacked, IsPlaced, IsSoundContract, escrow-insert, held_at_away,
}
use voxelcraft_ai.Contracts.Escrow.Tick.{settle_tick-IsBacked, credit_for-Keeps, penalized-Keeps}

put_container-IsPlaced : (t : Container) (w : Site) → IsPlaced w → IsPlaced (put_container t w)
unfolding put_container
put_container-IsPlaced t w placed p c e = elim (Bool-cases (same_pos p t.pos)) [
  | inl hit ↦
      ap (λ (d : Container). d.pos) (sym (some-injective _ _ (rw hit at e)))
      ∙ sym (same_pos-path p t.pos hit)
  | inr miss ↦ placed p c (rw miss at e)
]

-- A round writes the contract under its key, if anything, and leaves the containers in their places.
abbrev pub Rounds : String → Site → Site → Type 0
Rounds key w after =
    (IsPlaced w → IsPlaced after)
    × ((after.contracts ≡ w.contracts)
        ⊎ ((c : Contract) × (after.contracts ≡ insert key c w.contracts)))

module _ (env : ContractEnv) (now : ℕ) where
  settle_tick-Rounds :
      (key : String) (c : Contract) (d : TickDecision) (t : Container) (w : Site)
      → Rounds key w (settle_tick env now key c d t w)
  unfolding settle_tick put_container
  settle_tick-Rounds key c d t w =
      let s = pay_plan env now w c (plan_settlement d) t in
      let c' : Contract = record c { state = next_state env now (plan_settlement d) c.state } in
      let done : Site = record w {
        heap = s.0;
        containers = (put_container s.1 w).containers;
        contracts = insert key c' w.contracts;
      } in
      let fine : Site =
        if (plan_settlement d).penalize_acceptor_law
        then add_law_penalty c.acceptor "CONTRACT_TIMEOUT" done
        else done in
      let k = credit_for-Keeps env now d c fine in
      let l = penalized-Keeps env now (plan_settlement d).penalize_acceptor_law c.acceptor done in
      (
        λ placed p b e.
            put_container-IsPlaced s.1 w placed p b (sym (ap (λ f. f p) (k.1 ∙ l.1)) ∙ e),
        inr (c', k.2 ∙ l.2),
      )

  pub apply_decision-Rounds :
      (key : String) (c : Contract) (d : TickDecision) (term : Option Container) (w : Site)
      → Rounds key w (apply_decision env now key c d term w)
  unfolding apply_decision
  apply_decision-Rounds key c noop term w = (λ placed. placed, inl refl)
  apply_decision-Rounds key c fail_missing_target term w = (λ placed. placed, inr (_, refl))
  apply_decision-Rounds key c expire_open none w = (λ placed. placed, inl refl)
  apply_decision-Rounds key c timeout_accepted none w = (λ placed. placed, inl refl)
  apply_decision-Rounds key c complete_deliver none w = (λ placed. placed, inl refl)
  apply_decision-Rounds key c complete_build none w = (λ placed. placed, inl refl)
  apply_decision-Rounds key c expire_open (some t) w = settle_tick-Rounds key c expire_open t w
  apply_decision-Rounds key c timeout_accepted (some t) w =
      settle_tick-Rounds key c timeout_accepted t w
  apply_decision-Rounds key c complete_deliver (some t) w =
      settle_tick-Rounds key c complete_deliver t w
  apply_decision-Rounds key c complete_build (some t) w =
      settle_tick-Rounds key c complete_build t w

  module _ (p : Vec3i) (j : String) where
    -- Without its terminal, a contract holds nothing that a container would have to back.
    fail-IsBacked :
        (key : String) (c : Contract) (w : Site)
        → lookup key w.contracts ≡ some c
        → w.containers c.terminal_pos ≡ none
        → IsBacked p j w
        → let c' : Contract = record c { state = failed } in
          IsBacked p j (record w { contracts = insert key c' w.contracts })
    fail-IsBacked key c w found gone b d e =
        let c' : Contract = record c { state = failed } in
        elim (Bool-cases (same_pos c.terminal_pos p)) [
          | inl hit ↦
              absurd (cc (sym gone ∙ ap w.containers (same_pos-path c.terminal_pos p hit) ∙ e))
          | inr miss ↦
              let old = b d e in
              let here = same_pos_refl c.terminal_pos in
              (
                omega (
                  arith,
                  old,
                  escrow-insert p j key c c' w.contracts found,
                  held_at_away p c.terminal_pos j c here miss,
                  held_at_away p c.terminal_pos j c' here miss,
                ),
                old.1,
                old.2,
              )
        ]

    pub apply_decision-IsBacked :
        (key : String) (c : Contract) (d : TickDecision) (term : Option Container) (w : Site)
        → lookup key w.contracts ≡ some c
        → w.containers c.terminal_pos ≡ term
        → IsPlaced w
        → Due env now d c term
        → IsSoundContract c
        → IsBacked p j w
        → IsBacked p j (apply_decision env now key c d term w)
    unfolding apply_decision
    apply_decision-IsBacked key c noop term w f t placed due sound b = b
    apply_decision-IsBacked key c fail_missing_target term w f t placed due sound b =
        fail-IsBacked key c w f (t ∙ due) b
    apply_decision-IsBacked key c expire_open none w f t placed due sound b = b
    apply_decision-IsBacked key c timeout_accepted none w f t placed due sound b = b
    apply_decision-IsBacked key c complete_deliver none w f t placed due sound b = b
    apply_decision-IsBacked key c complete_build none w f t placed due sound b = b
    apply_decision-IsBacked key c expire_open (some t) w f e placed due sound b =
        let q = placed c.terminal_pos t e in
        settle_tick-IsBacked env now p j key c expire_open t w f (ap w.containers q ∙ e) (sym q) tt
          due sound b
    apply_decision-IsBacked key c timeout_accepted (some t) w f e placed due sound b =
        let q = placed c.terminal_pos t e in
        settle_tick-IsBacked env now p j key c timeout_accepted t w f (ap w.containers q ∙ e)
          (sym q) tt due sound b
    apply_decision-IsBacked key c complete_deliver (some t) w f e placed due sound b =
        let q = placed c.terminal_pos t e in
        settle_tick-IsBacked env now p j key c complete_deliver t w f (ap w.containers q ∙ e)
          (sym q) tt due sound b
    apply_decision-IsBacked key c complete_build (some t) w f e placed due sound b =
        let q = placed c.terminal_pos t e in
        settle_tick-IsBacked env now p j key c complete_build t w f (ap w.containers q ∙ e) (sym q)
          tt due sound b
