-- ===== src/Contracts/Reputation.antt =====
-- The reputations that contracts earn and cost (internal/sim/world/contracts_facade.go, and
-- feature/contracts/reputation/reputation.go). Statistics and fun scores are not in the state.
use voxelcraft_ai.Prelude.{
  Bool-cases, inl, inr, refl, ◌∙◌, arith, ℕ, String, none, some, lookup, insert, add64, ◌==◌,
  if◌then◌else◌,
}
use voxelcraft_ai.Kernel.Agent.{Agent}
use voxelcraft_ai.Contracts.Lifecycle.{clamp_reputation, law_penalty_delta}
use voxelcraft_ai.Contracts.State.{Site, Keeps}

-- a := w.agents[agentID]; if a == nil { return }
abbrev pub change_agent : String → (Agent → Agent) → Site → Site
change_agent id change w = elim (lookup id w.agents) [
  | none ↦ w
  | some a ↦ record w { agents = insert id (change a) w.agents }
]

unfoldable pub bump_rep_trade : String → ℕ → Site → Site
bump_rep_trade id delta =
    change_agent id (λ a. record a { rep_trade = clamp_reputation (add64 a.rep_trade delta) })

unfoldable pub bump_rep_build : String → ℕ → Site → Site
bump_rep_build id delta =
    change_agent id (λ a. record a { rep_build = clamp_reputation (add64 a.rep_build delta) })

unfoldable pub bump_rep_social : String → ℕ → Site → Site
bump_rep_social id delta =
    change_agent id (λ a. record a { rep_social = clamp_reputation (add64 a.rep_social delta) })

unfoldable pub bump_rep_law : String → ℕ → Site → Site
bump_rep_law id delta =
    change_agent id (λ a. record a { rep_law = clamp_reputation (add64 a.rep_law delta) })

unfoldable pub add_trade_credit : String → Site → Site
add_trade_credit actor w = bump_rep_social actor 2 (bump_rep_trade actor 6 w)

unfoldable pub add_build_credit : String → Site → Site
add_build_credit actor w = bump_rep_build actor 6 w

unfoldable pub add_law_penalty : String → String → Site → Site
add_law_penalty actor reason w =
    let (trade, law) = law_penalty_delta reason in
    bump_rep_law actor law (if trade == 0 then w else bump_rep_trade actor trade w)

change_agent-Keeps :
    (id : String) (change : Agent → Agent) (w : Site) → Keeps w (change_agent id change w)
change_agent-Keeps id change w = ground arith

after_Keeps : (u v w : Site) → Keeps u v → Keeps v w → Keeps u w
after_Keeps u v w k l = (l.0 ∙ k.0, l.1 ∙ k.1, l.2 ∙ k.2)

pub add_trade_credit-Keeps : (id : String) (w : Site) → Keeps w (add_trade_credit id w)
unfolding add_trade_credit bump_rep_trade bump_rep_social
add_trade_credit-Keeps id w =
    after_Keeps w (bump_rep_trade id 6 w) (add_trade_credit id w) (change_agent-Keeps id _ w)
      (change_agent-Keeps id _ (bump_rep_trade id 6 w))

pub add_build_credit-Keeps : (id : String) (w : Site) → Keeps w (add_build_credit id w)
unfolding add_build_credit bump_rep_build
add_build_credit-Keeps id w = change_agent-Keeps id _ w

pub add_law_penalty-Keeps : (id reason : String) (w : Site) → Keeps w (add_law_penalty id reason w)
unfolding add_law_penalty bump_rep_law bump_rep_trade
add_law_penalty-Keeps id reason w =
    let (trade, law) = law_penalty_delta reason in
    let mid = if trade == 0 then w else bump_rep_trade id trade w in
    after_Keeps w mid (bump_rep_law id law mid) (first trade) (change_agent-Keeps id _ mid)
  where
    first : (delta : ℕ) → Keeps w (if delta == 0 then w else bump_rep_trade id delta w)
    first delta = elim (Bool-cases (delta == 0)) [
      | inl none_due ↦ rw none_due (refl, refl, refl)
      | inr due ↦ rw due (change_agent-Keeps id _ w)
    ]
