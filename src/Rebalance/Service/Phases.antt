-- ===== src/Rebalance/Service/Phases.antt =====
-- What a decision is made of, phase by phase.
use investment_research_engi.Base.{ℕ, String, ◌≡◌, some, ap, sym, subst}
use investment_research_engi.Base.Result.{Result, ok, err, >>=-returns, same_value}
use investment_research_engi.Ledger.Accounting.{LedgerError}
use investment_research_engi.Rebalance.Floats.{Floats}
use investment_research_engi.Rebalance.Policy.{DynamicUniversePolicy}
use investment_research_engi.Rebalance.Gates.{derivatives_entry_block_reason}
use investment_research_engi.Rebalance.Selection.{Situation}
use investment_research_engi.Rebalance.Selection.Evidence.{select_detailed}
use investment_research_engi.Rebalance.Decisions.{Books}
use investment_research_engi.Rebalance.History.{
  recent_exits, expired_holdings, rolling_loss_blocked, selection_concentration_blocked,
  previous_scores, prior_counts, scores_high, was_eligible,
}
use investment_research_engi.Rebalance.Budget.{turnover_budget, daily_risk_violations}
use investment_research_engi.Rebalance.Plan.{plan}
use investment_research_engi.Rebalance.Variants.{selection_variants}
use investment_research_engi.Rebalance.Service.{
  Ports, Facts, Decided, observe, recall, judge, decide, of_ledger, planning_of, held_pairs_of,
}

from_ledger {ℓ} : {A : Type ℓ} {a : A} (m : Result LedgerError A) → of_ledger m ≡ ok a → m ≡ ok a
from_ledger (ok b) h = ap ok (same_value h)
from_ledger (err e) h = cc

module _ (fs : Floats) (policy : DynamicUniversePolicy fs) (ports : Ports fs) where
  -- The selection, the variants and the plan of a decision are those of its facts and its situation.
  pub record IsDecided (as_of : ℕ) (d : Decided fs policy ports) : Type 0 where
    pub selected : select_detailed fs policy d.situation d.facts.candidates ≡ ok d.selection
    pub planned :
        plan fs policy ports.identity
          (planning_of fs policy ports as_of d.facts d.situation d.selection.selected d.violations)
        ≡ ok d.rows
    pub gated :
        d.situation.entry_block_reason ≡ derivatives_entry_block_reason fs policy d.facts.overlay
    pub compared :
        selection_variants fs policy d.situation d.facts.candidates d.facts.overlay ≡ ok d.variants
    pub held : d.situation.held_pairs ≡ held_pairs_of d.facts.portfolio

  recalled :
      (portfolio_id : String) (as_of : ℕ) (books : Books fs) (facts : Facts fs policy ports)
      (s : Situation fs)
      → of_ledger (recall fs policy ports portfolio_id as_of books facts) ≡ ok s
      → (s.entry_block_reason ≡ derivatives_entry_block_reason fs policy facts.overlay)
        × (s.held_pairs ≡ held_pairs_of facts.portfolio)
  unfolding recall
  recalled portfolio_id as_of books facts s h =
      let held = held_pairs_of facts.portfolio in
      let back : recall fs policy ports portfolio_id as_of books facts ≡ ok s =
        from_ledger (recall fs policy ports portfolio_id as_of books facts) h in
      let (_, _, h₁) = >>=-returns (previous_scores fs policy portfolio_id books) _ back in
      let (_, _, h₂) =
        >>=-returns (prior_counts fs policy (scores_high fs policy) portfolio_id books) _ h₁ in
      let (_, _, h₃) = >>=-returns (recent_exits fs policy portfolio_id as_of books) _ h₂ in
      let (_, _, h₄) =
        >>=-returns (expired_holdings fs policy portfolio_id held as_of books) _ h₃ in
      let (_, _, h₅) =
        >>=-returns (selection_concentration_blocked fs policy portfolio_id as_of books) _ h₄ in
      let (_, _, h₆) =
        >>=-returns (rolling_loss_blocked fs policy portfolio_id facts.equity as_of books) _ h₅ in
      let one = same_value h₆ in
      (ap (λ t. t.entry_block_reason) (sym one), ap (λ t. t.held_pairs) (sym one))

  judged :
      (portfolio_id : String) (as_of : ℕ) (books : Books fs) (facts : Facts fs policy ports)
      (s : Situation fs) (d : Decided fs policy ports)
      → judge fs policy ports portfolio_id as_of books facts s ≡ ok d
      → (s.entry_block_reason ≡ derivatives_entry_block_reason fs policy facts.overlay)
      → (s.held_pairs ≡ held_pairs_of facts.portfolio)
      → IsDecided as_of d
  unfolding judge
  judged portfolio_id as_of books facts s d h gated held =
      let (selection, chosen, h₁) =
        >>=-returns (select_detailed fs policy s facts.candidates) _ h in
      let (_, _, h₂) =
        >>=-returns (of_ledger (prior_counts fs policy (scores_high fs policy) portfolio_id books))
          _ h₁ in
      let (_, _, h₃) =
        >>=-returns (of_ledger (prior_counts fs policy (was_eligible fs policy) portfolio_id books))
          _ h₂ in
      let (variants, compared, h₄) =
        >>=-returns (selection_variants fs policy s facts.candidates facts.overlay) _ h₃ in
      let (budget, _, h₅) = >>=-returns (turnover_budget fs policy facts.candidates) _ h₄ in
      let (violations, _, h₆) =
        >>=-returns
          (of_ledger
            (daily_risk_violations fs policy portfolio_id facts.equity as_of (some budget.0) books))
          _ h₅ in
      let (rows, planned, h₇) =
        >>=-returns
          (plan fs policy ports.identity
            (planning_of fs policy ports as_of facts s selection.selected violations))
          _ h₆ in
      subst (IsDecided as_of) (same_value h₇) (record {
        selected = chosen;
        planned = planned;
        gated = gated;
        compared = compared;
        held = held;
      })

  pub decide-IsDecided :
      (portfolio_id : String) (as_of : ℕ) (books : Books fs) (d : Decided fs policy ports)
      → decide fs policy ports portfolio_id as_of books ≡ ok d
      → IsDecided as_of d
  unfolding decide
  decide-IsDecided portfolio_id as_of books d h =
      let (facts, _, h₁) = >>=-returns (observe fs policy ports portfolio_id as_of books) _ h in
      let (s, found, h₂) =
        >>=-returns (of_ledger (recall fs policy ports portfolio_id as_of books facts)) _ h₁ in
      let (gated, held) = recalled portfolio_id as_of books facts s found in
      judged portfolio_id as_of books facts s d h₂ gated held
