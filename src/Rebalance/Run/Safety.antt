-- ===== src/Rebalance/Run/Safety.antt =====
-- What a run leaves alone, and what it decides while the gate is shut.
use investment_research_engi.Base.{
  suc, String, str_eq, [], ◌∷◌, ◌≡◌, refl, sym, ap, subst, Bool, true, false, some, arith, All,
  if◌then◌else◌,
}
use investment_research_engi.Base.Dict.{lookup}
use investment_research_engi.Base.Result.{Result, ok, err, same_value}
use investment_research_engi.Ledger.Orders.{is_core}
use investment_research_engi.Ledger.Tables.{Database, PortfolioRow, find_position}
use investment_research_engi.Ledger.Accounting.{LedgerError, PaperPortfolioSnapshot, get}
use investment_research_engi.Rebalance.Floats.{Floats}
use investment_research_engi.Rebalance.Policy.{DynamicUniversePolicy}
use investment_research_engi.Rebalance.Candidates.{SelectionVariantResult, is_in}
use investment_research_engi.Rebalance.Gates.{RebalanceError, gate_modes}
use investment_research_engi.Rebalance.Selection.Gated.{is_shut, select_detailed-fails_closed}
use investment_research_engi.Rebalance.Selection.Evidence.{select_detailed}
use investment_research_engi.Rebalance.Variants.{under_reason, selection_variants-production}
use investment_research_engi.Rebalance.Decisions.{Books, save_rebalance_decision}
use investment_research_engi.Rebalance.Plan.Ordering.{is_sales_first, plan-sales_first}
use investment_research_engi.Rebalance.Plan.Rows.{IsSound, plan-IsSound}
use investment_research_engi.Rebalance.Execution.{execute}
use investment_research_engi.Rebalance.Execution.Safety.{execute-core_untouched}
use investment_research_engi.Rebalance.Service.{Ports, Decided, decide, held_pairs_of, planning_of}
use investment_research_engi.Rebalance.Service.Phases.{IsDecided, decide-IsDecided}
use investment_research_engi.Rebalance.Run.{
  Command, Outcome, run, conclude, carry_out, persist, finished, after_execution, intents_of,
  is_late,
}

module _ (fs : Floats) (policy : DynamicUniversePolicy fs) (ports : Ports fs) where
  persist-ledger :
      (command : Command) (d : Decided fs policy ports) (books : Books fs)
      → (persist fs policy ports command d books).ledger ≡ books.ledger
  unfolding save_rebalance_decision
  persist-ledger command d books = ground arith

  finished-ledger :
      (command : Command) (d : Decided fs policy ports) (books : Books fs)
      (final : Result LedgerError PaperPortfolioSnapshot)
      → (finished fs policy ports command d books final).1.ledger ≡ books.ledger
  finished-ledger command d books (err e) = refl
  finished-ledger command d books (ok final) = persist-ledger command d books

  after-ledger :
      (command : Command) (d : Decided fs policy ports) (books : Books fs)
      (done : Result RebalanceError (Unit {0}) × Database)
      → (after_execution fs policy ports command d books done).1.ledger ≡ done.1
  after-ledger command d books (err e, ledger) = refl
  after-ledger command d books (ok u, ledger) =
      finished-ledger command d (record books { ledger = ledger }) (get command.portfolio_id ledger)

  carry-dry :
      (b : Bool) (command : Command) (d : Decided fs policy ports) (books : Books fs)
      → b ≡ false
      → (carry_out fs policy ports b command d books).1.ledger ≡ books.ledger
  carry-dry true command d books dry = cc
  carry-dry false command d books dry = persist-ledger command d books

  dry-ledger :
      (command : Command) (books : Books fs)
      (decided : Result RebalanceError (Decided fs policy ports))
      → command.execute ≡ false
      → (conclude fs policy ports command books decided).1.ledger ≡ books.ledger
  dry-ledger command books (err e) dry = refl
  dry-ledger command books (ok d) dry = carry-dry command.execute command d books dry

  -- A dry run leaves every account as it is, whatever it decides and however it ends.
  pub run-dry :
      (command : Command) (books : Books fs)
      → command.execute ≡ false
      → (run fs policy ports command books).1.ledger ≡ books.ledger
  unfolding run
  run-dry command books dry =
      dry-ledger command books (decide fs policy ports command.portfolio_id command.as_of books) dry

  module _ {κ} (P : Database → Type κ) (books : Books fs) (kept : P books.ledger)
      (keeps : (d : Decided fs policy ports)
        → P
            (execute fs policy
              (λ n. ports.now (suc n))
              ports.factory
              (intents_of fs policy ports d)
              d.facts.prices
              d.facts.equity
              books.ledger).1) where
    late-keeps :
        (late : Bool) (command : Command) (d : Decided fs policy ports)
        (done : Result RebalanceError (Unit {0}) × Database)
        → P done.1
        → P
            (if late
              then (err RebalanceError.deadline_elapsed, books)
              else after_execution fs policy ports command d books done).1.ledger
    late-keeps true command d done fine = kept
    late-keeps false command d done fine = subst P (sym (after-ledger command d books done)) fine

    carry-keeps :
        (b : Bool) (command : Command) (d : Decided fs policy ports)
        → P (carry_out fs policy ports b command d books).1.ledger
    carry-keeps false command d = subst P (sym (persist-ledger command d books)) kept
    carry-keeps true command d =
        late-keeps (is_late fs policy ports command.execution_deadline) command d
          (execute fs policy (λ n. ports.now (suc n)) ports.factory (intents_of fs policy ports d)
            d.facts.prices d.facts.equity books.ledger)
          (keeps d)

    conclude-keeps :
        (command : Command) (decided : Result RebalanceError (Decided fs policy ports))
        → P (conclude fs policy ports command books decided).1.ledger
    conclude-keeps command (err e) = kept
    conclude-keeps command (ok d) = carry-keeps command.execute command d

    run-keeps : (command : Command) → P (run fs policy ports command books).1.ledger
    unfolding run
    run-keeps command =
        conclude-keeps command (decide fs policy ports command.portfolio_id command.as_of books)

  -- Whatever a run does, a portfolio that is recorded as core investment keeps its row and all its
  -- positions.
  pub run-core_untouched :
      (command : Command) (books : Books fs) (p a : String) (row : PortfolioRow)
      → lookup p books.ledger.portfolios ≡ some row
      → is_core row.purpose ≡ true
      → let after = (run fs policy ports command books).1.ledger in
        (lookup p after.portfolios ≡ some row)
        × (find_position p a after.positions ≡ find_position p a books.ledger.positions)
  run-core_untouched command books p a row found core =
      run-keeps
        (λ db.
          (lookup p db.portfolios ≡ some row)
          × (find_position p a db.positions ≡ find_position p a books.ledger.positions))
        books (found, refl)
        (λ d.
          execute-core_untouched fs policy (λ n. ports.now (suc n)) ports.factory
            (intents_of fs policy ports d) d.facts.prices d.facts.equity books.ledger p a row found
            core)
        command

  finished-decided :
      (command : Command) (d : Decided fs policy ports) (books : Books fs)
      (final : Result LedgerError PaperPortfolioSnapshot) (out : Outcome fs policy ports)
      → (finished fs policy ports command d books final).0 ≡ ok out
      → d ≡ out.decided
  finished-decided command d books (err e) out h = cc
  finished-decided command d books (ok final) out h = ap (λ o. o.decided) (same_value h)

  after-decided :
      (late : Bool) (command : Command) (d : Decided fs policy ports) (books : Books fs)
      (done : Result RebalanceError (Unit {0}) × Database) (out : Outcome fs policy ports)
      → (if late
          then (err RebalanceError.deadline_elapsed, books)
          else after_execution fs policy ports command d books done).0
        ≡ ok out
      → d ≡ out.decided
  after-decided true command d books done out h = cc
  after-decided false command d books (err e, ledger) out h = cc
  after-decided false command d books (ok u, ledger) out h =
      finished-decided command d (record books { ledger = ledger })
        (get command.portfolio_id ledger) out h

  carry-decided :
      (b : Bool) (command : Command) (books : Books fs) (d : Decided fs policy ports)
      (out : Outcome fs policy ports)
      → (carry_out fs policy ports b command d books).0 ≡ ok out
      → d ≡ out.decided
  carry-decided false command books d out h = ap (λ o. o.decided) (same_value h)
  carry-decided true command books d out h =
      after-decided (is_late fs policy ports command.execution_deadline) command d books
        (execute fs policy (λ n. ports.now (suc n)) ports.factory (intents_of fs policy ports d)
          d.facts.prices d.facts.equity books.ledger)
        out h

  conclude-decided :
      (command : Command) (books : Books fs)
      (decided : Result RebalanceError (Decided fs policy ports)) (out : Outcome fs policy ports)
      → (conclude fs policy ports command books decided).0 ≡ ok out
      → decided ≡ ok out.decided
  conclude-decided command books (err e) out h = cc
  conclude-decided command books (ok d) out h =
      ap ok (carry-decided command.execute command books d out h)

  -- What a run returns is a decision in the sense of `IsDecided`.
  run-IsDecided :
      (command : Command) (books : Books fs) (out : Outcome fs policy ports)
      → (run fs policy ports command books).0 ≡ ok out
      → IsDecided fs policy ports command.as_of out.decided
  unfolding run
  run-IsDecided command books out h =
      let decided = decide fs policy ports command.portfolio_id command.as_of books in
      decide-IsDecided fs policy ports command.portfolio_id command.as_of books out.decided
        (conclude-decided command books decided out h)

  -- End to end: under a derivatives gate, a run whose overlay is absent, missing, stale or incomplete
  -- selects only what the portfolio holds already.
  pub run-fails_closed :
      (command : Command) (books : Books fs) (out : Outcome fs policy ports)
      → (run fs policy ports command books).0 ≡ ok out
      → is_in policy.derivatives_overlay_mode gate_modes ≡ true
      → is_shut fs policy out.decided.situation out.decided.facts.overlay ≡ true
      → All
          (λ a. is_in a.pair (held_pairs_of out.decided.facts.portfolio) ≡ true)
          out.decided.selection.selected
  run-fails_closed command books out h gated shut =
      let d = out.decided in
      let fine = run-IsDecided command books out h in
      subst (λ held. All (λ a. is_in a.pair held ≡ true) d.selection.selected) fine.held
        (select_detailed-fails_closed fs policy d.situation d.facts.overlay d.facts.candidates
          d.selection gated shut fine.gated fine.selected)

  -- End to end: the orders of a run that returns are sound, with the sales before the purchases.
  pub run-orders :
      (command : Command) (books : Books fs) (out : Outcome fs policy ports)
      → (run fs policy ports command books).0 ≡ ok out
      → let d = out.decided in
        let p =
          planning_of fs policy ports command.as_of d.facts d.situation d.selection.selected
            d.violations in
        All (IsSound fs policy ports.identity p) d.rows × (is_sales_first d.rows ≡ true)
  run-orders command books out h =
      let d = out.decided in
      let p =
        planning_of fs policy ports command.as_of d.facts d.situation d.selection.selected
          d.violations in
      let fine = run-IsDecided command books out h in
      (
        plan-IsSound fs policy ports.identity p d.rows fine.planned,
        plan-sales_first fs policy ports.identity p d.rows fine.planned,
      )

  -- A run of version 2.7-accuracy-v1 that returns has four selection variants, and the last of them, that of
  -- the production gates, has selected what the run itself selects.
  pub run-production :
      (command : Command) (books : Books fs) (out : Outcome fs policy ports)
      → (run fs policy ports command books).0 ≡ ok out
      → str_eq policy.strategy_version "dynamic-intraday-v2.7-accuracy-v1" ≡ true
      → (a b c : SelectionVariantResult fs) × (out.decided.variants
          ≡ a
            ∷ b
            ∷ c
            ∷ record {
              variant_id = "v2.7d-production-gates";
              selected = out.decided.selection.selected;
            }
            ∷ [])
  run-production command books out h version =
      let d = run-IsDecided command books out h in
      let decided = out.decided in
      selection_variants-production fs policy decided.situation decided.facts.candidates
        decided.facts.overlay decided.variants decided.selection version d.compared
        (subst
          (λ reason.
            select_detailed fs policy (under_reason fs policy decided.situation reason)
              decided.facts.candidates
            ≡ ok decided.selection)
          d.gated d.selected)
