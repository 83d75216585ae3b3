-- ===== src/Rebalance/History.antt =====
-- What src/investment/crypto/application/dynamic_paper_rebalance.py reads of the past: `_recent_exits`,
-- `_expired_holdings`, `_rolling_loss_blocked`, `_selection_concentration_blocked`, `_previous_scores`
-- and the counts of confirmations. A set is a list without repetitions.
pub mod Confirmations
pub mod Holdings
use investment_research_engi.Base.{
  ℕ, suc, ◌+◌, ◌-◌, String, Bool, true, false, Option, none, some, List, [], ◌∷◌, ◌++◌, ◌&&◌, ◌||◌,
  not, if◌then◌else◌, str_eq, length, any, keep, take, map, ltb, leb, ◌==◌,
}
use investment_research_engi.Base.Dict.{Dict, lookup, insert, erase}
use investment_research_engi.Base.Result.{Result, ok, ◌>>=◌}
use investment_research_engi.Base.Sorting.{sort_by}
use investment_research_engi.Decimal.{Decimal, ◌+d◌, ◌-d◌, ◌*d◌, lt_d, le_d, eq_d, zero_d}
use investment_research_engi.Derivatives.Overlay.{unique_after}
use investment_research_engi.Ledger.Orders.{OrderSide, side_eq}
use investment_research_engi.Ledger.Tables.{PaperExecutionRecord}
use investment_research_engi.Ledger.Accounting.{LedgerError, list_executions}
use investment_research_engi.Ledger.Exchange.{symbol_of}
use investment_research_engi.Rebalance.Floats.{Floats}
use investment_research_engi.Rebalance.Policy.{DynamicUniversePolicy, effective_entry_score_hurdle}
use investment_research_engi.Rebalance.Candidates.{is_in, or_default, count_of}
use investment_research_engi.Rebalance.Decisions.{
  StoredAssessment, Decision, Books, list_rebalance_decisions,
}
use investment_research_engi.Rebalance.Selection.{is_above}

abbrev is_sale : PaperExecutionRecord → Bool
is_sale e = side_eq e.side OrderSide.sell

-- `as_of - lookback < time <= as_of`
abbrev pub is_within : ℕ → ℕ → ℕ → Bool
is_within lookback as_of time = ltb as_of (time + lookback) && leb time as_of

-- The quantities and the opening times of a replay of executions.
pub record Replay : Type 0 where
  pub quantities : Dict Decimal
  pub opened_at : Dict ℕ

abbrev pub quantity_in : Replay → String → Decimal
quantity_in r pair = or_default (lookup pair r.quantities) zero_d

-- `max(Decimal("0"), current - quantity)`
abbrev pub floored : Decimal → Decimal
floored d = if lt_d zero_d d then d else zero_d

unfoldable pub replay_buy : PaperExecutionRecord → Replay → Replay
replay_buy e r =
    let pair = symbol_of e.pair in
    let current = quantity_in r pair in
    record {
      quantities = insert pair (current +d e.quantity) r.quantities;
      opened_at =
          if le_d current zero_d then insert pair e.executed_at r.opened_at else r.opened_at;
    }

unfoldable pub replay_sell : PaperExecutionRecord → Replay → Replay
replay_sell e r =
    let pair = symbol_of e.pair in
    let remaining = floored (quantity_in r pair -d e.quantity) in
    record {
      quantities = insert pair remaining r.quantities;
      opened_at = if eq_d remaining zero_d then erase pair r.opened_at else r.opened_at;
    }

abbrev pub replay_one : OrderSide → PaperExecutionRecord → Replay → Replay
replay_one OrderSide.buy = replay_buy
replay_one OrderSide.sell = replay_sell

unfoldable pub replay : List PaperExecutionRecord → Replay → Replay
unfolding replay_buy replay_sell
replay [] r = r
replay (e ∷ es) r = replay es (replay_one e.side e r)

abbrev pub no_replay : Replay
no_replay = record { quantities = []; opened_at = [] }

abbrev pub earlier : PaperExecutionRecord → PaperExecutionRecord → Bool
earlier a b = ltb a.executed_at b.executed_at

abbrev pub is_due : ℕ → ℕ → Option ℕ → Bool
is_due as_of period none = false
is_due as_of period (some opened) = leb (opened + period) as_of

-- `float("-inf")` aside, `sum(returns, Decimal("0"))`
abbrev sum_from : Decimal → List Decimal → Decimal
sum_from acc [] = acc
sum_from acc (x ∷ xs) = sum_from (acc +d x) xs

-- `sells.setdefault(pair, []).append(realized_pnl)`
abbrev add_sale : PaperExecutionRecord → Dict (List Decimal) → Dict (List Decimal)
add_sale e sells =
    let pair = symbol_of e.pair in
    insert pair (or_default (lookup pair sells) [] ++ (e.realized_pnl ∷ [])) sells

abbrev add_sales : List PaperExecutionRecord → Dict (List Decimal) → Dict (List Decimal)
add_sales [] sells = sells
add_sales (e ∷ es) sells = add_sales es (add_sale e sells)

-- The number of sets that a pair is in.
abbrev appearances : String → List (List String) → ℕ
appearances pair [] = 0
appearances pair (c ∷ cs) =
    let rest = appearances pair cs in if is_in pair c then suc rest else rest

abbrev all_pairs : List (List String) → List String
all_pairs [] = []
all_pairs (c ∷ cs) = c ++ all_pairs cs

abbrev is_listed : List String → Bool
is_listed [] = false
is_listed (_ ∷ _) = true

-- A step of the counts: the pairs that have passed in all records so far.
abbrev pub still_passing : Option (List String) → List String → List String
still_passing none passing = passing
still_passing (some still) passing = keep (λ p. is_in p passing) still

-- `for pair in still_confirmed: counts[pair] = counts.get(pair, 0) + 1`
unfoldable pub bump : List String → Dict ℕ → Dict ℕ
bump [] counts = counts
bump (p ∷ ps) counts = bump ps (insert p (count_of counts p + 1) counts)

unfoldable pub count_all : Option (List String) → Dict ℕ → List (List String) → Dict ℕ
unfolding bump
count_all still counts [] = counts
count_all still counts (passing ∷ later) =
    let both = still_passing still passing in count_all (some both) (bump both counts) later

module _ (fs : Floats) (policy : DynamicUniversePolicy fs) where
  open fs use {Float, lt_f, quotient}

  -- `_recent_exits`
  unfoldable pub recent_exits : String → ℕ → Books fs → Result LedgerError (List String)
  unfolding list_executions
  recent_exits portfolio_id as_of books = do
    executions ← list_executions portfolio_id 1000 books.ledger
    ok (
        map (λ e. symbol_of e.pair)
          (keep (λ e. is_sale e && is_within policy.reentry_cooldown as_of e.executed_at)
            executions))

  abbrev pub expired_after : List String → ℕ → ℕ → List PaperExecutionRecord → List String
  expired_after held as_of period executions =
      let opened = (replay (sort_by earlier executions) no_replay).opened_at in
      keep (λ pair. is_due as_of period (lookup pair opened)) held

  abbrev expired_by :
      Option ℕ → String → List String → ℕ → Books fs → Result LedgerError (List String)
  expired_by none portfolio_id held as_of books = ok []
  expired_by (some period) portfolio_id [] as_of books = ok []
  expired_by (some period) portfolio_id (p ∷ ps) as_of books = do
    executions ← list_executions portfolio_id 10_000 books.ledger
    ok (expired_after (p ∷ ps) as_of period executions)

  -- `_expired_holdings`
  unfoldable pub expired_holdings :
      String → List String → ℕ → Books fs → Result LedgerError (List String)
  unfolding replay list_executions sort_by
  expired_holdings = expired_by policy.maximum_holding_period

  abbrev losers : Decimal → Dict (List Decimal) → List String
  losers threshold [] = []
  losers threshold ((pair, returns) ∷ sells) =
      let rest = losers threshold sells in
      if leb policy.rolling_asset_minimum_sells (length returns)
        && le_d (sum_from zero_d returns) threshold
      then pair ∷ rest
      else rest

  abbrev losses_by :
      Option ℕ → Option Decimal → String → Decimal → ℕ → Books fs → Result LedgerError (List String)
  losses_by (some lookback) (some maximum_loss) portfolio_id equity as_of books = do
    executions ← list_executions portfolio_id 10_000 books.ledger
    let sells =
        add_sales (keep (λ e. is_sale e && is_within lookback as_of e.executed_at) executions) []
    ok (losers (zero_d -d equity *d maximum_loss) sells)
  losses_by _ _ portfolio_id equity as_of books = ok []

  -- `_rolling_loss_blocked`
  unfoldable pub rolling_loss_blocked :
      String → Decimal → ℕ → Books fs → Result LedgerError (List String)
  unfolding list_executions
  rolling_loss_blocked =
      losses_by policy.rolling_asset_performance_lookback
        policy.maximum_rolling_asset_realized_loss_fraction

  abbrev is_own : Decision fs → Bool
  is_own d = str_eq d.strategy_version policy.strategy_version

  abbrev cohorts : ℕ → ℕ → List (Decision fs) → List (List String)
  cohorts lookback as_of decisions = keep is_listed (
      map (λ d. unique_after [] d.selected)
        (keep (λ d. is_own d && ltb as_of (d.as_of + lookback) && ltb d.as_of as_of) decisions))

  abbrev concentrated : Float → List (List String) → List String
  concentrated maximum sets =
      if ltb (length sets) policy.selection_concentration_minimum_cohorts
      then []
      else keep (λ pair. lt_f maximum (quotient (appearances pair sets + 1) (length sets + 1)))
          (unique_after [] (all_pairs sets))

  abbrev concentration_by :
      Option ℕ → Option Float → String → ℕ → Books fs → Result LedgerError (List String)
  concentration_by (some lookback) (some maximum) portfolio_id as_of books = do
    decisions ← list_rebalance_decisions fs portfolio_id 10_000 books
    ok (concentrated maximum (cohorts lookback as_of decisions))
  concentration_by _ _ portfolio_id as_of books = ok []

  -- `_selection_concentration_blocked`
  unfoldable pub selection_concentration_blocked :
      String → ℕ → Books fs → Result LedgerError (List String)
  unfolding list_rebalance_decisions
  selection_concentration_blocked =
      concentration_by policy.selection_concentration_lookback
        policy.maximum_selection_concentration

  abbrev add_score : String → Option Float → Dict Float → Dict Float
  add_score pair none scores = scores
  add_score pair (some score) scores = insert pair score scores

  abbrev scores_of : List (StoredAssessment fs) → Dict Float → Dict Float
  scores_of [] scores = scores
  scores_of (a ∷ as') scores = scores_of as' (add_score a.pair a.score scores)

  abbrev first_scores : List (Decision fs) → Dict Float
  first_scores [] = []
  first_scores (d ∷ _) = scores_of d.assessments []

  -- `_previous_scores`
  unfoldable pub previous_scores : String → Books fs → Result LedgerError (Dict Float)
  unfolding list_rebalance_decisions
  previous_scores portfolio_id books = do
    decisions ← list_rebalance_decisions fs portfolio_id 100 books
    ok (first_scores (keep is_own decisions))

  -- The pairs of a record that pass a test.
  abbrev pub passing_pairs : (StoredAssessment fs → Bool) → Decision fs → List String
  passing_pairs test d = unique_after [] (map (λ a. a.pair) (keep test d.assessments))

  -- The test of `_prior_confirmation_counts`, and that of the entry signals.
  abbrev pub scores_high : StoredAssessment fs → Bool
  scores_high a = is_above fs a.score (effective_entry_score_hurdle fs policy)

  abbrev pub was_eligible : StoredAssessment fs → Bool
  was_eligible a = a.entry_signal_eligible

  -- The latest decisions of this version that a confirmation needs.
  abbrev pub recent_own : List (Decision fs) → List (Decision fs)
  recent_own decisions = take (policy.required_entry_confirmations - 1) (keep is_own decisions)

  -- `_prior_confirmation_counts` and `_prior_entry_eligible_confirmation_counts`, which differ in the
  -- test.
  unfoldable pub prior_counts :
      (StoredAssessment fs → Bool) → String → Books fs → Result LedgerError (Dict ℕ)
  unfolding count_all list_rebalance_decisions
  prior_counts test portfolio_id books =
      if leb policy.required_entry_confirmations 1
      then ok []
      else list_rebalance_decisions fs portfolio_id 100 books >>= λ decisions.
          ok (count_all none [] (map (passing_pairs test) (recent_own decisions)))
