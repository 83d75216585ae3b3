-- ===== src/Rebalance/Tests.antt =====
-- Runs of the rebalance cycle on a small market, and its theorems at inputs that meet their hypotheses.
use investment_research_engi.Base.{
  keep, ℕ, zero, suc, ◌+◌, ◌/◌, ◌^◌, ◌≤◌, ◌≡◌, refl, String, Bool, true, false, Option, none, some,
  List, [], ◌∷◌, str_eq, length, All, arith, any, ◌||◌, if◌then◌else◌,
}
use investment_research_engi.Base.Int.{ℤ, pos, pos_part, ◌+ℤ◌, ◌-ℤ◌}
use investment_research_engi.Base.Dict.{Dict, lookup, insert, erase}
use investment_research_engi.Base.Order.{str_lt}
use investment_research_engi.Base.Chars.{strip, strip_left}
use investment_research_engi.Base.Result.{ok, err, returned}
use investment_research_engi.Base.Sorting.{place, sort_by}
use investment_research_engi.Decimal.{
  Decimal, integer, ◌+d◌, ◌-d◌, ◌*d◌, ◌/d◌, lt_d, abs_d, align, fix, excess, digit_count,
  round_half_even, zero_d,
}
use investment_research_engi.Derivatives.Overlay.{unique_after}
use investment_research_engi.Ledger.Orders.{
  PortfolioPurpose, OrderSide, OrderIntent, TradingPair, validate_intent, make_order,
  validate_report,
}
use investment_research_engi.Ledger.Tables.{
  Database, PortfolioRow, PaperExecutionRecord, find_position, put_position,
}
use investment_research_engi.Ledger.Accounting.{
  get, list_executions, sort_by_asset, sort_latest_executions, place_by_asset, place_latest,
  apply_execution, book_execution, buy_fill, sell_fill, upsert_position,
}
use investment_research_engi.Ledger.Risk.{approve_order, validate_policy}
use investment_research_engi.Ledger.Exchange.{make_gateway, submit}
use investment_research_engi.Rebalance.Floats.{Floats}
use investment_research_engi.Rebalance.Policy.{
  DynamicUniversePolicy, default_policy, round_trip_cost_hurdle, effective_entry_score_hurdle,
  point,
}
use investment_research_engi.Rebalance.Candidates.{
  CandidateAssessment, more_liquid, better, weaker, scored, ranks_from, is_in,
}
use investment_research_engi.Rebalance.Guards.{
  entry_guard_reason, hold_guard_reason, entry_volatility_cap, fee_adjusted_entry_return_passes,
  expected_hold_return_passes, fee_adjusted_replacement_passes,
}
use investment_research_engi.Rebalance.Gates.{
  RebalanceError, derivatives_overlay, derivatives_entry_block_reason,
  raw_derivatives_entry_block_reason, crowding_entry_block_reason, derivatives_cost_penalty,
}
use investment_research_engi.Rebalance.Selection.{
  Situation, extract, is_retained, is_entrant, compete, compete_all, weigh, select_among, weight_of,
}
use investment_research_engi.Rebalance.Selection.Evidence.{
  Selection, first_evidence, reasons_of, select_detailed,
}
use investment_research_engi.Rebalance.Universe.{UniverseMember, UniverseSnapshot, known_at}
use investment_research_engi.Rebalance.Assess.{
  MarketCandle, Fetch, assess_known, assess_fresh, assess_member, assess_all, assess,
}
use investment_research_engi.Rebalance.Scoring.{
  traverse, runs_of, percentile_ranks, expected_relative_returns, with_score_evidence,
  score_assessments,
}
use investment_research_engi.Rebalance.Decisions.{
  Decision, Books, save_rebalance_decision, list_rebalance_decisions,
}
use investment_research_engi.Rebalance.History.{
  replay_buy, replay_sell, replay, bump, count_all, recent_exits, expired_holdings,
  rolling_loss_blocked, selection_concentration_blocked, previous_scores, prior_counts,
}
use investment_research_engi.Rebalance.Budget.{daily_risk_violations, is_bullish, turnover_budget}
use investment_research_engi.Rebalance.Plan.{order_row, rows_of, plan}
use investment_research_engi.Rebalance.Variants.{
  entry_signal_eligibility, variant, selection_variants,
}
use investment_research_engi.Rebalance.Reasons.{decision_reasons}
use investment_research_engi.Rebalance.Execution.{execute_one, execute_all, execute}
use investment_research_engi.Rebalance.Service.{Ports, Decided, observe, recall, judge, decide}
use investment_research_engi.Rebalance.Run.{Command, Outcome, run}
use investment_research_engi.Rebalance.Candidates.{SelectionVariantResult}
use investment_research_engi.Rebalance.Assess.{ineligible}
use investment_research_engi.Rebalance.Selection.Outcome.{items_of, select_detailed-bounded}
use investment_research_engi.Rebalance.Selection.Rights.{
  may_stay, has_passing, is_rightful, is_admissible, select_detailed-rightful,
  select_detailed-admissible,
}
use investment_research_engi.Rebalance.Selection.Gated.{
  select_detailed-keeps, select_detailed-returns,
}
use investment_research_engi.Rebalance.Plan.{Planning}
use investment_research_engi.Rebalance.Plan.Rows.{IsSound}
use investment_research_engi.Rebalance.Plan.Ordering.{is_sales_first}
use investment_research_engi.Rebalance.Service.{held_pairs_of, planning_of}
use investment_research_engi.Rebalance.Run.Safety.{
  run-production, run-fails_closed, run-orders, run-core_untouched,
}
use investment_research_engi.Rebalance.Candidates.{count_of}
use investment_research_engi.Rebalance.Decisions.Storing.{is_saved, list-save}
use investment_research_engi.Rebalance.History.{scores_high}
use investment_research_engi.Rebalance.History.Confirmations.{
  streak, records_of, prior_counts-streak,
}
use investment_research_engi.Rebalance.History.Holdings.{is_old_purchase, expired_holdings-bought}
use investment_research_engi.Rebalance.Budget.{today}
use investment_research_engi.Rebalance.Execution.Safety.{execute-once, execute-poor}

-- Names what a run computes with.
abbrev runs : Bool
unfolding lookup insert erase str_lt str_eq strip strip_left place sort_by ◌+ℤ◌ ◌-ℤ◌ ◌+d◌ ◌-d◌ ◌*d◌
    ◌/d◌ lt_d abs_d align fix excess digit_count round_half_even unique_after validate_intent
    make_order validate_report find_position put_position get list_executions sort_by_asset
    sort_latest_executions place_by_asset place_latest apply_execution book_execution buy_fill
    sell_fill upsert_position approve_order validate_policy make_gateway submit
    round_trip_cost_hurdle effective_entry_score_hurdle more_liquid better weaker scored ranks_from
    entry_guard_reason hold_guard_reason entry_volatility_cap fee_adjusted_entry_return_passes
    expected_hold_return_passes fee_adjusted_replacement_passes derivatives_overlay
    derivatives_entry_block_reason raw_derivatives_entry_block_reason crowding_entry_block_reason
    derivatives_cost_penalty extract is_retained is_entrant compete compete_all weigh select_among
    first_evidence reasons_of select_detailed known_at assess_known assess_fresh assess_member
    assess_all assess traverse runs_of percentile_ranks expected_relative_returns
    with_score_evidence score_assessments save_rebalance_decision list_rebalance_decisions
    replay_buy replay_sell replay bump count_all recent_exits expired_holdings rolling_loss_blocked
    selection_concentration_blocked previous_scores prior_counts daily_risk_violations is_bullish
    turnover_budget order_row rows_of plan entry_signal_eligibility variant selection_variants
    decision_reasons execute_one execute_all execute observe recall judge decide run
runs = true

abbrev truncated : Decimal → ℤ
truncated d = pos (pos_part d.coefficient / 10 ^ 3)

-- Decimals in the place of floats.
abbrev decimal_floats : Floats
decimal_floats = record {
  Float = Decimal;
  lt_f = lt_d;
  add_f = λ a b. a +d b;
  sub_f = λ a b. a -d b;
  mul_f = λ a b. a *d b;
  div_f = λ a b. or_zero (a /d b);
  of_decimal = λ d. d;
  quotient = λ a b. or_zero (integer a /d integer b);
  truncate = truncated;
  log_return_deviation = λ closes. zero_d;
}
  where
    or_zero : Option Decimal → Decimal
    or_zero none = zero_d
    or_zero (some d) = d

abbrev rules : DynamicUniversePolicy decimal_floats
rules = record (default_policy decimal_floats) {
  minimum_history_bars = 97;
  derivatives_overlay_mode = "ENTRY_GATE";
}

abbrev candle : ℕ → ℕ → MarketCandle
candle time price = record { available_at = time; close = integer price; volume = integer 1 }

abbrev flat : ℕ → ℕ → List MarketCandle
flat zero price = candle 2_000 price ∷ []
flat (suc n) price = candle 1_000 price ∷ flat n price

abbrev btc : TradingPair
btc = record { base = "BTC"; quote = "KRW" }

abbrev eth : TradingPair
eth = record { base = "ETH"; quote = "KRW" }

abbrev price_of : TradingPair → ℕ
price_of pair = if str_eq pair.base "BTC" then 5_000_000 else 300_000

abbrev fetch : Fetch
fetch pair start end = some (flat 99 (price_of pair))

abbrev member : TradingPair → Bool → UniverseMember
member pair warning = record { pair = pair; warning = warning; observed_at = 500 }

abbrev snapshot : UniverseSnapshot
snapshot = record { observed_at = 500; members = member btc false ∷ member eth false ∷ [] }

abbrev ports : Ports decimal_floats
ports = record {
  history = snapshot ∷ [];
  fetch = fetch;
  provider = none;
  factory = record {
    fee_rate = point 5 4;
    slippage_rate = zero_d;
    execution_model_version = "paper-fill-v1";
  };
  identity = λ portfolio_id as_of symbol side. symbol;
  decision_identity = λ portfolio_id as_of version. "d1";
  now = λ n. 4_000 + n;
}

abbrev paper_row : PortfolioRow
paper_row = record {
  purpose = PortfolioPurpose.paper_trading;
  cash_asset = "KRW";
  cash_balance = integer 100_000;
  created_at = 1;
  updated_at = 1;
}

abbrev core_row : PortfolioRow
core_row = record paper_row { purpose = PortfolioPurpose.core_investment }

abbrev ledger : Database
ledger = record {
  portfolios = ("p1", paper_row) ∷ ("core", core_row) ∷ [];
  positions =
      record {
        portfolio_id = "p1";
        asset = "BTC";
        quantity = point 1 2;
        average_cost = integer 4_000_000;
      }
      ∷ [];
  executions = [];
}

abbrev books : Books decimal_floats
books = record { ledger = ledger; decisions = [] }

abbrev command : Command
command = record {
  portfolio_id = "p1";
  as_of = 3_000;
  execute = true;
  persist_decision = true;
  execution_deadline = none;
}

-- The gate is shut, so that BTC is held on to, and topped up to its weight.
abbrev tops_up :
    (out : Outcome decimal_floats rules ports) × ((run decimal_floats rules ports command books).0
      ≡ ok out)
unfolding runs
tops_up = returned (run decimal_floats rules ports command books).0 refl

abbrev topped : Decided decimal_floats rules ports
topped = tops_up.0.decided

run-fails_closed_example :
    All (λ a. is_in a.pair (held_pairs_of topped.facts.portfolio) ≡ true) topped.selection.selected
unfolding runs
run-fails_closed_example =
    run-fails_closed decimal_floats rules ports command books tops_up.0 tops_up.1 refl refl

abbrev topped_planning : Planning
topped_planning =
    planning_of decimal_floats rules ports 3_000 topped.facts topped.situation
      topped.selection.selected topped.violations

run-orders_example :
    All (IsSound decimal_floats rules ports.identity topped_planning) topped.rows
    × (is_sales_first topped.rows ≡ true)
run-orders_example = run-orders decimal_floats rules ports command books tops_up.0 tops_up.1

run_buys : length topped.rows ≡ 1
unfolding runs
run_buys = refl

run-core_untouched_example :
    (lookup "core" (run decimal_floats rules ports command books).1.ledger.portfolios
      ≡ some core_row)
    × (find_position "core" "BTC" (run decimal_floats rules ports command books).1.ledger.positions
        ≡ find_position "core" "BTC" ledger.positions)
unfolding runs
run-core_untouched_example =
    run-core_untouched decimal_floats rules ports command books "core" "BTC" core_row refl refl

abbrev dry_command : Command
dry_command = record command { execute = false }

-- Two candidates: BTC is held, and ETH may enter.
abbrev candidate : String → Decimal → CandidateAssessment decimal_floats
candidate pair score = record (ineligible decimal_floats pair "ELIGIBLE") {
  eligible = true;
  score = some score;
  average_quote_volume = some (integer 10);
}

abbrev candidates : List (CandidateAssessment decimal_floats)
candidates = candidate "BTCKRW" (point 1 1) ∷ candidate "ETHKRW" (point 2 1) ∷ []

abbrev quick_rules : DynamicUniversePolicy decimal_floats
quick_rules = record rules { required_entry_confirmations = 1; maximum_positions = 1 }

abbrev situation : Situation decimal_floats
situation = record {
  held_pairs = "BTCKRW" ∷ [];
  previous_scores = [];
  recent_exits = [];
  expired = [];
  confirmation_counts = some [];
  concentration_blocked = [];
  rolling_loss_blocked = [];
  entry_block_reason = none;
}

abbrev replaces :
    (out : Selection decimal_floats) × (select_detailed decimal_floats quick_rules situation
        candidates
      ≡ ok out)
unfolding runs
replaces = returned (select_detailed decimal_floats quick_rules situation candidates) refl

-- ETH beats BTC by more than the advantage that a replacement takes.
replaces_btc : any (λ a. str_eq a.pair "ETHKRW") replaces.0.selected ≡ true
unfolding runs
replaces_btc = refl

abbrev quick_items : List (CandidateAssessment decimal_floats)
quick_items = items_of decimal_floats quick_rules situation candidates

select_detailed-rightful_example :
    All
      (λ a.
        has_passing
          (λ x. x.pair)
          (is_rightful decimal_floats quick_rules situation quick_items)
          a.pair
          quick_items
        ≡ true)
      replaces.0.selected
select_detailed-rightful_example =
    select_detailed-rightful decimal_floats quick_rules situation candidates replaces.0 replaces.1

select_detailed-admissible_example :
    All (λ a. is_admissible decimal_floats quick_rules situation a.pair ≡ true) replaces.0.selected
select_detailed-admissible_example =
    select_detailed-admissible decimal_floats quick_rules situation candidates replaces.0 replaces.1

select_detailed-bounded_example :
    (length replaces.0.selected ≤ 1)
    × All
        (λ a.
          weight_of decimal_floats quick_rules situation (length replaces.0.selected)
          ≡ some a.target_weight)
        replaces.0.selected
select_detailed-bounded_example =
    select_detailed-bounded decimal_floats quick_rules situation candidates replaces.0 replaces.1

select_detailed-returns_example :
    (out : Selection decimal_floats) × (select_detailed decimal_floats quick_rules situation
        candidates
      ≡ ok out)
select_detailed-returns_example =
    select_detailed-returns decimal_floats quick_rules situation candidates (omega arith)

abbrev blocked : Situation decimal_floats
blocked = record situation { entry_block_reason = some "SHUT" }

abbrev keeps :
    (out : Selection decimal_floats) × (select_detailed decimal_floats quick_rules blocked
        candidates
      ≡ ok out)
unfolding runs
keeps = returned (select_detailed decimal_floats quick_rules blocked candidates) refl

abbrev blocked_items : List (CandidateAssessment decimal_floats)
blocked_items = items_of decimal_floats quick_rules blocked candidates

-- BTC is the one that stays.
one_stays :
    length (keep (may_stay decimal_floats quick_rules blocked blocked_items) blocked_items) ≡ 1
unfolding runs
one_stays = refl

select_detailed-keeps_example :
    All
      (λ x. any (λ a. str_eq a.pair x.pair) keeps.0.selected ≡ true)
      (keep (may_stay decimal_floats quick_rules blocked blocked_items) blocked_items)
unfolding runs
select_detailed-keeps_example =
    select_detailed-keeps decimal_floats quick_rules blocked candidates keeps.0 keeps.1 refl
      (omega arith)

-- The production variant of version 2.7.
abbrev accuracy_rules : DynamicUniversePolicy decimal_floats
accuracy_rules = record quick_rules { strategy_version = "dynamic-intraday-v2.7-accuracy-v1" }

abbrev compares :
    (out : Outcome decimal_floats accuracy_rules ports) × ((run decimal_floats accuracy_rules ports
        command books).0
      ≡ ok out)
unfolding runs
compares = returned (run decimal_floats accuracy_rules ports command books).0 refl

run-production_example :
    (a b c : SelectionVariantResult decimal_floats) × (compares.0.decided.variants
      ≡ a
        ∷ b
        ∷ c
        ∷ record {
          variant_id = "v2.7d-production-gates";
          selected = compares.0.decided.selection.selected;
        }
        ∷ [])
unfolding runs
run-production_example =
    run-production decimal_floats accuracy_rules ports command books compares.0 compares.1 refl

abbrev decision : String → ℕ → Decision decimal_floats
decision id time = record {
  decision_id = id;
  portfolio_id = "p1";
  strategy_version = "dynamic-intraday-v2.1";
  as_of = time;
  universe_observed_at = 500;
  execute = false;
  equity = integer 150_000;
  assessments =
      record { pair = "ETHKRW"; score = some (point 2 1); entry_signal_eligible = true } ∷ [];
  selected = "BTCKRW" ∷ [];
  risk_violations = [];
  decision_reasons = "NO_ACTION_REQUIRED" ∷ [];
}

abbrev decided_books : Books decimal_floats
decided_books = record books { decisions = decision "d0" 2_000 ∷ [] }

abbrev listed :
    (out : List (Decision decimal_floats)) × (list_rebalance_decisions decimal_floats "p1" 100
        decided_books
      ≡ ok out)
unfolding runs
listed = returned (list_rebalance_decisions decimal_floats "p1" 100 decided_books) refl

abbrev counted :
    (counts : Dict ℕ) × (prior_counts decimal_floats rules
        (scores_high decimal_floats rules)
        "p1"
        decided_books
      ≡ ok counts)
unfolding runs
counted =
    returned
      (prior_counts decimal_floats rules (scores_high decimal_floats rules) "p1" decided_books) refl

prior_counts-streak_example :
    (count_of counted.0 "ETHKRW"
      ≡ streak "ETHKRW"
          (records_of decimal_floats rules (scores_high decimal_floats rules) listed.0))
    × (count_of counted.0 "ETHKRW" ≤ 1)
prior_counts-streak_example =
    prior_counts-streak decimal_floats rules (scores_high decimal_floats rules) "p1" decided_books
      listed.0 counted.0 "ETHKRW" listed.1 counted.1

eth_counted : count_of counted.0 "ETHKRW" ≡ 1
unfolding runs
eth_counted = refl

abbrev relisted :
    (out : List (Decision decimal_floats)) × (list_rebalance_decisions decimal_floats "p1" 100
        (save_rebalance_decision decimal_floats (decision "d1" 3_000) decided_books)
      ≡ ok out)
unfolding runs
relisted =
    returned
      (list_rebalance_decisions decimal_floats "p1" 100
        (save_rebalance_decision decimal_floats (decision "d1" 3_000) decided_books))
      refl

list-save_example : any (λ d. str_eq d.decision_id "d1") relisted.0 ≡ (
    if is_saved decimal_floats "d1" decided_books.decisions
    then any (λ d. str_eq d.decision_id "d1") listed.0
    else str_eq "d1" "d1" || any (λ d. str_eq d.decision_id "d1") listed.0)
unfolding runs
list-save_example =
    list-save decimal_floats (decision "d1" 3_000) 100 decided_books listed.0 relisted.0
      (λ d. str_eq d.decision_id "d1") listed.1 relisted.1 (omega arith)

abbrev purchase : PaperExecutionRecord
purchase = record {
  order_id = "o1";
  intent_id = "i1";
  portfolio_id = "p1";
  pair = btc;
  side = OrderSide.buy;
  quantity = point 1 2;
  price = integer 4_000_000;
  fee = integer 20;
  realized_pnl = zero_d;
  executed_at = 1_000;
  execution_model_version = "paper-fill-v1";
  fee_rate = point 5 4;
  slippage_rate = zero_d;
}

abbrev traded_books : Books decimal_floats
traded_books = record books { ledger = record ledger { executions = purchase ∷ [] } }

abbrev short_rules : DynamicUniversePolicy decimal_floats
short_rules = record rules { maximum_holding_period = some 1_500 }

abbrev traded :
    (out : List PaperExecutionRecord) × (list_executions "p1" 10_000 traded_books.ledger ≡ ok out)
unfolding runs
traded = returned (list_executions "p1" 10_000 traded_books.ledger) refl

abbrev gone :
    (out : List String) × (expired_holdings decimal_floats short_rules "p1"
        ("BTCKRW" ∷ [])
        3_000
        traded_books
      ≡ ok out)
unfolding runs
gone =
    returned (expired_holdings decimal_floats short_rules "p1" ("BTCKRW" ∷ []) 3_000 traded_books)
      refl

expired_holdings-bought_example :
    All (λ pair. any (is_old_purchase pair 1_500 3_000) traded.0 ≡ true) gone.0
expired_holdings-bought_example =
    expired_holdings-bought decimal_floats short_rules "p1" ("BTCKRW" ∷ []) 3_000 1_500 traded_books
      traded.0 gone.0 refl traded.1 gone.1

btc_expires : gone.0 ≡ "BTCKRW" ∷ []
unfolding runs
btc_expires = refl

abbrev latest :
    (out : List PaperExecutionRecord) × (list_executions "p1" 1000 traded_books.ledger ≡ ok out)
unfolding runs
latest = returned (list_executions "p1" 1000 traded_books.ledger) refl

abbrev violations :
    (out : List String) × (daily_risk_violations decimal_floats rules "p1"
        (integer 150_000)
        3_000
        none
        traded_books
      ≡ ok out)
unfolding runs
violations =
    returned
      (daily_risk_violations decimal_floats rules "p1" (integer 150_000) 3_000 none traded_books)
      refl

abbrev of_today : List PaperExecutionRecord
of_today = today decimal_floats rules 3_000 latest.0

abbrev intent : OrderIntent
intent = record {
  portfolio_id = "p1";
  purpose = PortfolioPurpose.paper_trading;
  pair = btc;
  side = OrderSide.buy;
  quantity = point 1 2;
  created_at = 900;
  intent_id = "i1";
}

abbrev prices : Dict Decimal
prices = ("BTCKRW", integer 5_000_000) ∷ []

execute-once_example :
    (execute decimal_floats rules
      (λ n. n)
      ports.factory
      (intent ∷ [])
      prices
      (integer 150_000)
      traded_books.ledger).1
    ≡ traded_books.ledger
unfolding runs
execute-once_example =
    execute-once decimal_floats rules (λ n. n) ports.factory (intent ∷ []) prices (integer 150_000)
      traded_books.ledger (refl, tt)

execute-poor_example :
    (e : RebalanceError) × (execute decimal_floats rules
        (λ n. n)
        ports.factory
        []
        prices
        (integer 4_000)
        ledger
      ≡ (err e, ledger))
unfolding runs
execute-poor_example =
    execute-poor decimal_floats rules (λ n. n) ports.factory [] prices (integer 4_000) ledger refl
