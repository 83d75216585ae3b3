-- ===== src/Lib.antt =====
-- Verification of the investment research engine: its job runtime, the rebalance cycle of its Paper
-- portfolios, the ledger under it, its research lifecycle and the derivatives context of its decisions.
-- Paths are from the repository's root.
--
-- Runtime: src/investment/runtime. `RuntimeStateService` runs one job at a time for each scope, under
-- a lease in SQLite, and reports each step as a file and an event.
--   Runtime/Domain.antt     domain.py: executions (`schedule`, `start`, `finish`), state and events
--   Runtime/Lease.antt      infrastructure.py, `SqliteJobLock.acquire` and `release`
--   Runtime/Publisher.antt  infrastructure.py, `HttpEngineEventPublisher.publish` (`deliver`)
--   Runtime/Errors.antt     service.py, `_classify_error`, and how a handler ends
--   Runtime/Config.antt     config.py: `JOB_POLICIES`, `ScheduledJobConfig.__post_init__`
--   Runtime/State.antt      service.py, `__init__`, `start`, `stop`, `heartbeat`, `_publish`,
--                           `_complete`, and the files of `JsonRuntimeStateRepository`
--   Runtime/RunJob.antt     service.py, `run_job`, in the state monad of Runtime/RunJob/Monad.antt
--   Runtime/Scheduler.antt  scheduler.py, `APSchedulerRuntime._run`
-- A job reads the clock, saves its execution, publishes, is admitted, takes its lease, looks for an
-- earlier execution of the same identity, calls the handler and settles, in the order of the code.
-- SQLite may raise in `acquire` or in `release`, as a request says. The clock and the answers of the event
-- endpoint are functions of the number of calls so far; a
-- handler is its duration and the exception that it raises. The search for an identity reads the
-- latest 10,000 files, as the code does, and a theorem about it asks for fewer files.
--
-- Ledger: src/investment/crypto/{domain,ports,risk,infrastructure}. The risk engine turns an intent
-- into an approved order, the Paper exchange fills it, and the accounts book the report.
--   Ledger/Orders.antt      domain/portfolio.py, domain/order.py, ports/exchange.py
--   Ledger/Risk.antt        risk/engine.py, and the allocations of domain/portfolio.py
--   Ledger/Exchange.antt    infrastructure/paper_exchange.py
--   Ledger/Tables.antt      the tables of infrastructure/sqlite_accounting.py
--   Ledger/Accounting.antt  infrastructure/sqlite_accounting.py, `create`, `apply_execution`, `get`,
--                           `list_executions`
-- A SQLite transaction is a function that returns the tables it leaves; a raise leaves the old ones.
-- Decimal.antt is the decimal arithmetic of Python's standard library at its default context: a
-- coefficient and an exponent, 28 digits, ties to even. The digits of a coefficient are counted on
-- fuel, which is the coefficient itself and so enough. Traps for overflow are left out: no exponent
-- of the program comes near the limit.
--
-- Research: src/investment/crypto. Experiments on strategy versions, from draft to promotion.
--   Research/Domain.antt      domain/research.py
--   Research/Policy.antt      research/candidate.py, research/validation.py
--   Research/Repository.antt  infrastructure/research_repository.py
--   Research/Service.antt     application/research_lifecycle_service.py
--   Research/Run.antt         the same, `run`, `_execute`, `_backtest` and `_validation_checks`
--   Research/Splits.antt      ml/split.py, on fuel: a fold moves on by a day at least, so that the days
--                             up to the last row are enough
-- A method is a step on the files that keeps what it wrote when it raises. Hashes, market data and
-- backtests are parameters.
--
-- Derivatives: src/investment/crypto/derivatives. What was known of the BTC perpetual market at the time
-- of a decision.
--   Derivatives/Store.antt    domain.py, and the queries `observation_known_at` and
--                             `crowding_known_at` of repository.py
--   Derivatives/Context.antt  domain.py, `BtcDerivativesDecisionOverlay` and the checks of its constructor
--   Derivatives/Overlay.antt  overlay.py
-- The tables are lists of rows; the first row of an ordered query is a fold.
--
-- Rebalance: src/investment/crypto/application/dynamic_paper_rebalance.py. A cycle reads what was known at
-- a time, selects the assets to hold, plans the orders, and executes and saves them.
--   Rebalance/Policy.antt      `DynamicUniversePolicy`; Policy/Versions.antt, the published versions
--   Rebalance/Universe.antt    domain/universe.py, the history of snapshots
--   Rebalance/Assess.antt      `_assess`, from candles to candidates; Rebalance/Scoring.antt, their scores
--   Rebalance/Guards.antt      the guards on one candidate
--   Rebalance/Gates.antt       the gates of the derivatives overlay on new entries
--   Rebalance/Selection.antt   `_select_detailed`; Selection/Evidence.antt, the reasons beside it
--   Rebalance/Variants.antt    `_entry_signal_eligibility`, `_selection_variants`
--   Rebalance/Decisions.antt   the stored decisions, of infrastructure/sqlite_accounting.py
--   Rebalance/History.antt     exits, expired holdings, losses, concentration, confirmations
--   Rebalance/Budget.antt      `_daily_risk_violations`, `_turnover_budget`
--   Rebalance/Plan.antt        `_plan`
--   Rebalance/Execution.antt   `_execute`, over the risk engine, the exchange and the ledger
--   Rebalance/Reasons.antt     `_decision_reasons`
--   Rebalance/Service.antt     `run` down to the plans; Rebalance/Run.antt, `run` and what it writes
-- Floats and the functions of numpy are a parameter (Rebalance/Floats.antt); so are the market data, the
-- overlay provider, the clock and the hashes that make identities. A set is a list of its members, whose
-- order nothing depends on. NaN is left out, and so is the text that writes the turnover limit out.
--
-- Market: src/investment/crypto. Market data that was known at a time, and the pairs that may be traded.
--   Market.antt            domain/market.py, candles and bundles
--   Market/Liquidity.antt  universe/liquidity.py, over the history of Rebalance/Universe.antt
-- A universe is the list of its pairs, and the exclusions are constructors in place of their texts.
--
-- Base holds the shared helpers: results, tables, texts as code points, orders. A time is a number of
-- microseconds since the epoch, in UTC.
--
-- Not modelled: backtests, models of machine learning and the Bitcoin features, which work on data frames
-- or floats; the strategy registry and the observation of experiments, which are left out for their size;
-- network, files and JSON, which only carry
-- values; threads, beyond the order of the steps under the service's lock.
pub mod Base
pub mod Decimal
pub mod Derivatives
pub mod Ledger
pub mod Market
pub mod Rebalance
pub mod Research
pub mod Runtime
