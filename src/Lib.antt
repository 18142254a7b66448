-- ===== src/Lib.antt =====
-- Quantamental Engine: a risk engine for a trader of crypto futures. It takes in the orders, positions
-- and balances that an exchange or a trading terminal reports, keeps them in a database and in memory,
-- and decides whether a new entry is allowed. This library models the parts that decide.
--
-- The parts, and how they meet:
--   * Orders (core/order_state.py, core/db_orders.py, core/order_manager.py). Status is the lifecycle,
--     Row the rows of the orders table and the dictionaries of the adapters, Store the statements on
--     the table, Manager the handlers of snapshots, Manager/Update that of a single update.
--   * Drawdown (core/dd_state.py): the rolling drawdown, and the machine ok, warning, limit.
--   * Gate (core/dd_gate.py, ReadyStateEvaluator of core/monitoring.py, check_dd_gate_for_order of
--     core/order_manager.py): what a new entry has to pass. It reads the state that Drawdown gives.
--   * State (core/state.py): the account, the portfolio, validate_params, restore_from_snapshot and
--     perform_bod_reset. Position is `PositionInfo`; App is what the cache writes of `AppState`.
--   * Portfolio (DataCache._do_recalculate_portfolio of core/data_cache.py): the figures, and the
--     machine of Drawdown run on what is kept of the active account.
--   * Cache (core/data_cache.py): conflict resolution by source, snapshots of positions, incremental
--     updates, the account, and mark prices. Each handler ends in a recalculation by Portfolio.
--   * RateLimit (core/rate_limit/weight_tracker.py): the budget of request weights.
--   * Correlation (correlate_order_to_calc of core/calc_correlation.py): the calculation that an entry
--     order came from. It reads rows of the orders table of Orders.
--   * Enrichment (core/order_enrichment.py): what is filled in on a stored order, from its children at
--     the position and by Correlation, and on a stored fill. ExecLink (core/exec_link.py): whether a
--     fill is linked to its calculation.
--   * Fills (core/position_snapshot.py, _snapshot_and_fix_isclose of core/order_manager.py): what a fill
--     does to the position it meets. Gaps (core/equity_gap_detector.py): the silences of the snapshots.
--   * Adapters (core/adapters): the orders that the streams of Binance and Bybit report (Maps, Messages)
--     and that Binance answers (Rest), in the engine's types and statuses. Stream (core/ws_manager.py):
--     the handlers of such messages, which write the stops and targets of positions and pass the order
--     on to Orders and Enrichment, and then to the cache of Orders, which writes the positions again.
--   * Risk (core/risk_engine.py, the sectors of config.py): Volatility is the ATR coefficient, Book the
--     walk of the order book, Size the chain of steps to a size behind the gates of Gate, Calculator
--     the whole output. Contract (core/contract_validation.py) snaps the size to what the exchange takes.
--   * Monitoring (MonitoringService of core/monitoring.py): the buffer of alerts and the checks.
--   * Regime (core/regime_classifier.py): the label of the market, and the search for the value of a
--     date. It stands by itself.
-- Base holds shared names and lemmas. In each part, the definitions carry the names of the code's
-- functions, and the modules below them are named for what they prove; Tests runs the definitions.
--
-- How the code is read:
--   * A float is an element of a type with the interface `Float`; a theorem that needs laws of the
--     order or of rounded arithmetic takes them as the hypotheses `IsOrdered`, `IsArithmetic`,
--     `IsRounding` or `IsMonotone`, which hold of doubles away from NaN and overflow. Float/Fixed gives
--     fixed-point numbers that meet them, on which the tests run. A sum is the plain left fold. A
--     `Decimal` is an element of a second such type, with the conversions (`Decimals`) as arguments and
--     `IsDecimal` for its exact multiples; so is numpy's mean an argument.
--   * An async handler that holds its lock is one step from state to state. It takes each reading of
--     the clock as an argument, a timestamp being a number of milliseconds, or of microseconds in
--     Drawdown. Where one handler reads the clock for each of several rows, one reading stands for all.
--   * A table is a list of rows, and a statement is taken not to raise; what other tables answer is an
--     argument (`Tables`, `Reading`), `none` where reading them raises.
--   * A dictionary key that may be missing is an `Option`; a set is a list of its members.
--   * Every loop is structural recursion on a list, but for the binary search of Regime, which takes
--     the length of the series as its fuel: each round drops at least one entry of the range.
--
-- Not modelled: logs and what is published to subscribers, apart from the closing events of positions
-- and the events of the gates; the bulk runs of the regime classifier, the trade event log and the
-- event bus; the rest of the adapters and of the streams, routes, schedulers, migrations and the
-- terminal's plugin, which are I/O and glue.
pub mod Adapters
pub mod App
pub mod Base
pub mod Cache
pub mod Contract
pub mod Correlation
pub mod Drawdown
pub mod Enrichment
pub mod ExecLink
pub mod Fills
pub mod Float
pub mod Gaps
pub mod Gate
pub mod Monitoring
pub mod Orders
pub mod Portfolio
pub mod Position
pub mod RateLimit
pub mod Regime
pub mod Risk
pub mod State
pub mod Stream
