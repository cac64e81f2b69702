-- ===== src/Lib.antt =====
-- A verification library for the trading bot for Binance Spot under app/.
--
-- The bot evaluates closed candles (app/strategy), sizes an entry (app/risk), sends orders through a
-- broker (app/execution, app/exchange) and keeps its orders and positions in SQLite (app/storage). It
-- adapts its thresholds from closed trades (app/agents/learning.py), takes control requests from
-- localhost (app/security.py), notifies (app/notifications.py), and allows one process per database
-- (app/runtime_lock.py).
--
-- Files:
-- - Base: shared names, lists, and Float, the operations of Python's floats and decimals with the
--   laws of IEEE comparison and rounding that a theorem asks for; Fixed is a concrete number type.
-- - Config, Models: app/config.py (class Settings) and app/models.py.
-- - Storage: app/storage/db.py. Rows has the tables, Tx the transactions (`connection`: commit, or
--   roll back on an exception), Orders the order ledger, Trades the opening and protection of a
--   position, Execution its closing. A text statement such as SELECT ... ORDER BY id DESC LIMIT 1 is
--   a search in a list that has the newest row first. The other files have the proofs: Sound the
--   invariant, Rules and Keeps what each operation keeps, History any sequence of calls, and Ledger,
--   Once, Position and Replay the properties.
-- - Risk: app/risk/manager.py. Strategy: app/strategy/ensemble.py. Learning: app/agents/learning.py.
--   Security: app/security.py. Notifier: app/notifications.py. Lock: app/runtime_lock.py.
-- - Market: the price fields, the market snapshot and the entry quality check of
--   app/agents/orchestrator.py. Portfolio: the shared limits and execute_entry of
--   app/agents/multi_orchestrator.py. Exchange: the checks before an order of
--   app/exchange/binance.py, whose answers are arguments.
-- - Performance: the statistics of closed trades in app/storage/db.py.
-- - Act: asynchronous code over the tables and the exchange. An action returns or raises; what it
--   wrote stays written. The exchange is any function of the requests so far, so it may answer
--   anything, fail, and change its mind. Each request is kept with the tables as they were when it was
--   sent. Rules has what an action guarantees when it returns and when it raises, Steady and Anything
--   the actions that keep an invariant of tables and requests.
-- - Broker: app/execution/broker.py, and market_order and get_order of app/exchange/binance.py. Broker
--   itself is _submit_market_order, Paper the paper balances, Enter enter, Exit maybe_exit, Recovery
--   reconcile_unresolved_orders. Recorded, Entry, Leaving, Recovering and Preparing say what each
--   keeps, Promise composes them, and Submit, Complete, Blocked, Cash and Balances
--   have further properties.
-- - Protection: app/execution/protection.py. Protection itself has the validators, Fill
--   _protective_fill, Placement _place_exchange_protection and _rearm_terminal_protection, Cancel
--   _cancel_exchange_protection and reconcile_open_position_protection, Inspect
--   inspect_exchange_protection. Quiet, Listing, Startup, Shown, Tries, Inspected, Passed,
--   Identity and Children have the proofs.
-- - Tests: the operations on concrete inputs.
--
-- The functions have the names of the source's. What is not the repository's code is a parameter:
-- number operations, decimal conversions, rounding to decimals, urlsplit and the methods of texts, the
-- indicators that pandas computes, the answers of the network, clocks and fresh ids. No fuel is used:
-- every loop of the modelled code is a recursion on a list. Placing and replacing protection call each
-- other; the second placement is passed the code that gives up, so that there is no third.
--
-- Not modelled: the orchestrators' cycles and the requests of the exchange client, which are mostly
-- asynchronous calls of the exchange; rounding to step sizes and the valuation of commissions, which
-- are answers here; the web application and its pages; logging; metrics; the command-line reports.
pub mod Base
pub mod Config
pub mod Models
pub mod Storage
pub mod Risk
pub mod Learning
pub mod Security
pub mod Notifier
pub mod Lock
pub mod Strategy
pub mod Market
pub mod Portfolio
pub mod Exchange
pub mod Performance
pub mod Act
pub mod Broker
pub mod Protection
pub mod Tests
