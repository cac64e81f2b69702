-- ===== src/Storage.antt =====
-- The SQLite store (app/storage/db.py, class TradingDB).
pub mod Rows
pub mod Tx
pub mod Orders
pub mod Trades
pub mod Execution
pub mod Sound
pub mod Rules
pub mod Keeps
pub mod History
pub mod Ledger
pub mod Once
pub mod Position
pub mod Replay
pub mod Pending
pub mod Listed
pub mod States
