-- ===== src/Stock.antt =====
-- Stock: postings and the balances that the database keeps from the ledger (backend/src/modules/
-- inventory/infrastructure/stock-posting.helper.ts, database/functions/002_stock_functions.sql).
pub mod Dims
pub mod Trigger
pub mod Posting
pub mod Balances
pub mod Movement
pub mod Guard
pub mod Frame
pub mod Consistent
pub mod Holds
pub mod Verdict
pub mod Cost
pub mod Flow
pub mod Refusal
