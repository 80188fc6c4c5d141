-- ===== src/Bank.antt =====
-- The queue of the bank's updates from its sources: internal/store/repo_bank_sync.go with
-- internal/store/queries/bank_sync.sql, and the parts of internal/api/bank_sync.go that decide.
pub mod Queue
pub mod Refill
pub mod Limits
pub mod Reached
pub mod Stock
