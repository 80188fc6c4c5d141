-- ===== src/Ingest.antt =====
-- How tasks come into the bank: internal/ingest/ingest.go and the operations of
-- internal/store/repos.go that it calls.
pub mod Runner
pub mod Effects
pub mod Balance
