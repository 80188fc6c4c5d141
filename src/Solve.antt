-- ===== src/Solve.antt =====
-- The requests of a student who solves a test: internal/api/solve.go.
pub mod Handlers
pub mod Access
