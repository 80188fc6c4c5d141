-- ===== src/Attempts.antt =====
-- Attempts at tests: internal/store/repo_solutions.go and its queries.
pub mod Tables
pub mod Submit
pub mod Finish
pub mod Photos
pub mod Review
pub mod Frozen
pub mod Elsewhere
pub mod History
pub mod Submitted
pub mod Points
pub mod Reviewing
pub mod Reviewed
pub mod Filling
