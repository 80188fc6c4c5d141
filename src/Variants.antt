-- ===== src/Variants.antt =====
-- The tests that are put together from the bank: internal/store/repo_tests.go.
pub mod Assemble
pub mod Composed
pub mod Clones
