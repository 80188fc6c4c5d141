-- ===== src/Checker.antt =====
-- The answer checker: internal/checker.
pub mod Normalize
pub mod Compare
pub mod Spacing
pub mod Numbers
pub mod Tokens
pub mod Sets
pub mod Folding
pub mod Strings
pub mod Acceptance
