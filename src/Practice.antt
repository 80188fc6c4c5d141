-- ===== src/Practice.antt =====
-- internal/api/practice.go: the assembly of a training session.
pub mod Session
pub mod Planning
pub mod Pools
