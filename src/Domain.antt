-- ===== src/Domain.antt =====
-- The domain package: internal/domain.
pub mod Answer
pub mod Source
pub mod Calendar
pub mod Ageing
pub mod Hosts
pub mod Learning
pub mod Training
pub mod Entities
