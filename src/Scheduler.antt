-- ===== src/Scheduler.antt =====
-- The worker that tells students of their assignments: internal/scheduler.
pub mod Notifier
pub mod Handlers
pub mod Degrading
pub mod Delivery
pub mod Sweeping
pub mod Working
pub mod Duty
pub mod Lifecycle
