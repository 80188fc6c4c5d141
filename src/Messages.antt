-- ===== src/Messages.antt =====
-- A task's statement as the bot sends it: internal/bot/format.go and internal/bot/richhtml.go.
pub mod Inline
pub mod Rows
pub mod Escaping
pub mod Alignment
pub mod Statement
pub mod Segments
