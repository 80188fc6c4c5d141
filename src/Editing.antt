-- ===== src/Editing.antt =====
-- The tests as a teacher edits them: the handlers of internal/api/admin.go on a test and its items.
pub mod Tests
pub mod Found
pub mod Kept
pub mod Requests
pub mod Owners
