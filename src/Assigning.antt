-- ===== src/Assigning.antt =====
-- A test given to a student or to a class: handleCreateAssignment of internal/api/admin.go.
pub mod Create
pub mod Enrolled
