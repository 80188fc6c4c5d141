-- ===== src/Samples.antt =====
-- Concrete tasks, tables and requests, and what the code does on them.
mod Data
pub mod Checking
pub mod Training
pub mod Solving
pub mod Stocking
pub mod Serving
pub mod Telling
pub mod Editing
