-- ===== src/Accounts.antt =====
-- The accounts, their rosters and their links, of internal/api and internal/store.
pub mod Tables
pub mod Credentials
pub mod Panel
pub mod Resets
pub mod Linking
pub mod Rosters
mod Rows
pub mod Admins
pub mod Server
pub mod Replies
mod Users
pub mod Running
pub mod Membership
mod Rostered
mod Unrostered
mod Untouched
pub mod Enrolled
pub mod Recovery
pub mod SignIn
