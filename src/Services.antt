-- ===== src/Services.antt =====
-- The services of the index: src/services and src/tracker.
pub mod World
pub mod Steps
pub mod Users
pub mod Catalog
pub mod Login
pub mod Accounts
pub mod Index
pub mod Refusals
pub mod Information
pub mod Settings
pub mod Tracker
