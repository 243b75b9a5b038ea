-- ===== src/State.antt =====
-- internal/state: users, their password hashes, and the two files that hold them.
pub mod Username
pub mod Document
pub mod Store
pub mod Load
pub mod Admins
pub mod Keyed
pub mod FirstAdmin
pub mod Durability
pub mod Written
pub mod Inversion
pub mod Restart
pub mod Calls
pub mod Accounts
pub mod Listing
pub mod Password
