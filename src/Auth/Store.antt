-- ===== src/Auth/Store.antt =====
-- services/auth/internal/store: one module for each of its files.
pub mod Users
pub mod Sessions
pub mod Identities
pub mod Verification
pub mod States
pub mod Providers
pub mod Integrity
pub mod Spent
pub mod Hashed
