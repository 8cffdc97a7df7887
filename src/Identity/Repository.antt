-- ===== src/Identity/Repository.antt =====
-- The PostgreSQL adapter of Identity (services/identity/internal/adapter/out/postgres).
pub mod Transactions
pub mod Accounts
pub mod Challenges
pub mod Sessions
pub mod Providers
pub mod Refresh
pub mod Outbox
pub mod Delivery
pub mod Notices
