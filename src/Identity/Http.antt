-- ===== src/Identity/Http.antt =====
-- The transport of Identity (services/identity/internal/adapter/in/http and in/grpc).
pub mod Source
pub mod Status
pub mod Handler
pub mod Accounts
pub mod Sessions
pub mod Proofs
pub mod Authenticated
