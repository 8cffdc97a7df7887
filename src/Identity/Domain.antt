-- ===== src/Identity/Domain.antt =====
-- The domain rules of Identity (services/identity/internal/domain).
pub mod Email
pub mod Code
pub mod Challenge
pub mod Password
pub mod Reauthentication
pub mod ProviderLogin
