-- ===== src/Identity/App.antt =====
-- The application services of Identity (services/identity/internal/app).
pub mod Ports
pub mod Limits
pub mod Sessions
pub mod Codes
pub mod Verification
pub mod Signup
pub mod Claim
pub mod PasswordReset
pub mod PasswordLogin
pub mod Reauthentication
pub mod CodeReauthentication
pub mod ProviderLogin
pub mod ProviderReauthentication
pub mod ProviderSessions
