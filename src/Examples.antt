-- ===== src/Examples.antt =====
-- Runs of the model at concrete inputs.
mod Worlds
mod Draws
mod Tables
mod Sessions
mod Attempts
mod Domains
mod Passwords
mod Services
mod Logins
mod Verifications
mod Reauthentications
mod ProviderSessions
mod Deliveries
mod Workspaces
mod Transport
mod Tokens
