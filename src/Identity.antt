-- ===== src/Identity.antt =====
-- The Identity service (services/identity).
pub mod Errors
pub mod Database
pub mod Run
pub mod Domain
pub mod Statements
pub mod Repository
pub mod App
pub mod Event
pub mod Http
