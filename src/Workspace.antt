-- ===== src/Workspace.antt =====
-- The Workspace service (services/workspace).
pub mod Errors
pub mod Run
pub mod Domain
pub mod Statements
pub mod Repository
pub mod App
pub mod Tokens
pub mod Http
