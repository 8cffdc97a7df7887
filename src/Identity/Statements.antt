-- ===== src/Identity/Statements.antt =====
-- The SQL statements of the Identity service (services/identity/db/queries, and the functions made
-- from them in services/identity/internal/adapter/out/postgres/sqlc). Times are compared by adding
-- the interval to the earlier one, so that no subtraction is cut off at 0.
pub mod Challenges
pub mod Accounts
pub mod Sessions
pub mod Deliveries
pub mod Outbox
pub mod Providers
pub mod Limits
