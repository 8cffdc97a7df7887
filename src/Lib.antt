-- ===== src/Lib.antt =====
-- The Identity service and the Workspace service of flowspace-api: their domain rules, the SQL
-- statements of their databases, the repositories that run them in transactions and the
-- application services on top, the RPC handlers, and for Identity the relay and the email worker.
--
-- Base holds shared Boolean tests, lists and texts. A Go string or byte slice is a Text, the list
-- of its bytes. Encoding models what the code uses of encoding/base64, unicode/utf8 and strings
-- (Split, TrimSpace, Fields and EqualFold).
--
-- Identity/Errors is the errors of services/identity/internal (domain/errors.go, app/errors.go,
-- port/out/errors.go) with errors.Is. Identity/Database has one record for each table
-- (adapter/out/postgres/sqlc/models.go). Identity/Run is the monad that the code is written in: a
-- run takes an environment and a world and ends in a value or an error, with a new world. The
-- world has the tables, the limit counters, the fields of the open transaction and the number of
-- outside inputs read so far. The environment gives those inputs by their number (clocks, random
-- bytes, statement failures, errors of the context) and the library functions that are not in the
-- repository (HMAC, SHA-256, Argon2id, net/mail, NFC, UUIDs). Identity/Run/Keeps is about what a
-- run leaves as it is.
--
-- Identity/Domain is services/identity/internal/domain: Challenge and Code (challenge.go), Email
-- (email.go), Password (password.go), Reauthentication (reauthentication.go) and ProviderLogin
-- (provider_login.go).
--
-- Identity/Statements is one function for each SQL statement of services/identity/db/queries, as
-- sqlc generates it in adapter/out/postgres/sqlc: Challenges, Accounts (identity.sql.go),
-- Sessions, Deliveries, Outbox (with the notices of password changes in Outbox/Notices),
-- Providers (provider_login.sql.go) and Limits, which has limit_repository.go too. A statement
-- runs at one time, may fail, and changes the tables as its WHERE and SET clauses say; unique
-- keys are checked.
--
-- Identity/Repository is services/identity/internal/adapter/out/postgres: Transactions
-- (withinTransaction and the re-authentication deadline), Accounts, Challenges, Sessions,
-- Refresh, Providers, Outbox, Delivery and Notices. An error of a transaction puts back the
-- tables.
--
-- Identity/App is services/identity/internal/app: Ports (what a service is given), Limits,
-- Sessions (issue, refresh, check, logout), Codes (requests for codes), Verification, Signup,
-- Claim, PasswordReset, PasswordLogin, Reauthentication (the proof by password,
-- reauthentication_guard.go and reauthentication_window.go), CodeReauthentication, ProviderLogin
-- (the start of an attempt and the callback), ProviderSessions and ProviderReauthentication. A
-- dependency that may be nil is an Option or a Boolean, and the code's tests for nil are tests of
-- it.
--
-- Identity/Event is adapter/out/event/outbox_relay.go (Relay) and
-- adapter/in/event/email_worker.go (Worker). The worker's loop is cut off after a number of
-- rounds, since it ends only with its context; its clients are arguments.
--
-- Identity/Http is services/identity/internal/adapter/in/http and in/grpc: Source
-- (source_address.go, over a record of the functions of net/netip), Status (the statuses of
-- errors), Handler (identity_handler.go and createSession), Accounts (the handlers of sign-up,
-- verification, claim and password recovery), Sessions (password_session_handler.go,
-- provider_login_handler.go and session_check_handler.go) and Proofs
-- (reauthentication_handler.go). A handler is a run that ends in a response or a status; a
-- request that may be nil is an Option of its fields.
--
-- Workspace is services/workspace/internal: Errors and Domain (domain), Run (the monad, over the
-- tables of adapter/out/postgres/sqlc/models.go), Statements (adapter/out/postgres/sqlc with the
-- constraints of db/migrations), Repository (adapter/out/postgres/workspace_repository.go) and
-- App (app/workspace_service.go), Http (adapter/in/http/workspace_handler.go) and Tokens
-- (adapter/out/identity/token_verifier.go). Authn is internal/authn, over a record of the
-- functions of go-jose. In Workspace/Tokens/Sessions the two services meet: the token verifier
-- asks the session check of Identity.
--
-- Examples runs the model at concrete inputs.
--
-- Recursion is structural, but for the decimal digits of a length, which take one round more than
-- the number: a number has fewer digits than that.
--
-- Not modelled: row locks and interleavings of transactions, which run alone here (whether the
-- advisory lock of a workspace creation is free is an input); trace-context columns, metrics,
-- logs and traces; foreign keys and CHECK constraints of the Identity tables; timers and the
-- limit on parallel hashing, of which only the error of the context is left; of the HTTP adapter
-- of Identity, the browser callback, the gateway's headers and session_handler.go; the log of the
-- Workspace handlers; the connection of its token verifier; the clients of outside services;
-- configuration and bootstrap.
pub mod Base
pub mod Encoding
pub mod Identity
pub mod Authn
pub mod Workspace
pub mod Examples
