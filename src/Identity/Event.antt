-- ===== src/Identity/Event.antt =====
-- The outbox relay and the email worker (services/identity/internal/adapter/out/event and
-- adapter/in/event).
pub mod Relay
pub mod Worker
