-- ===== src/Identity/Repository/Outbox.antt =====
-- `OutboxRepository` (services/identity/internal/adapter/out/postgres/outbox_repository.go).
use flowspace_api.Base.{ℕ, not, Option, none, some, ◌==◌, Text}
use flowspace_api.Identity.Errors.{sentinel, outbox_claim_lost, invalid_uuid}
use flowspace_api.Identity.Database.{OutboxRow}
use flowspace_api.Identity.Run.{M, pure, refuse_if, asks, ◌>>=◌}
use flowspace_api.Identity.Statements.Outbox
use flowspace_api.Identity.Repository.Transactions.{parse_uuid_or}

-- outbound.OutboxEvent, with the id of the challenge that its purpose is joined from.
pub record OutboxEvent : Type 0 where
  pub id : Text
  pub challenge_id : Text

unfoldable pub event_of : Option OutboxRow → M (Option OutboxEvent)
event_of none = pure none
event_of (some r) =
    asks
      (λ e. some (record { id = e.uuid_string r.id; challenge_id = e.uuid_string r.challenge_id }))

unfoldable pub claim : Text → M (Option OutboxEvent)
unfolding event_of
claim owner = do found ← Outbox.claim_outbox_event owner; event_of found

unfoldable pub mark_published : Text → Text → M (Unit {0})
mark_published event_id owner = do
  id ← parse_uuid_or invalid_uuid event_id
  changed ← Outbox.mark_outbox_published id owner
  refuse_if (not (changed == 1)) (sentinel outbox_claim_lost)

unfoldable pub release : Text → Text → ℕ → M (Unit {0})
release event_id owner next_attempt = do
  id ← parse_uuid_or invalid_uuid event_id
  changed ← Outbox.release_outbox_claim id owner next_attempt
  refuse_if (not (changed == 1)) (sentinel outbox_claim_lost)
