-- ===== src/Identity/Event/Relay.antt =====
-- `OutboxRelay` (services/identity/internal/adapter/out/event/outbox_relay.go). Publishing to the
-- broker is a parameter; spans, logs and the stored trace context are left out.
pub mod Unpublished
use flowspace_api.Base.{Bool, true, false, ℕ, ◌+◌, Option, none, some, Text}
use flowspace_api.Identity.Errors.{Err, joined}
use flowspace_api.Identity.Run.{M, Attempted, value, error, pure, time_now, attempt, ◌>>=◌}
use flowspace_api.Identity.Domain.Challenge.{second}
use flowspace_api.Identity.Repository.Outbox.{OutboxEvent, claim, mark_published, release}

-- What RunOnce answers: whether it claimed an event, and its error.
abbrev pub RelayResult : Type 0
RelayResult = Bool × Option Err

abbrev pub released : Err → Attempted (Unit {0}) → Option Err
released x (value u) = some x
released x (error y) = some (joined x y)

abbrev pub marked : Attempted (Unit {0}) → Option Err
marked (value u) = none
marked (error y) = some y

-- An event whose publishing failed is due again after a second.
unfoldable pub after_publish : Text → OutboxEvent → Attempted (Unit {0}) → M RelayResult
after_publish owner request (error x) = do
  now ← time_now
  answer ← attempt (release request.id owner (now + second))
  pure (true, released x answer)
after_publish owner request (value u) = do
  answer ← attempt (mark_published request.id owner)
  pure (true, marked answer)

unfoldable pub publish_claimed :
    (OutboxEvent → M (Unit {0})) → Text → Attempted (Option OutboxEvent) → M RelayResult
unfolding after_publish
publish_claimed publish owner (error x) = pure (false, some x)
publish_claimed publish owner (value none) = pure (false, none)
publish_claimed publish owner (value (some request)) = do
  published ← attempt (publish request)
  after_publish owner request published

unfoldable pub run_once : (OutboxEvent → M (Unit {0})) → Text → M RelayResult
unfolding publish_claimed
run_once publish owner = do claimed ← attempt (claim owner); publish_claimed publish owner claimed
