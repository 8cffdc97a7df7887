-- ===== src/Identity/Repository/Delivery/Terminal.antt =====
-- The sender and the purge agree on which deliveries are over
-- (services/identity/internal/adapter/out/postgres/delivery_repository.go and delivery.sql).
use flowspace_api.Base.{ℕ, not, ◌≡◌, leb, arith}
use flowspace_api.Identity.Database.{Account, ChallengeRow}
use flowspace_api.Identity.Statements.Deliveries.{is_terminal}
use flowspace_api.Identity.Repository.Delivery.{is_current_delivery}

-- A challenge may be sent to an account exactly when the purge does not count it as terminal.
pub is_current_delivery-is_terminal :
    (account : Account) (challenge : ChallengeRow) (now : ℕ)
    → is_current_delivery account challenge (leb challenge.expires_at now)
      ≡ not (is_terminal now account challenge)
unfolding is_current_delivery is_terminal
is_current_delivery-is_terminal account challenge now = ground arith
