-- ===== src/Identity/Repository/Notices.antt =====
-- `DeliveryRepository.WithNextPasswordChangeNotice`
-- (services/identity/internal/adapter/out/postgres/delivery_repository.go).
pub mod Kept
use flowspace_api.Base.{ℕ, Bool, true, false, Option, none, some, ◌∷◌, ◌++◌, Text}
use flowspace_api.Identity.Errors.{Err, joined}
use flowspace_api.Identity.Database.{Database, Notice}
use flowspace_api.Identity.Run.{M, Attempted, value, error, ok, pure, attempt, ◌>>=◌, ◌>>◌}
use flowspace_api.Identity.Domain.Email.{at_sign}
use flowspace_api.Identity.Statements.Limits.{plain_statement}
use flowspace_api.Identity.Statements.Outbox.Notices.{
  lock_next_password_change_notice, delete_password_change_notice, defer_password_change_notice,
}

-- The results are values, since a failed send is returned after its notice was put off for good.
abbrev pub NoticeResult : Type 0
NoticeResult = Bool × Option Err

unfoldable pub tables : M Database
tables e w = ok w.db w

-- The rollback that is deferred takes the tables back.
unfoldable pub undone : {A : Type 0} → Database → A → M A
undone before a e w = ok a (record w { db = before })

-- `errors.Join` of the error of the send, if there is one, with another.
abbrev pub join_sent : Option Err → Err → Err
join_sent none x = x
join_sent (some s) x = joined s x

unfoldable pub after_commit : Database → Option Err → Attempted (Unit {0}) → M NoticeResult
unfolding undone
after_commit before sent (value u) = pure (true, sent)
after_commit before sent (error x) = undone before (true, some (join_sent sent x))

unfoldable pub after_change : Database → Option Err → Attempted ℕ → M NoticeResult
unfolding undone after_commit
after_change before sent (error x) = undone before (true, some (join_sent sent x))
after_change before sent (value changed) = do
  committed ← attempt plain_statement
  after_commit before sent committed

-- A notice that was sent is deleted, so that its address goes too; another is put off.
unfoldable pub after_send : Database → ℕ → Attempted (Unit {0}) → M NoticeResult
unfolding after_change
after_send before id (error x) = do
  deferred ← attempt (defer_password_change_notice id)
  after_change before (some x) deferred
after_send before id (value u) = do
  deleted ← attempt (delete_password_change_notice id)
  after_change before none deleted

unfoldable pub send_locked :
    (Text → M (Unit {0})) → Database → Attempted (Option Notice) → M NoticeResult
unfolding undone after_send
send_locked send before (error x) = undone before (false, some x)
send_locked send before (value none) = undone before (false, none)
send_locked send before (value (some notice)) = do
  sent ← attempt (send (notice.email_local ++ at_sign ∷ notice.email_domain))
  after_send before notice.id sent

unfoldable pub lock_and_send : (Text → M (Unit {0})) → Attempted (Unit {0}) → M NoticeResult
unfolding tables send_locked
lock_and_send send (error x) = pure (false, some x)
lock_and_send send (value u) = do
  before ← tables
  locked ← attempt lock_next_password_change_notice
  send_locked send before locked

unfoldable pub with_next_password_change_notice : (Text → M (Unit {0})) → M NoticeResult
unfolding lock_and_send
with_next_password_change_notice send = do begun ← attempt plain_statement; lock_and_send send begun
