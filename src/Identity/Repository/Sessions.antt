-- ===== src/Identity/Repository/Sessions.antt =====
-- The session methods of `accountTransaction` (account_repository.go) and `SessionRepository`
-- (session_repository.go, both in services/identity/internal/adapter/out/postgres).
use flowspace_api.Base.{ℕ, Bool, not, ◌||◌, some, ◌==◌, Text, text_eq, is_some, is_value}
use flowspace_api.Identity.Errors.{sentinel, unauthenticated}
use flowspace_api.Identity.Run.{M, ok, pure, refuse_if, asks, ◌>>=◌, ◌>>◌}
use flowspace_api.Identity.Domain.Reauthentication.{ReauthenticationWindow}
use flowspace_api.Identity.Statements.Sessions
use flowspace_api.Identity.Repository.Transactions.{
  parse_uuid_or, row_or, window_of, get_transaction,
}
use flowspace_api.Identity.Repository.Accounts.{get_active_account_for_session}

unfoldable pub remember_session : Text → ℕ → M (Unit {0})
remember_session subject id e w = ok tt (record w {
  transaction = record (w.transaction) {
    reauthentication_session = some id;
    reauthentication_subject = subject;
  };
})

-- The window of the session, and the time at which it was read.
unfoldable pub lock_session_for_reauthentication : Text → Text → M (ReauthenticationWindow × ℕ)
unfolding remember_session
lock_session_for_reauthentication subject session_id = do
  account ← get_active_account_for_session subject session_id
  id ← parse_uuid_or (sentinel unauthenticated) session_id
  found ← Sessions.get_session_reauthentication subject id
  (session, observed_at) ← row_or (sentinel unauthenticated) found
  remember_session subject id
  pure (window_of session, observed_at)

unfoldable pub reauthenticate_session : Text → Text → M (Unit {0})
reauthenticate_session subject session_id = do
  id ← parse_uuid_or (sentinel unauthenticated) session_id
  t ← get_transaction
  refuse_if
      (not (text_eq subject t.reauthentication_subject)
        || not (is_value t.reauthentication_session id))
      (sentinel unauthenticated)
  Sessions.request_session_reauthentication id

-- outbound.SessionRecord
pub record SessionRecord : Type 0 where
  pub id : Text
  pub created_at : ℕ
  pub idle_expires_at : ℕ
  pub absolute_expires_at : ℕ

unfoldable pub create : Text → Text → M SessionRecord
create subject hash = do
  row ← Sessions.create_session subject hash
  asks (λ e. record {
    id = e.uuid_string (row.id);
    created_at = row.created_at;
    idle_expires_at = row.idle_expires_at;
    absolute_expires_at = row.absolute_expires_at;
  })

unfoldable pub check : Text → Text → M Bool
check subject session_id = do
  id ← parse_uuid_or (sentinel unauthenticated) session_id
  found ← Sessions.get_active_session_state subject id
  account ← row_or (sentinel unauthenticated) found
  pure (is_some (account.email_verified_at))

unfoldable pub revoke_current : Text → Text → M (Unit {0})
revoke_current subject session_id = do
  id ← parse_uuid_or (sentinel unauthenticated) session_id
  changed ← Sessions.revoke_current_session id subject
  refuse_if (not (changed == 1)) (sentinel unauthenticated)
