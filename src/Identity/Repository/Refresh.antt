-- ===== src/Identity/Repository/Refresh.antt =====
-- `SessionRefreshRepository` (services/identity/internal/adapter/out/postgres/session_refresh_repository.go).
pub mod Once
use flowspace_api.Base.{ℕ, not, Option, none, some, if◌then◌else◌, Text, text_eq}
use flowspace_api.Identity.Errors.{sentinel, unauthenticated}
use flowspace_api.Identity.Run.{M, pure, refuse_if, asks, ◌>>=◌, ◌>>◌}
use flowspace_api.Identity.Statements.Accounts
use flowspace_api.Identity.Statements.Sessions
use flowspace_api.Identity.Statements.Sessions.{RefreshRow}
use flowspace_api.Identity.Repository.Transactions.{row_or, within_transaction}

-- outbound.RefreshSessionRecord
pub record RefreshSessionRecord : Type 0 where
  pub subject : Text
  pub id : Text
  pub issued_at : ℕ
  pub idle_expires_at : ℕ
  pub absolute_expires_at : ℕ

unfoldable pub lock_refresh_account : ℕ → M (Unit {0})
lock_refresh_account id = do
  found ← Sessions.get_refresh_session_subject id
  subject ← row_or (sentinel unauthenticated) found
  account ← Accounts.get_active_account_for_update subject
  locked ← row_or (sentinel unauthenticated) account
  pure tt

-- A token that the session no longer has was used before: the session ends.
unfoldable pub end_replayed : ℕ → {A : Type 0} → M (Option A)
end_replayed id = do changed ← Sessions.revoke_refresh_session id; pure none

unfoldable pub rotate_current :
    {A : Type 0} → RefreshRow → ℕ → Text → Text → (RefreshSessionRecord → M A) → M (Option A)
rotate_current session id old_hash new_hash issue = do
  Sessions.record_rotated_refresh_token old_hash id
  found ← Sessions.rotate_current_refresh_token new_hash id old_hash
  (rotated, issued_at) ← row_or (sentinel unauthenticated) found
  text ← asks (λ e. e.uuid_string id)
  issued ← issue (record {
    subject = session.account_subject;
    id = text;
    issued_at = issued_at;
    idle_expires_at = rotated.idle_expires_at;
    absolute_expires_at = rotated.absolute_expires_at;
  })
  pure (some issued)

-- The work between BEGIN and COMMIT. `none` is a replay, `some` what `issue` made.
unfoldable pub rotate_work :
    {A : Type 0} → Text → Text → (RefreshSessionRecord → M A) → M (Option A)
unfolding lock_refresh_account end_replayed rotate_current
rotate_work old_hash new_hash issue = do
  found ← Sessions.find_refresh_session old_hash
  id ← row_or (sentinel unauthenticated) found
  lock_refresh_account id
  row ← Sessions.get_refresh_session_for_update id
  session ← row_or (sentinel unauthenticated) row
  refuse_if (not session.active) (sentinel unauthenticated)
  if not (text_eq session.refresh_token_hash old_hash)
      then end_replayed id
      else rotate_current session id old_hash new_hash issue

-- The transaction of `Rotate` sets no re-authentication deadline, so it ends as those of the account
-- repository do.
unfoldable pub rotate : {A : Type 0} → Text → Text → (RefreshSessionRecord → M A) → M (Option A)
unfolding rotate_work
rotate old_hash new_hash issue = within_transaction (rotate_work old_hash new_hash issue)
