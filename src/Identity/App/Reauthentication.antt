-- ===== src/Identity/App/Reauthentication.antt =====
-- services/identity/internal/app/password_reauthentication_service.go, reauthentication_guard.go
-- and reauthentication_window.go.
pub mod Proofs
use flowspace_api.Base.{
  ℕ, Bool, true, false, not, ◌||◌, Option, none, some, [], ◌∷◌, ltb, if◌then◌else◌, Text, is_empty,
}
use flowspace_api.Identity.Errors.{
  Err, sentinel, is, unauthenticated, reauthentication_required, reauthentication_unavailable,
  invalid_credentials, rate_limited, limit_unavailable,
}
use flowspace_api.Identity.Run.{
  M, Attempted, value, error, pure, fail, refuse_if, attempt, lift, map_err, ◌>>=◌, ◌>>◌,
}
use flowspace_api.Identity.Domain.Password.{normalize_login_password, verify_password}
use flowspace_api.Identity.Domain.Reauthentication.{ReauthenticationWindow, expires_at, is_open}
use flowspace_api.Identity.Repository.Transactions.{
  require_commit_before, within_reauthentication_transaction,
}
use flowspace_api.Identity.Repository.Accounts.{
  PasswordAccount, get_active_account_for_session, lock_password_account,
}
use flowspace_api.Identity.Repository.Sessions.{
  lock_session_for_reauthentication, reauthenticate_session,
}
use flowspace_api.Identity.App.Ports.{keep_or, take_hash_slot}
use flowspace_api.Identity.App.PasswordLogin.{unknown_account_verifier}

-- The guard of a caller's transaction; the transaction is given unless it is nil.
unfoldable pub require_reauthentication : Bool → Text → Text → M (Unit {0})
require_reauthentication has_transaction subject session_id = do
  refuse_if (is_empty subject || is_empty session_id) (sentinel unauthenticated)
  refuse_if (not has_transaction) (sentinel reauthentication_unavailable)
  (window, now) ←
      map_err (keep_or (unauthenticated ∷ []) reauthentication_unavailable)
        (lock_session_for_reauthentication subject session_id)
  refuse_if (not (is_open window now)) (sentinel reauthentication_required)
  require_commit_before (expires_at window)

unfoldable pub session_reauthentication_deadline : ReauthenticationWindow → ℕ
session_reauthentication_deadline window =
    if ltb window.idle_expires_at window.absolute_expires_at
    then window.idle_expires_at
    else window.absolute_expires_at

-- An open window is kept.
unfoldable pub reauthenticate_unless : Bool → Text → Text → M (Unit {0})
reauthenticate_unless true subject session_id = pure tt
reauthenticate_unless false subject session_id = reauthenticate_session subject session_id

unfoldable pub open_window : Text → Text → M ℕ
unfolding session_reauthentication_deadline reauthenticate_unless
open_window subject session_id = do
  (window, now) ← lock_session_for_reauthentication subject session_id
  reauthenticate_unless (is_open window now) subject session_id
  require_commit_before (session_reauthentication_deadline window)
  pure (session_reauthentication_deadline window)

-- inbound.ReauthenticateWithPasswordInput
pub record ReauthenticateWithPasswordInput : Type 0 where
  pub subject : Text
  pub session_id : Text
  pub password : Text
  pub source : Text

-- The credentials, or `none` for an account that is unauthenticated here.
unfoldable pub credentials_or : Attempted PasswordAccount → M (Option PasswordAccount)
credentials_or (value account) = pure (some account)
credentials_or (error x) = if is x unauthenticated then pure none else fail x

abbrev pub stored_hash : Option PasswordAccount → Text
stored_hash none = unknown_account_verifier
stored_hash (some account) = account.password_hash

unfoldable pub refuse_unmatched : Option PasswordAccount → Bool → M (Unit {0})
refuse_unmatched none matched = fail (sentinel invalid_credentials)
refuse_unmatched (some account) matched = refuse_if (not matched) (sentinel invalid_credentials)

unfoldable pub check_password : Text → Text → M (Unit {0})
unfolding credentials_or refuse_unmatched
check_password subject password = do
  attempted ← attempt (lock_password_account subject)
  credentials ← credentials_or attempted
  take_hash_slot
  matched ← verify_password password (stored_hash credentials)
  refuse_unmatched credentials matched

-- The work of the transaction.
unfoldable pub prove_password :
    (Text → Text → M (Unit {0})) → ReauthenticateWithPasswordInput → Text → M (Unit {0})
unfolding check_password reauthenticate_unless session_reauthentication_deadline
prove_password limit input password = do
  locked ← lock_session_for_reauthentication input.subject input.session_id
  account ← get_active_account_for_session input.subject input.session_id
  limit input.source account.email
  check_password input.subject password
  (window, now) ← lock_session_for_reauthentication input.subject input.session_id
  reauthenticate_unless (is_open window now) input.subject input.session_id
  require_commit_before (session_reauthentication_deadline window)

unfoldable pub password_reauthentication_error : Err → Err
password_reauthentication_error x =
    if is x reauthentication_required
    then sentinel unauthenticated
    else keep_or (invalid_credentials ∷ unauthenticated ∷ rate_limited ∷ limit_unavailable ∷ [])
        reauthentication_unavailable x

unfoldable pub reauthenticate_with :
    (Text → Text → M (Unit {0})) → ReauthenticateWithPasswordInput → M ℕ
unfolding prove_password password_reauthentication_error
reauthenticate_with limit input = do
  refuse_if (is_empty input.subject || is_empty input.session_id) (sentinel unauthenticated)
  password ← lift (λ e. normalize_login_password e input.password)
  (proved, window) ←
      map_err password_reauthentication_error
        (within_reauthentication_transaction (prove_password limit input password))
  pure (expires_at window)

-- The answer is the time at which the window closes. The first argument says whether the repository
-- is given.
unfoldable pub reauthenticate_with_password :
    Bool → Option (Text → Text → M (Unit {0})) → ReauthenticateWithPasswordInput → M ℕ
unfolding reauthenticate_with
reauthenticate_with_password true (some limit) input = reauthenticate_with limit input
reauthenticate_with_password true none input = fail (sentinel reauthentication_unavailable)
reauthenticate_with_password false limit input = fail (sentinel reauthentication_unavailable)
