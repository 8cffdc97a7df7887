-- ===== src/Identity/App/PasswordLogin.antt =====
-- services/identity/internal/app/password_login_service.go.
pub mod Credentials
use flowspace_api.Base.{
  ℕ, Bool, true, false, not, ◌||◌, Option, none, some, [], if◌then◌else◌, Text, bytes, text_eq,
}
use flowspace_api.Identity.Errors.{
  Err, sentinel, is, unauthenticated, invalid_credentials, login_unavailable,
}
use flowspace_api.Identity.Run.{M, pure, fail, refuse_if, lift, map_err, ◌>>=◌, ◌>>◌}
use flowspace_api.Identity.Domain.Email.{normalize_email}
use flowspace_api.Identity.Domain.Password.{normalize_login_password, verify_password}
use flowspace_api.Identity.Repository.Transactions.{within_transaction}
use flowspace_api.Identity.Repository.Accounts.{
  PasswordAccount, find_password_account, lock_password_account,
}
use flowspace_api.Identity.App.Ports.{Signer, keep_or, take_hash_slot}
use flowspace_api.Identity.App.Sessions.{SessionTokens, becomes}
use flowspace_api.Identity.App.Sessions

abbrev pub unknown_account_verifier : Text
unknown_account_verifier =
    bytes
      "$argon2id$v=19$m=19456,t=2,p=1$AAAAAAAAAAAAAAAAAAAAAA$AAAAAAAAAAAAAAAAAAAAAAAAAAAAAAAAAAAAAAAAAAA"

-- The verifier is a field, which `NewPasswordLoginService` sets to `domain.VerifyPassword`.
pub record PasswordLoginService : Type 0 where
  pub has_repository : Bool
  pub signer : Option Signer
  pub limit : Option (Text → Text → M (Unit {0}))

-- inbound.CreatePasswordSessionInput
pub record CreatePasswordSessionInput : Type 0 where
  pub email : Text
  pub password : Text
  pub source : Text

-- inbound.CreatePasswordSessionResult
pub record CreatePasswordSessionResult : Type 0 where
  pub subject : Text
  pub email_verified : Bool
  pub access_token : Text
  pub refresh_token : Text
  pub access_token_expires_at : ℕ
  pub refresh_token_expires_at : ℕ
  pub session_expires_at : ℕ

abbrev pub password_session : PasswordAccount → SessionTokens → CreatePasswordSessionResult
password_session account tokens = record {
  subject = account.subject;
  email_verified = account.email_verified;
  access_token = tokens.access_token;
  refresh_token = tokens.refresh_token;
  access_token_expires_at = tokens.access_token_expires_at;
  refresh_token_expires_at = tokens.refresh_token_expires_at;
  session_expires_at = tokens.session_expires_at;
}

unfoldable pub check_password : Text → Text → M Bool
check_password password hash = do
  take_hash_slot
  map_err (keep_or [] login_unavailable) (verify_password password hash)

-- A closed account is answered as wrong credentials.
unfoldable pub locked_error : Err → Err
locked_error x = if is x unauthenticated then sentinel invalid_credentials else x

unfoldable pub login_error : Err → Err
login_error x =
    if is x invalid_credentials
    then sentinel invalid_credentials
    else keep_or [] login_unavailable x

-- The work of the transaction in `issue`.
unfoldable pub issue_locked : Signer → PasswordAccount → M CreatePasswordSessionResult
unfolding locked_error
issue_locked sign account = do
  current ← map_err locked_error (lock_password_account account.subject)
  refuse_if
      (not (text_eq current.subject account.subject)
        || not (text_eq current.password_hash account.password_hash))
      (sentinel invalid_credentials)
  tokens ← Sessions.issue sign account.subject
  pure (password_session (record current { subject = account.subject }) tokens)

unfoldable pub issue : Signer → PasswordAccount → M CreatePasswordSessionResult
unfolding issue_locked login_error
issue sign account = map_err login_error (within_transaction (issue_locked sign account))

abbrev pub hash_of : Option PasswordAccount → Text
hash_of none = unknown_account_verifier
hash_of (some account) = account.password_hash

unfoldable pub issue_if_matched :
    Signer → Option PasswordAccount → Bool → M CreatePasswordSessionResult
unfolding issue
issue_if_matched sign none matched = fail (sentinel invalid_credentials)
issue_if_matched sign (some account) false = fail (sentinel invalid_credentials)
issue_if_matched sign (some account) true = issue sign account

-- The service is configured: none of its dependencies is nil.
unfoldable pub create_session_with :
    Signer
    → (Text → Text → M (Unit {0}))
    → CreatePasswordSessionInput
    → M CreatePasswordSessionResult
unfolding check_password issue_if_matched
create_session_with sign limit input = do
  email ← lift (λ e. normalize_email e input.email)
  password ← lift (λ e. normalize_login_password e input.password)
  limit input.source email
  account ← map_err (λ x. sentinel login_unavailable) (find_password_account email)
  matched ← check_password password (hash_of account)
  issue_if_matched sign account matched

unfoldable pub login_with :
    Bool
    → Option Signer
    → Option (Text → Text → M (Unit {0}))
    → CreatePasswordSessionInput
    → M CreatePasswordSessionResult
unfolding create_session_with
login_with true (some sign) (some limit) input = create_session_with sign limit input
login_with true (some sign) none input = fail (sentinel login_unavailable)
login_with true none limit input = fail (sentinel login_unavailable)
login_with false signer limit input = fail (sentinel login_unavailable)

unfoldable pub create_password_session :
    PasswordLoginService → CreatePasswordSessionInput → M CreatePasswordSessionResult
unfolding login_with
create_password_session s input = login_with s.has_repository s.signer s.limit input
