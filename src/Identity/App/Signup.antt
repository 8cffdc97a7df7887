-- ===== src/Identity/App/Signup.antt =====
-- services/identity/internal/app/signup_service.go.
use flowspace_api.Base.{ℕ, Bool, not, ◌||◌, Option, none, some, if◌then◌else◌, Text, is_none}
use flowspace_api.Identity.Errors.{Err, sentinel, is, account_exists, signup_unavailable}
use flowspace_api.Identity.Run.{M, pure, fail, refuse_if, lift, map_err, new_uuid, ◌>>=◌, ◌>>◌}
use flowspace_api.Identity.Domain.Email.{normalize_email}
use flowspace_api.Identity.Domain.Password.{hash_password}
use flowspace_api.Identity.Repository.Transactions.{within_transaction}
use flowspace_api.Identity.Repository.Accounts
use flowspace_api.Identity.App.Ports.{Signer, Protector, LimitOf, limit_by, key_ready}
use flowspace_api.Identity.App.Sessions.{SessionTokens, issue}
use flowspace_api.Identity.App.Codes.{queue_verification_code}

pub record SignupService : Type 0 where
  pub has_repository : Bool
  pub signer : Option Signer
  pub protector : Option Protector
  pub limit : Option LimitOf
  pub compromised : Option (Text → M Bool)
  pub verifier_key : Text

-- inbound.CreateAccountInput
pub record CreateAccountInput : Type 0 where
  pub email : Text
  pub password : Text
  pub source : Text

-- inbound.CreateAccountResult and inbound.ClaimAccountResult
pub record AccountTokens : Type 0 where
  pub subject : Text
  pub access_token : Text
  pub refresh_token : Text
  pub access_token_expires_at : ℕ

abbrev pub account_tokens : Text → SessionTokens → AccountTokens
account_tokens subject tokens = record {
  subject = subject;
  access_token = tokens.access_token;
  refresh_token = tokens.refresh_token;
  access_token_expires_at = tokens.access_token_expires_at;
}

unfoldable pub create_records : Signer → Protector → Text → Text → Text → Text → M AccountTokens
create_records sign protect verifier_key subject email hash = do
  Accounts.create_account subject email hash
  tokens ← issue sign subject
  queue_verification_code protect verifier_key subject email
  pure (account_tokens subject tokens)

unfoldable pub signup_error : Err → Err
signup_error x =
    if is x account_exists then sentinel account_exists else sentinel signup_unavailable

-- A service whose signer and protector are not nil.
unfoldable pub create_account_with :
    SignupService → Signer → Protector → CreateAccountInput → M AccountTokens
unfolding create_records signup_error
create_account_with s sign protect input = do
  refuse_if (not s.has_repository || is_none s.limit || not (key_ready s.verifier_key))
      (sentinel signup_unavailable)
  limit_by s.limit input.source
  email ← lift (λ e. normalize_email e input.email)
  hash ← hash_password input.password s.compromised
  subject ← new_uuid (sentinel signup_unavailable)
  map_err signup_error
      (within_transaction (create_records sign protect s.verifier_key subject email hash))

unfoldable pub signup_with :
    SignupService → Option Signer → Option Protector → CreateAccountInput → M AccountTokens
unfolding create_account_with
signup_with s none protect input = fail (sentinel signup_unavailable)
signup_with s (some sign) none input = fail (sentinel signup_unavailable)
signup_with s (some sign) (some protect) input = create_account_with s sign protect input

-- `SignupService.CreateAccount`
unfoldable pub sign_up : SignupService → CreateAccountInput → M AccountTokens
unfolding signup_with
sign_up s input = signup_with s s.signer s.protector input
