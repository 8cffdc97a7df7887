-- ===== src/Identity/App/PasswordReset.antt =====
-- services/identity/internal/app/password_reset_service.go.
pub mod Effects
use flowspace_api.Base.{
  ℕ, Bool, true, false, not, ◌&&◌, ◌||◌, Option, none, some, [], ◌∷◌, if◌then◌else◌, Text, bytes,
  is_empty, is_none,
}
use flowspace_api.Identity.Errors.{
  Err, sentinel, invalid_email, invalid_password, rate_limited, invalid_password_reset_code,
  password_reset_unavailable,
}
use flowspace_api.Identity.Run.{
  M, pure, refuse_if, asks, lift, map_err, time_now, check_context, ◌>>=◌, ◌>>◌,
}
use flowspace_api.Identity.Domain.Email.{normalize_email}
use flowspace_api.Identity.Domain.Code.{valid_verification_code}
use flowspace_api.Identity.Domain.Password.{validate_password, hash_password}
use flowspace_api.Identity.Domain.Challenge.{
  Challenge, zero_challenge, CodeCheck, code_rejected, code_wrong_guess, code_accepted,
  check_in_fixed_time, purpose_password_reset,
}
use flowspace_api.Identity.Repository.Transactions.{within_transaction}
use flowspace_api.Identity.Repository.Accounts.{
  PasswordAccount, PasswordRecoveryAccount, find_password_account,
  get_account_for_password_recovery, update_password_hash, revoke_password_sessions,
  queue_password_change_notice,
}
use flowspace_api.Identity.Repository.Challenges.{
  get_current_challenge, consume_challenge, increment_challenge_wrong_guess,
  replace_and_delete_deliveries, delete_challenge_delivery,
}
use flowspace_api.Identity.App.Ports.{LimitOf, limit_by, key_ready, keep_or}

pub record PasswordResetService : Type 0 where
  pub has_repository : Bool
  pub source_limit : Option LimitOf
  pub email_limit : Option LimitOf
  pub account_limit : Option LimitOf
  pub compromised : Option (Text → M Bool)
  pub verifier_key : Text

-- inbound.ResetPasswordInput
pub record ResetPasswordInput : Type 0 where
  pub email : Text
  pub code : Text
  pub new_password : Text
  pub source : Text

unfoldable pub validate_reset_request : PasswordResetService → ResetPasswordInput → M Text
validate_reset_request s input = do
  refuse_if
      (not s.has_repository
        || is_none s.source_limit
        || is_none s.email_limit
        || is_none s.account_limit
        || is_none s.compromised
        || not (key_ready s.verifier_key))
      (sentinel password_reset_unavailable)
  limit_by s.source_limit input.source
  email ← lift (λ e. normalize_email e input.email)
  limit_by s.email_limit email
  password ← lift (λ e. validate_password e input.new_password)
  refuse_if (not (valid_verification_code input.code)) (sentinel invalid_password_reset_code)
  pure email

-- The limit of an account that is found.
unfoldable pub limit_account : Option LimitOf → Option PasswordAccount → M (Unit {0})
limit_account limit none = pure tt
limit_account limit (some account) = limit_by limit account.subject

-- The challenge of an account that may reset its password.
unfoldable pub reset_challenge : Option PasswordRecoveryAccount → M (Option Challenge)
reset_challenge none = pure none
reset_challenge (some account) =
    if account.email_verified && account.has_password
    then get_current_challenge account.subject purpose_password_reset
    else pure none

abbrev pub unknown_password_reset_account : Text
unknown_password_reset_account = bytes "unknown-password-reset-account"

unfoldable pub reset_subject : Option PasswordRecoveryAccount → Text
reset_subject none = unknown_password_reset_account
reset_subject (some account) =
    if is_empty account.subject then unknown_password_reset_account else account.subject

unfoldable pub challenge_or_zero : Option Challenge → Challenge
challenge_or_zero none = zero_challenge
challenge_or_zero (some challenge) = challenge

-- The subject and the challenge of a code that is accepted; `none` is an invalid code.
unfoldable pub settle_reset_check :
    Text → Option Challenge → CodeCheck → M (Option (Text × Challenge))
settle_reset_check subject none checked = pure none
settle_reset_check subject (some challenge) code_accepted = pure (some (subject, challenge))
settle_reset_check subject (some challenge) code_wrong_guess = do
  increment_challenge_wrong_guess challenge.id
  pure none
settle_reset_check subject (some challenge) code_rejected = pure none

unfoldable pub verify_reset_code : Text → Text → Text → M (Option (Text × Challenge))
unfolding reset_challenge reset_subject challenge_or_zero settle_reset_check
verify_reset_code verifier_key email code = do
  account ← get_account_for_password_recovery email
  current ← reset_challenge account
  now ← time_now
  checked ← asks (λ e.
      check_in_fixed_time e (challenge_or_zero current) verifier_key (reset_subject account) email
        purpose_password_reset code now)
  settle_reset_check (reset_subject account) current checked

unfoldable pub apply_password_reset : Text → Text → Text → M (Unit {0})
apply_password_reset subject challenge_id hash = do
  replace_and_delete_deliveries subject purpose_password_reset
  delete_challenge_delivery challenge_id
  update_password_hash subject hash
  revoke_password_sessions subject
  queue_password_change_notice subject

unfoldable pub reset_if_consumed : Text → Text → Text → Bool → M Bool
unfolding apply_password_reset
reset_if_consumed subject challenge_id hash false = pure true
reset_if_consumed subject challenge_id hash true = do
  apply_password_reset subject challenge_id hash
  pure false

unfoldable pub reset_verified : Text → Option (Text → M Bool) → Option (Text × Challenge) → M Bool
unfolding reset_if_consumed
reset_verified password compromised none = pure true
reset_verified password compromised (some (subject, challenge)) = do
  hash ← hash_password password compromised
  check_context
  consumed ← consume_challenge challenge.id
  reset_if_consumed subject challenge.id hash consumed

-- The result says whether the code is invalid.
unfoldable pub reset : PasswordResetService → Text → Text → Text → M Bool
unfolding verify_reset_code reset_verified
reset s email code password = do
  verified ← verify_reset_code s.verifier_key email code
  reset_verified password s.compromised verified

unfoldable pub reset_failure : Err → Err
reset_failure x =
    keep_or (invalid_email ∷ invalid_password ∷ rate_limited ∷ []) password_reset_unavailable x

unfoldable pub reset_password : PasswordResetService → ResetPasswordInput → M (Unit {0})
unfolding validate_reset_request limit_account reset reset_failure
reset_password s input = do
  email ← validate_reset_request s input
  account ← map_err reset_failure (find_password_account email)
  limit_account s.account_limit account
  invalid ← map_err reset_failure (within_transaction (reset s email input.code input.new_password))
  refuse_if invalid (sentinel invalid_password_reset_code)
