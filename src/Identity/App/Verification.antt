-- ===== src/Identity/App/Verification.antt =====
-- services/identity/internal/app/email_verification_service.go.
pub mod Accepted
use flowspace_api.Base.{
  Bool, true, false, not, ◌||◌, Option, none, some, [], ◌∷◌, if◌then◌else◌, Text, is_empty, is_none,
}
use flowspace_api.Identity.Errors.{
  sentinel, unauthenticated, verification_code_unavailable, invalid_verification_code,
}
use flowspace_api.Identity.Run.{M, pure, refuse_if, asks, map_err, time_now, ◌>>=◌, ◌>>◌}
use flowspace_api.Identity.Domain.Code.{valid_verification_code}
use flowspace_api.Identity.Domain.Challenge.{
  Challenge, CodeCheck, code_rejected, code_wrong_guess, code_accepted, check, purpose_verify_email,
}
use flowspace_api.Identity.Repository.Transactions.{within_transaction}
use flowspace_api.Identity.Repository.Accounts.{get_active_account_for_session, mark_email_verified}
use flowspace_api.Identity.Repository.Challenges.{
  get_current_challenge, consume_challenge, increment_challenge_wrong_guess,
}
use flowspace_api.Identity.App.Ports.{LimitOf, limit_by, key_ready, keep_or}

pub record EmailVerificationService : Type 0 where
  pub has_repository : Bool
  pub guess_source_limit : Option LimitOf
  pub guess_account_limit : Option LimitOf
  pub verifier_key : Text

-- inbound.VerifyEmailInput
pub record VerifyEmailInput : Type 0 where
  pub subject : Text
  pub session_id : Text
  pub code : Text
  pub source : Text

-- `if !consumed { return true, nil }`, and the mark of the address.
unfoldable pub mark_if_consumed : Text → Bool → M Bool
mark_if_consumed subject false = pure true
mark_if_consumed subject true = do
  changed ← mark_email_verified subject
  refuse_if (not changed) (sentinel verification_code_unavailable)
  pure false

-- The result says whether the code is invalid.
unfoldable pub apply_check : Text → Challenge → CodeCheck → M Bool
unfolding mark_if_consumed
apply_check subject challenge code_wrong_guess = do
  increment_challenge_wrong_guess (challenge.id)
  pure true
apply_check subject challenge code_rejected = pure true
apply_check subject challenge code_accepted = do
  consumed ← consume_challenge (challenge.id)
  mark_if_consumed subject consumed

unfoldable pub consume : Text → VerifyEmailInput → Text → Option Challenge → M Bool
unfolding apply_check
consume verifier_key input email none = pure true
consume verifier_key input email (some challenge) = do
  now ← time_now
  checked ← asks (λ e.
      check e challenge verifier_key (input.subject) email purpose_verify_email (input.code) now)
  apply_check (input.subject) challenge checked

unfoldable pub verify : Text → VerifyEmailInput → M Bool
unfolding consume
verify verifier_key input = do
  account ← get_active_account_for_session (input.subject) (input.session_id)
  if not (valid_verification_code (input.code))
      then pure true
      else if account.email_verified
      then pure false
      else do
        challenge ← get_current_challenge (input.subject) purpose_verify_email
        consume verifier_key input (account.email) challenge

unfoldable pub verify_email : EmailVerificationService → VerifyEmailInput → M (Unit {0})
unfolding verify
verify_email s input = do
  refuse_if (is_empty (input.subject) || is_empty (input.session_id)) (sentinel unauthenticated)
  refuse_if
      (not s.has_repository
        || is_none s.guess_source_limit
        || is_none s.guess_account_limit
        || not (key_ready s.verifier_key))
      (sentinel verification_code_unavailable)
  limit_by s.guess_source_limit (input.source)
  limit_by s.guess_account_limit (input.subject)
  invalid ←
      map_err (keep_or (unauthenticated ∷ []) verification_code_unavailable)
        (within_transaction (verify s.verifier_key input))
  refuse_if invalid (sentinel invalid_verification_code)
