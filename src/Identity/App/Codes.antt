-- ===== src/Identity/App/Codes.antt =====
-- Requests for codes: services/identity/internal/app/email_verification_code_service.go,
-- claim_code_service.go and password_reset_code_service.go.
use flowspace_api.Base.{
  Bool, not, ◌||◌, Option, none, some, [], ◌∷◌, if◌then◌else◌, Text, is_empty, is_none,
}
use flowspace_api.Identity.Errors.{
  sentinel, unauthenticated, verification_code_unavailable, email_already_verified, rate_limited,
  claim_code_unavailable, password_reset_code_unavailable,
}
use flowspace_api.Identity.Run.{M, pure, fail, refuse_if, lift, map_err, time_now, ◌>>=◌, ◌>>◌}
use flowspace_api.Identity.Domain.Email.{normalize_email}
use flowspace_api.Identity.Domain.Challenge.{
  new_challenge, purpose_verify_email, purpose_claim_account, purpose_password_reset,
}
use flowspace_api.Identity.Statements.Challenges.{can_issue_code}
use flowspace_api.Identity.Repository.Transactions.{within_transaction}
use flowspace_api.Identity.Repository.Accounts.{
  get_active_account_for_session, get_account_for_claim, get_account_for_password_recovery,
  SubjectAccount, PasswordRecoveryAccount,
}
use flowspace_api.Identity.Repository.Challenges.{
  create_challenge, store_delivery, create_outbox_event, replace_challenge,
  replace_and_delete_deliveries,
}
use flowspace_api.Identity.App.Ports.{
  Protector, LimitOf, limit_by, key_ready, keep_or, await_response_floor,
}

-- A code service: a repository and a source limit that may be nil, a protector and the key.
pub record CodeService : Type 0 where
  pub has_repository : Bool
  pub protector : Option Protector
  pub source_limit : Option LimitOf
  pub email_limit : Option LimitOf
  pub verifier_key : Text

-- The challenge with its protected delivery and its outbox event, in the caller's transaction.
unfoldable pub deliver_code : Protector → Text → Text → Text → Text → Text → M (Unit {0})
deliver_code protect purpose subject email verifier code = do
  challenge_id ← create_challenge subject email purpose verifier
  material ← protect challenge_id purpose subject email code
  store_delivery challenge_id material
  create_outbox_event challenge_id

unfoldable pub queue_verification_code : Protector → Text → Text → Text → M (Unit {0})
unfolding deliver_code
queue_verification_code protect verifier_key subject email = do
  now ← time_now
  (code, verifier, expires) ← new_challenge verifier_key subject email purpose_verify_email now
  deliver_code protect purpose_verify_email subject email verifier code

-- `EmailVerificationCodeService.issue`
unfoldable pub issue_verification_code : Protector → Text → Text → Text → M (Unit {0})
unfolding queue_verification_code
issue_verification_code protect verifier_key subject session_id = do
  account ← get_active_account_for_session subject session_id
  refuse_if (account.email_verified) (sentinel email_already_verified)
  allowed ← can_issue_code subject
  refuse_if (not allowed) (sentinel rate_limited)
  replace_challenge subject purpose_verify_email
  queue_verification_code protect verifier_key subject (account.email)

unfoldable pub request_with : CodeService → Option Protector → Text → Text → Text → M (Unit {0})
unfolding issue_verification_code
request_with s none subject session_id source = fail (sentinel verification_code_unavailable)
request_with s (some protect) subject session_id source = do
  refuse_if (not s.has_repository || is_none s.source_limit || not (key_ready s.verifier_key))
      (sentinel verification_code_unavailable)
  limit_by s.source_limit source
  map_err
      (keep_or (unauthenticated ∷ email_already_verified ∷ rate_limited ∷ [])
        verification_code_unavailable)
      (within_transaction (issue_verification_code protect s.verifier_key subject session_id))

unfoldable pub request_email_verification_code : CodeService → Text → Text → Text → M (Unit {0})
unfolding request_with
request_email_verification_code s subject session_id source = do
  refuse_if (is_empty subject || is_empty session_id) (sentinel unauthenticated)
  request_with s s.protector subject session_id source

-- The code of an account that may have one: `ClaimCodeService.issue` after its first test.
unfoldable pub issue_claim_code_to : Protector → Text → Text → Text → M (Unit {0})
unfolding deliver_code
issue_claim_code_to protect verifier_key subject email = do
  now ← time_now
  (code, verifier, expires) ← new_challenge verifier_key subject email purpose_claim_account now
  replace_challenge subject purpose_claim_account
  deliver_code protect purpose_claim_account subject email verifier code

unfoldable pub claim_code_if_allowed :
    Protector → Text → Text → Option SubjectAccount → M (Unit {0})
unfolding issue_claim_code_to
claim_code_if_allowed protect verifier_key email none = pure tt
claim_code_if_allowed protect verifier_key email (some account) =
    if account.email_verified then pure tt else do
      allowed ← can_issue_code account.subject
      if not allowed
          then pure tt
          else issue_claim_code_to protect verifier_key account.subject email

-- `ClaimCodeService.issue`
unfoldable pub issue_claim_code : Protector → Text → Text → M (Unit {0})
unfolding claim_code_if_allowed
issue_claim_code protect verifier_key email = do
  account ← get_account_for_claim email
  claim_code_if_allowed protect verifier_key email account

unfoldable pub claim_code_with : CodeService → Option Protector → Text → Text → M (Unit {0})
unfolding issue_claim_code
claim_code_with s none address source = fail (sentinel claim_code_unavailable)
claim_code_with s (some protect) address source = do
  refuse_if (not s.has_repository || is_none s.source_limit || not (key_ready s.verifier_key))
      (sentinel claim_code_unavailable)
  started ← time_now
  limit_by s.source_limit source
  email ← lift (λ e. normalize_email e address)
  map_err (keep_or [] claim_code_unavailable)
      (within_transaction (issue_claim_code protect s.verifier_key email))
  await_response_floor started

unfoldable pub request_unverified_account_claim_code : CodeService → Text → Text → M (Unit {0})
unfolding claim_code_with
request_unverified_account_claim_code s address source =
    claim_code_with s s.protector address source

unfoldable pub issue_reset_code_to : Protector → Text → Text → Text → M (Unit {0})
unfolding deliver_code
issue_reset_code_to protect verifier_key subject email = do
  now ← time_now
  (code, verifier, expires) ← new_challenge verifier_key subject email purpose_password_reset now
  replace_and_delete_deliveries subject purpose_password_reset
  deliver_code protect purpose_password_reset subject email verifier code

unfoldable pub reset_code_if_allowed :
    Protector → Text → Text → Option PasswordRecoveryAccount → M (Unit {0})
unfolding issue_reset_code_to
reset_code_if_allowed protect verifier_key email none = pure tt
reset_code_if_allowed protect verifier_key email (some account) =
    if not account.email_verified || not account.has_password then pure tt else do
      allowed ← can_issue_code account.subject
      if not allowed
          then pure tt
          else issue_reset_code_to protect verifier_key account.subject email

-- `PasswordResetCodeService.issue`
unfoldable pub issue_reset_code : Protector → Text → Text → M (Unit {0})
unfolding reset_code_if_allowed
issue_reset_code protect verifier_key email = do
  account ← get_account_for_password_recovery email
  reset_code_if_allowed protect verifier_key email account

unfoldable pub reset_code_with : CodeService → Option Protector → Text → Text → M (Unit {0})
unfolding issue_reset_code
reset_code_with s none address source = fail (sentinel password_reset_code_unavailable)
reset_code_with s (some protect) address source = do
  refuse_if
      (not s.has_repository
        || is_none s.source_limit
        || is_none s.email_limit
        || not (key_ready s.verifier_key))
      (sentinel password_reset_code_unavailable)
  email ← lift (λ e. normalize_email e address)
  started ← time_now
  limit_by s.source_limit source
  limit_by s.email_limit email
  map_err (keep_or [] password_reset_code_unavailable)
      (within_transaction (issue_reset_code protect s.verifier_key email))
  await_response_floor started

unfoldable pub request_password_reset_code : CodeService → Text → Text → M (Unit {0})
unfolding reset_code_with
request_password_reset_code s address source = reset_code_with s s.protector address source
