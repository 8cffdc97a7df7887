-- ===== src/Identity/App/ProviderSessions.antt =====
-- `CreateProviderSession` and what it calls
-- (services/identity/internal/app/provider_login_service.go).
pub mod Claimed
use flowspace_api.Base.{
  ℕ, Bool, true, false, not, ◌||◌, Option, none, some, if◌then◌else◌, Text, is_none,
}
use flowspace_api.Identity.Errors.{
  Err, sentinel, is, random_uuid_unavailable, invalid_attempt_token, invalid_handoff_code,
  provider_login_unavailable, provider_handoff_rejected, provider_account_unavailable,
}
use flowspace_api.Identity.Run.{
  M, Attempted, value, error, pure, fail, refuse_if, asks, attempt, new_uuid, map_err, ◌>>=◌, ◌>>◌,
}
use flowspace_api.Identity.Domain.ProviderLogin.{
  secret_attempt_token, secret_handoff_code, valid_provider_secret, new_provider_account_email,
  provider_secret_verifier,
}
use flowspace_api.Identity.Repository.Transactions.{within_transaction}
use flowspace_api.Identity.Repository.Accounts.{SubjectAccount}
use flowspace_api.Identity.Repository.Providers.{
  ProviderResult, claim_provider_result, lock_linked_account, create_provider_account,
  record_failed_provider_handoff,
}
use flowspace_api.Identity.App.Ports.{LimitOf, Signer, Protector, limit_by, key_ready}
use flowspace_api.Identity.App.Codes.{queue_verification_code}
use flowspace_api.Identity.App.Sessions.{SessionTokens, issue}
use flowspace_api.Identity.App.ProviderLogin.{ProviderLoginService, unavailable}

-- inbound.CreateProviderSessionInput
pub record CreateProviderSessionInput : Type 0 where
  pub attempt_token : Text
  pub handoff_code : Text
  pub source : Text

-- inbound.CreateProviderSessionResult, with the tokens of the session as a field.
pub record CreateProviderSessionResult : Type 0 where
  pub subject : Text
  pub email_verified : Bool
  pub tokens : SessionTokens

unfoldable pub verification_code_unless : Bool → Protector → Text → Text → Text → M (Unit {0})
verification_code_unless true protect verifier_key subject email = pure tt
verification_code_unless false protect verifier_key subject email =
    queue_verification_code protect verifier_key subject email

unfoldable pub after_created :
    Protector → Text → Text → Text → Bool → Bool → M (Option SubjectAccount)
unfolding verification_code_unless
after_created protect verifier_key subject email verified false = pure none
after_created protect verifier_key subject email verified true = do
  verification_code_unless verified protect verifier_key subject email
  pure (some (record { subject = subject; email_verified = verified }))

unfoldable pub create_account_with :
    Protector → Text → ProviderResult → Option (Text × Bool) → M (Option SubjectAccount)
unfolding after_created
create_account_with protect verifier_key claim none = pure none
create_account_with protect verifier_key claim (some (email, verified)) = do
  subject ← new_uuid random_uuid_unavailable
  created ← create_provider_account (record {
    subject = subject;
    email = email;
    email_verified = verified;
    provider = claim.provider;
    provider_subject = claim.subject;
  })
  after_created protect verifier_key subject email verified created

-- `ProviderLoginService.createAccount`
unfoldable pub create_account : Protector → Text → ProviderResult → M (Option SubjectAccount)
unfolding create_account_with
create_account protect verifier_key claim = do
  usable ← asks (λ e.
      new_provider_account_email e claim.provider claim.email claim.email_verified
        claim.hosted_domain)
  create_account_with protect verifier_key claim usable

-- `if err == nil && !found`.
unfoldable pub found_or_created :
    Protector → Text → ProviderResult → Option SubjectAccount → M (Option SubjectAccount)
unfolding create_account
found_or_created protect verifier_key claim (some account) = pure (some account)
found_or_created protect verifier_key claim none = create_account protect verifier_key claim

unfoldable pub session_for : Signer → Option SubjectAccount → M (Option CreateProviderSessionResult)
session_for sign none = pure none
session_for sign (some account) = do
  tokens ← issue sign account.subject
  pure (
      some (record {
        subject = account.subject;
        email_verified = account.email_verified;
        tokens = tokens;
      }))

unfoldable pub session_of_claim :
    Signer → Protector → Text → Option ProviderResult → M (Option CreateProviderSessionResult)
unfolding found_or_created session_for
session_of_claim sign protect verifier_key none = fail (sentinel provider_handoff_rejected)
session_of_claim sign protect verifier_key (some claim) = do
  linked ← lock_linked_account claim.provider claim.subject
  account ← found_or_created protect verifier_key claim linked
  session_for sign account

-- `ProviderLoginService.claimSession`, with `none` for the result `false`.
unfoldable pub claim_session :
    Signer → Protector → Text → Text → Text → M (Option CreateProviderSessionResult)
unfolding session_of_claim
claim_session sign protect verifier_key attempt handoff = do
  claim ← claim_provider_result attempt handoff
  session_of_claim sign protect verifier_key claim

-- Counts a rejected handoff against the attempt and the source.
unfoldable pub reject_handoff : {A : Type 0} → Text → Text → Option LimitOf → M A
reject_handoff attempt source failure_limit = do
  map_err unavailable (record_failed_provider_handoff attempt)
  limit_by failure_limit source
  fail (sentinel provider_handoff_rejected)

unfoldable pub answer_claim :
    ProviderLoginService
    → Text
    → Text
    → Attempted (Option CreateProviderSessionResult)
    → M CreateProviderSessionResult
unfolding reject_handoff
answer_claim s attempt source (error x) =
    if is x provider_handoff_rejected
    then reject_handoff attempt source s.failure_limit
    else fail (unavailable x)
answer_claim s attempt source (value none) = fail (sentinel provider_account_unavailable)
answer_claim s attempt source (value (some result)) = pure result

unfoldable pub create_with :
    ProviderLoginService
    → CreateProviderSessionInput
    → Option Signer
    → Option Protector
    → M CreateProviderSessionResult
unfolding claim_session answer_claim
create_with s input (some sign) (some protect) = do
  refuse_if
      (not s.has_repository
        || not s.has_sessions
        || is_none s.failure_limit
        || not (key_ready s.verifier_key))
      (sentinel provider_login_unavailable)
  token ←
      asks (λ e. provider_secret_verifier e s.verifier_key secret_attempt_token input.attempt_token)
  handoff ←
      asks (λ e. provider_secret_verifier e s.verifier_key secret_handoff_code input.handoff_code)
  claimed ← attempt (within_transaction (claim_session sign protect s.verifier_key token handoff))
  answer_claim s token input.source claimed
create_with s input none protect = fail (sentinel provider_login_unavailable)
create_with s input (some sign) none = fail (sentinel provider_login_unavailable)

unfoldable pub create_provider_session :
    ProviderLoginService → CreateProviderSessionInput → M CreateProviderSessionResult
unfolding create_with
create_provider_session s input = do
  refuse_if (not (valid_provider_secret input.attempt_token)) (sentinel invalid_attempt_token)
  refuse_if (not (valid_provider_secret input.handoff_code)) (sentinel invalid_handoff_code)
  create_with s input s.signer s.protector
