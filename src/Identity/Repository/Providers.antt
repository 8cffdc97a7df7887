-- ===== src/Identity/Repository/Providers.antt =====
-- The provider methods of `accountTransaction` (account_repository.go), createProviderAttempt
-- (provider_attempt.go) and `ProviderAttemptRepository` (provider_attempt_repository.go, all in
-- services/identity/internal/adapter/out/postgres).
use flowspace_api.Base.{
  ℕ, Bool, true, false, Option, none, some, if◌then◌else◌, Text, text_eq, is_empty,
}
use flowspace_api.Identity.Errors.{sentinel, unauthenticated, invalid_uuid}
use flowspace_api.Identity.Database.{Attempt}
use flowspace_api.Identity.Run.{M, pure, refuse_if, asks, ◌>>=◌, ◌>>◌}
use flowspace_api.Identity.Domain.Challenge.{purpose_reauthenticate}
use flowspace_api.Identity.Statements.Providers
use flowspace_api.Identity.Statements.Providers.{purpose_login}
use flowspace_api.Identity.Repository.Transactions.{parse_uuid_or}
use flowspace_api.Identity.Repository.Accounts.{
  cut_email, text_of, SubjectAccount, subject_account, one_row,
}

-- outbound.ProviderAttempt
pub record ProviderAttempt : Type 0 where
  pub subject : Text
  pub session_id : Text
  pub provider : Text
  pub attempt_token_verifier : Text
  pub state_verifier : Text
  pub code_verifier : Text
  pub nonce : Text
  pub callback_url : Text

-- `pgtype.Text{String: s, Valid: s != ""}`
abbrev pub non_empty : Text → Option Text
non_empty s = if is_empty s then none else some s

unfoldable pub attempt_params :
    ProviderAttempt → Text → Option Text → Option ℕ → Providers.AttemptParams
attempt_params attempt purpose subject session = record {
  provider = attempt.provider;
  attempt_token_verifier = attempt.attempt_token_verifier;
  state_verifier = attempt.state_verifier;
  code_verifier = attempt.code_verifier;
  nonce = non_empty attempt.nonce;
  callback_url = attempt.callback_url;
  purpose = purpose;
  account_subject = subject;
  session_id = session;
}

unfoldable pub create_bound_attempt : ProviderAttempt → M ℕ
unfolding attempt_params
create_bound_attempt attempt = do
  session ← parse_uuid_or (sentinel unauthenticated) attempt.session_id
  refuse_if (is_empty attempt.subject) (sentinel unauthenticated)
  Providers.create_provider_login_attempt
      (attempt_params attempt purpose_reauthenticate (some attempt.subject) (some session))

unfoldable pub create_provider_attempt : ProviderAttempt → M ℕ
unfolding create_bound_attempt
create_provider_attempt attempt =
    if is_empty attempt.session_id
    then Providers.create_provider_login_attempt (attempt_params attempt purpose_login none none)
    else create_bound_attempt attempt

-- outbound.ProviderAttemptProof
pub record ProviderAttemptProof : Type 0 where
  pub id : Text
  pub reauthentication : Bool
  pub code_verifier : Text
  pub nonce : Text
  pub callback_url : Text

unfoldable pub proof_of : Option Attempt → M (Option ProviderAttemptProof)
proof_of none = pure none
proof_of (some a) = asks (λ e. some (record {
  id = e.uuid_string a.id;
  reauthentication = text_eq a.purpose purpose_reauthenticate;
  code_verifier = a.code_verifier;
  nonce = text_of a.nonce;
  callback_url = a.callback_url;
}))

unfoldable pub consume_provider_state : Text → Text → M (Option ProviderAttemptProof)
unfolding proof_of
consume_provider_state provider state_verifier = do
  found ← Providers.consume_provider_login_state provider state_verifier
  proof_of found

-- outbound.ProviderIdentity
pub record ProviderIdentity : Type 0 where
  pub subject : Text
  pub email : Text
  pub email_verified : Bool
  pub hosted_domain : Text

unfoldable pub record_provider_result : Text → ProviderIdentity → Text → M Bool
unfolding one_row
record_provider_result attempt_id identity handoff_verifier = do
  id ← parse_uuid_or invalid_uuid attempt_id
  one_row (
      Providers.record_provider_login_result id (record {
        provider_subject = identity.subject;
        provider_email = non_empty identity.email;
        provider_email_verified = identity.email_verified;
        provider_hosted_domain = non_empty identity.hosted_domain;
        handoff_code_verifier = handoff_verifier;
      }))

unfoldable pub fail_provider_attempt : Text → M (Unit {0})
fail_provider_attempt attempt_id = do
  id ← parse_uuid_or invalid_uuid attempt_id
  changed ← Providers.fail_provider_login_attempt id
  pure tt

unfoldable pub record_failed_provider_handoff : Text → M (Unit {0})
record_failed_provider_handoff attempt_verifier = do
  changed ← Providers.record_provider_handoff_failure attempt_verifier
  pure tt

unfoldable pub purge_expired : M (Unit {0})
purge_expired = do changed ← Providers.delete_expired_provider_login_attempts; pure tt

-- outbound.ProviderResult
pub record ProviderResult : Type 0 where
  pub provider : Text
  pub subject : Text
  pub email : Text
  pub email_verified : Bool
  pub hosted_domain : Text

abbrev pub provider_result : Option Attempt → Option ProviderResult
provider_result none = none
provider_result (some a) = some (record {
  provider = a.provider;
  subject = text_of a.provider_subject;
  email = text_of a.provider_email;
  email_verified = a.provider_email_verified;
  hosted_domain = text_of a.provider_hosted_domain;
})

unfoldable pub claim_provider_result : Text → Text → M (Option ProviderResult)
claim_provider_result attempt_verifier handoff_verifier = do
  found ← Providers.claim_provider_login_result attempt_verifier handoff_verifier
  pure (provider_result found)

unfoldable pub lock_linked_account : Text → Text → M (Option SubjectAccount)
lock_linked_account provider provider_subject = do
  found ← Providers.get_linked_account_for_update provider provider_subject
  pure (subject_account found)

-- outbound.NewProviderAccount
pub record NewProviderAccount : Type 0 where
  pub subject : Text
  pub email : Text
  pub email_verified : Bool
  pub provider : Text
  pub provider_subject : Text

unfoldable pub link_created : NewProviderAccount → Bool → M Bool
link_created account false = pure false
link_created account true = do
  Providers.create_provider_link (record {
    provider = account.provider;
    provider_subject = account.provider_subject;
    account_subject = account.subject;
  })
  pure true

unfoldable pub create_provider_account : NewProviderAccount → M Bool
unfolding cut_email link_created
create_provider_account account = do
  (local, domain) ← cut_email account.email
  created ← Providers.create_provider_account account.subject local domain account.email_verified
  link_created account created

-- Only the provider and its subject are used of this result.
unfoldable pub claim_provider_reauthentication_result :
    Text → Text → Text → Text → M (Option ProviderResult)
claim_provider_reauthentication_result subject session_id attempt_verifier handoff_verifier = do
  id ← parse_uuid_or (sentinel unauthenticated) session_id
  found ←
      Providers.claim_provider_reauthentication_result attempt_verifier handoff_verifier subject id
  pure (provider_result found)

unfoldable pub has_provider_link : Text → Text → Text → M Bool
has_provider_link subject provider provider_subject =
    Providers.has_provider_link provider provider_subject subject
