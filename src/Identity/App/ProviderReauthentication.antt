-- ===== src/Identity/App/ProviderReauthentication.antt =====
-- services/identity/internal/app/provider_reauthentication_service.go.
pub mod Linked
use flowspace_api.Base.{
  ℕ, Bool, true, false, not, ◌||◌, [], ◌∷◌, Option, none, some, if◌then◌else◌, Text, is_empty,
  is_none,
}
use flowspace_api.Identity.Errors.{
  Err, sentinel, is, unauthenticated, invalid_attempt_token, invalid_handoff_code, invalid_provider,
  provider_handoff_rejected, provider_account_unavailable, rate_limited, limit_unavailable,
  reauthentication_required, reauthentication_unavailable,
}
use flowspace_api.Identity.Run.{
  M, Attempted, value, error, pure, fail, refuse_if, asks, attempt, map_err, ◌>>=◌, ◌>>◌,
}
use flowspace_api.Identity.Domain.ProviderLogin.{
  secret_attempt_token, secret_handoff_code, valid_provider_secret, provider_secret_verifier,
}
use flowspace_api.Identity.Domain.Reauthentication.{ReauthenticationWindow, expires_at}
use flowspace_api.Identity.Repository.Transactions.{within_reauthentication_transaction}
use flowspace_api.Identity.Repository.Sessions.{lock_session_for_reauthentication}
use flowspace_api.Identity.Repository.Providers.{
  ProviderResult, create_provider_attempt, claim_provider_reauthentication_result,
  has_provider_link,
}
use flowspace_api.Identity.App.Ports.{LimitOf, key_ready, keep_or}
use flowspace_api.Identity.App.Reauthentication.{open_window}
use flowspace_api.Identity.App.ProviderLogin.{
  ProviderLoginService, StartProviderLoginResult, start, no_attempt,
}
use flowspace_api.Identity.App.ProviderSessions.{reject_handoff}

pub record ProviderReauthenticationService : Type 0 where
  pub login : Option ProviderLoginService
  pub has_repository : Bool
  pub failure_limit : Option LimitOf

-- inbound.StartProviderReauthenticationInput
pub record StartProviderReauthenticationInput : Type 0 where
  pub subject : Text
  pub session_id : Text
  pub provider : Text
  pub source : Text

-- inbound.CompleteProviderReauthenticationInput
pub record CompleteProviderReauthenticationInput : Type 0 where
  pub subject : Text
  pub session_id : Text
  pub attempt_token : Text
  pub handoff_code : Text
  pub source : Text

unfoldable pub provider_reauthentication_error : Err → Err
provider_reauthentication_error x =
    if is x reauthentication_required
    then sentinel unauthenticated
    else keep_or
        (provider_handoff_rejected ∷ invalid_provider ∷ unauthenticated ∷ rate_limited
          ∷ limit_unavailable ∷ [])
        reauthentication_unavailable x

-- The work of the transaction that starts an attempt.
unfoldable pub start_for_session :
    ProviderLoginService → StartProviderReauthenticationInput → M StartProviderLoginResult
start_for_session login input = do
  locked ← lock_session_for_reauthentication input.subject input.session_id
  start login input.provider input.source (some create_provider_attempt)
      (record no_attempt { subject = input.subject; session_id = input.session_id })

unfoldable pub start_reauthentication_with :
    Bool
    → StartProviderReauthenticationInput
    → Option ProviderLoginService
    → M StartProviderLoginResult
unfolding start_for_session provider_reauthentication_error
start_reauthentication_with has_repository input none = fail (sentinel reauthentication_unavailable)
start_reauthentication_with has_repository input (some login) = do
  refuse_if (not has_repository) (sentinel reauthentication_unavailable)
  (result, window) ←
      map_err provider_reauthentication_error
        (within_reauthentication_transaction (start_for_session login input))
  pure result

unfoldable pub start_provider_reauthentication :
    ProviderReauthenticationService
    → StartProviderReauthenticationInput
    → M StartProviderLoginResult
unfolding start_reauthentication_with
start_provider_reauthentication s input = do
  refuse_if (is_empty input.subject || is_empty input.session_id) (sentinel unauthenticated)
  start_reauthentication_with s.has_repository input s.login

unfoldable pub open_linked : Text → Text → Bool → M Bool
open_linked subject session_id false = pure false
open_linked subject session_id true = do deadline ← open_window subject session_id; pure true

unfoldable pub open_claimed : Text → Text → Option ProviderResult → M Bool
unfolding open_linked
open_claimed subject session_id none = fail (sentinel provider_handoff_rejected)
open_claimed subject session_id (some result) = do
  linked ← has_provider_link subject result.provider result.subject
  open_linked subject session_id linked

-- `ProviderReauthenticationService.claim`
unfoldable pub claim : CompleteProviderReauthenticationInput → Text → Text → M Bool
unfolding open_claimed
claim input attempt handoff = do
  locked ← lock_session_for_reauthentication input.subject input.session_id
  result ← claim_provider_reauthentication_result input.subject input.session_id attempt handoff
  open_claimed input.subject input.session_id result

-- The error of the run decides, then whether the identity is linked.
unfoldable pub answer_reauthentication :
    Text → Text → Option LimitOf → Attempted (Bool × ReauthenticationWindow) → M ℕ
unfolding provider_reauthentication_error
answer_reauthentication attempt source failure_limit (error x) =
    if is x provider_handoff_rejected
    then map_err provider_reauthentication_error (reject_handoff attempt source failure_limit)
    else fail (provider_reauthentication_error x)
answer_reauthentication attempt source failure_limit (value (false, window)) =
    fail (sentinel provider_account_unavailable)
answer_reauthentication attempt source failure_limit (value (true, window)) =
    pure (expires_at window)

unfoldable pub complete_reauthentication_with :
    ProviderReauthenticationService
    → CompleteProviderReauthenticationInput
    → Option ProviderLoginService
    → M ℕ
unfolding claim answer_reauthentication
complete_reauthentication_with s input none = fail (sentinel reauthentication_unavailable)
complete_reauthentication_with s input (some login) = do
  refuse_if
      (not login.has_repository
        || not s.has_repository
        || is_none s.failure_limit
        || not (key_ready login.verifier_key))
      (sentinel reauthentication_unavailable)
  token ←
      asks (λ e.
        provider_secret_verifier e login.verifier_key secret_attempt_token input.attempt_token)
  handoff ←
      asks
        (λ e. provider_secret_verifier e login.verifier_key secret_handoff_code input.handoff_code)
  claimed ← attempt (within_reauthentication_transaction (claim input token handoff))
  answer_reauthentication token input.source s.failure_limit claimed

-- The answer is the time at which the window closes.
unfoldable pub complete_provider_reauthentication :
    ProviderReauthenticationService → CompleteProviderReauthenticationInput → M ℕ
unfolding complete_reauthentication_with
complete_provider_reauthentication s input = do
  refuse_if (is_empty input.subject || is_empty input.session_id) (sentinel unauthenticated)
  refuse_if (not (valid_provider_secret input.attempt_token)) (sentinel invalid_attempt_token)
  refuse_if (not (valid_provider_secret input.handoff_code)) (sentinel invalid_handoff_code)
  complete_reauthentication_with s input s.login
