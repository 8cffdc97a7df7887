-- ===== src/Identity/Http/Sessions.antt =====
-- The handlers of password_session_handler.go and provider_login_handler.go of
-- services/identity/internal/adapter/in/http, and in/grpc/session_check_handler.go.
use flowspace_api.Base.{
  ◌||◌, Bool, true, List, Option, none, some, if◌then◌else◌, Text, bytes, is_empty,
}
use flowspace_api.Identity.Run.{M}
use flowspace_api.Identity.Domain.ProviderLogin.{provider_google, provider_github}
use flowspace_api.Identity.App.Ports.{Signer}
use flowspace_api.Identity.App.Sessions
use flowspace_api.Identity.App.Sessions.{SessionTokens}
use flowspace_api.Identity.App.PasswordLogin.{PasswordLoginService, CreatePasswordSessionResult}
use flowspace_api.Identity.App.PasswordLogin
use flowspace_api.Identity.App.ProviderLogin.{ProviderLoginService, StartProviderLoginResult}
use flowspace_api.Identity.App.ProviderLogin
use flowspace_api.Identity.App.ProviderSessions.{CreateProviderSessionResult}
use flowspace_api.Identity.App.ProviderSessions
use flowspace_api.Identity.Http.Source.{Net}
use flowspace_api.Identity.Http.Status.{
  status, invalid_field, unavailable_code, authentication_required, password_login_rpc_error,
  refresh_rpc_error, logout_rpc_error, provider_login_rpc_error, provider_session_rpc_error,
  session_check_rpc_error,
}
use flowspace_api.Identity.Http.Handler.{
  H, reply, deny, ◌>>=◌, ◌>>◌, RequestContext, AccessTokenIdentity, Verifier, authenticate,
  required, no_idempotency_key, source_of_request, create_session, call, available,
}

pub record CreatePasswordSessionRequest : Type 0 where
  pub email : Text
  pub password : Text

pub record CreateProviderSessionRequest : Type 0 where
  pub attempt_token : Text
  pub handoff_code : Text

-- identityv1.Provider. A number that it does not name is handled like the unspecified one.
pub data Provider : Type 0 where
  provider_unspecified provider_google_value provider_github_value : Provider

-- `providerNames`
unfoldable pub provider_names : Provider → Option Text
provider_names provider_unspecified = none
provider_names provider_google_value = some provider_google
provider_names provider_github_value = some provider_github

unfoldable pub known_provider : Option Text → H Text
known_provider none = deny (invalid_field (bytes "provider") (bytes "is invalid"))
known_provider (some name) = reply name

-- A text of a request that is missing too if it is empty.
unfoldable pub given_token : Option Text → H Text
given_token none = deny (invalid_field (bytes "refresh_token") (bytes "is required"))
given_token (some token) =
    if is_empty token
    then deny (invalid_field (bytes "refresh_token") (bytes "is required"))
    else reply token

unfoldable pub refresh_session_rpc :
    RequestContext → Option Text → Option (Option Signer) → H SessionTokens
unfolding no_idempotency_key given_token available call
refresh_session_rpc ctx request service = do
  no_idempotency_key ctx
  token ← given_token request
  signer ← available (status unavailable_code (bytes "refresh unavailable")) service
  call refresh_rpc_error (Sessions.refresh_session signer token)

-- What both logouts share. The Boolean of a service says whether it has a repository.
unfoldable pub logout_by :
    (Bool → Text → Text → M (Unit {0}))
    → RequestContext
    → Option Verifier
    → Option (Unit {0})
    → Option Bool
    → H Bool
unfolding required authenticate available call
logout_by logout ctx verifier request service = do
  required request
  identity ← authenticate verifier ctx.authorization
  has_repository ← available (status unavailable_code (bytes "logout unavailable")) service
  call logout_rpc_error (logout has_repository identity.subject identity.session_id)
  reply true

unfoldable pub logout_current_session_rpc :
    RequestContext → Option Verifier → Option (Unit {0}) → Option Bool → H Bool
unfolding logout_by
logout_current_session_rpc = logout_by Sessions.logout_current_session

unfoldable pub logout_all_sessions_rpc :
    RequestContext → Option Verifier → Option (Unit {0}) → Option Bool → H Bool
unfolding logout_by
logout_all_sessions_rpc = logout_by Sessions.logout_all_sessions

-- The request is its subject and its session ID.
unfoldable pub identified : Option AccessTokenIdentity → H AccessTokenIdentity
identified none = deny authentication_required
identified (some request) =
    if is_empty request.subject || is_empty request.session_id
    then deny authentication_required
    else reply request

unfoldable pub check_session_rpc : Option AccessTokenIdentity → Option Bool → H Bool
unfolding identified available call
check_session_rpc request service = do
  r ← identified request
  has_repository ← available (status unavailable_code (bytes "session check unavailable")) service
  call session_check_rpc_error (Sessions.check_session has_repository r.subject r.session_id)

module _ (net : Net) (trusted : List net.Prefix) where
  unfoldable pub create_password_session_rpc :
      RequestContext
      → Option CreatePasswordSessionRequest
      → Option PasswordLoginService
      → H CreatePasswordSessionResult
  unfolding create_session
  create_password_session_rpc ctx request service =
      create_session net trusted ctx request service (bytes "password login unavailable")
        (λ s r source.
          PasswordLogin.create_password_session s
            (record { email = r.email; password = r.password; source = source }))
        password_login_rpc_error

  unfoldable pub start_provider_login_rpc :
      RequestContext → Option Provider → Option ProviderLoginService → H StartProviderLoginResult
  unfolding required no_idempotency_key known_provider provider_names source_of_request available
      call
  start_provider_login_rpc ctx request service = do
    r ← required request
    no_idempotency_key ctx
    provider ← known_provider (provider_names r)
    source ← source_of_request net trusted ctx
    s ← available (status unavailable_code (bytes "provider login unavailable")) service
    call provider_login_rpc_error (ProviderLogin.start_provider_login s provider source)

  unfoldable pub create_provider_session_rpc :
      RequestContext
      → Option CreateProviderSessionRequest
      → Option ProviderLoginService
      → H CreateProviderSessionResult
  unfolding create_session
  create_provider_session_rpc ctx request service =
      create_session net trusted ctx request service (bytes "provider login unavailable")
        (λ s r source. ProviderSessions.create_provider_session s (record {
          attempt_token = r.attempt_token;
          handoff_code = r.handoff_code;
          source = source;
        }))
        provider_session_rpc_error
