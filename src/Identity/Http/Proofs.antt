-- ===== src/Identity/Http/Proofs.antt =====
-- The handlers of services/identity/internal/adapter/in/http/reauthentication_handler.go.
use flowspace_api.Base.{ℕ, Bool, true, List, Option, Text, bytes}
use flowspace_api.Identity.Errors.{sentinel, reauthentication_unavailable}
use flowspace_api.Identity.Run.{M, Result, done, refused}
use flowspace_api.Identity.Domain.Password.{normalize_login_password}
use flowspace_api.Identity.App.Reauthentication
use flowspace_api.Identity.App.CodeReauthentication.{CodeReauthenticationService}
use flowspace_api.Identity.App.CodeReauthentication
use flowspace_api.Identity.App.ProviderLogin.{StartProviderLoginResult}
use flowspace_api.Identity.App.ProviderReauthentication.{ProviderReauthenticationService}
use flowspace_api.Identity.App.ProviderReauthentication
use flowspace_api.Identity.Http.Source.{Net}
use flowspace_api.Identity.Http.Status.{Status, invalid_field, reauthentication_rpc_error}
use flowspace_api.Identity.Http.Handler.{
  H, reply, deny, ◌>>=◌, ◌>>◌, RequestContext, Verifier, authenticate, required, no_idempotency_key,
  source_of_request, call, available,
}
use flowspace_api.Identity.Http.Sessions.{
  CreateProviderSessionRequest, Provider, known_provider, provider_names,
}

-- inbound.PasswordReauthenticationService
pub record PasswordReauthenticationService : Type 0 where
  pub has_repository : Bool
  pub limit : Option (Text → Text → M (Unit {0}))

abbrev pub unavailable : Status
unavailable = reauthentication_rpc_error (sentinel reauthentication_unavailable)

unfoldable pub password_result : Result Text → H (Unit {0})
password_result (refused x) = deny (invalid_field (bytes "password") (bytes "is invalid"))
password_result (done password) = reply tt

unfoldable pub check_login_password : Text → H (Unit {0})
unfolding password_result
check_login_password password e w = password_result (normalize_login_password e password) e w

module _ (net : Net) (trusted : List net.Prefix) where
  -- The request is its password.
  unfoldable pub reauthenticate_with_password_rpc :
      RequestContext → Option Verifier → Option Text → Option PasswordReauthenticationService → H ℕ
  unfolding required authenticate check_login_password source_of_request available call
      reauthentication_rpc_error
  reauthenticate_with_password_rpc ctx verifier request service = do
    password ← required request
    identity ← authenticate verifier ctx.authorization
    check_login_password password
    source ← source_of_request net trusted ctx
    s ← available unavailable service
    call reauthentication_rpc_error (
        Reauthentication.reauthenticate_with_password s.has_repository s.limit (record {
          subject = identity.subject;
          session_id = identity.session_id;
          password = password;
          source = source;
        }))

  unfoldable pub request_reauthentication_code_rpc :
      RequestContext
      → Option Verifier
      → Option (Unit {0})
      → Option CodeReauthenticationService
      → H Bool
  unfolding required authenticate source_of_request available call reauthentication_rpc_error
  request_reauthentication_code_rpc ctx verifier request service = do
    required request
    identity ← authenticate verifier ctx.authorization
    source ← source_of_request net trusted ctx
    s ← available unavailable service
    call reauthentication_rpc_error (
        CodeReauthentication.request_reauthentication_code s (record {
          subject = identity.subject;
          session_id = identity.session_id;
          source = source;
        }))
    reply true

  -- The request is its code.
  unfoldable pub reauthenticate_with_code_rpc :
      RequestContext → Option Verifier → Option Text → Option CodeReauthenticationService → H ℕ
  unfolding required authenticate source_of_request available call reauthentication_rpc_error
  reauthenticate_with_code_rpc ctx verifier request service = do
    code ← required request
    identity ← authenticate verifier ctx.authorization
    source ← source_of_request net trusted ctx
    s ← available unavailable service
    call reauthentication_rpc_error (
        CodeReauthentication.reauthenticate_with_code s (record {
          subject = identity.subject;
          session_id = identity.session_id;
          code = code;
          source = source;
        }))

  unfoldable pub start_provider_reauthentication_rpc :
      RequestContext
      → Option Verifier
      → Option Provider
      → Option ProviderReauthenticationService
      → H StartProviderLoginResult
  unfolding required authenticate no_idempotency_key known_provider provider_names source_of_request
      available call reauthentication_rpc_error
  start_provider_reauthentication_rpc ctx verifier request service = do
    r ← required request
    identity ← authenticate verifier ctx.authorization
    no_idempotency_key ctx
    provider ← known_provider (provider_names r)
    source ← source_of_request net trusted ctx
    s ← available unavailable service
    call reauthentication_rpc_error (
        ProviderReauthentication.start_provider_reauthentication s (record {
          subject = identity.subject;
          session_id = identity.session_id;
          provider = provider;
          source = source;
        }))

  -- The request has the fields of the one for a session.
  unfoldable pub complete_provider_reauthentication_rpc :
      RequestContext
      → Option Verifier
      → Option CreateProviderSessionRequest
      → Option ProviderReauthenticationService
      → H ℕ
  unfolding required authenticate source_of_request available call reauthentication_rpc_error
  complete_provider_reauthentication_rpc ctx verifier request service = do
    r ← required request
    identity ← authenticate verifier ctx.authorization
    source ← source_of_request net trusted ctx
    s ← available unavailable service
    call reauthentication_rpc_error (
        ProviderReauthentication.complete_provider_reauthentication s (record {
          subject = identity.subject;
          session_id = identity.session_id;
          attempt_token = r.attempt_token;
          handoff_code = r.handoff_code;
          source = source;
        }))
