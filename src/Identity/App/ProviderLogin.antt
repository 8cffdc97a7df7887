-- ===== src/Identity/App/ProviderLogin.antt =====
-- services/identity/internal/app/provider_login_service.go.
use flowspace_api.Base.{
  ℕ, Bool, not, ◌||◌, ◌++◌, List, [], ◌∷◌, Option, none, some, if◌then◌else◌, Text, bytes, text_eq,
  is_empty, is_none,
}
use flowspace_api.Identity.Errors.{
  Err, sentinel, invalid_provider, invalid_provider_callback, invalid_provider_proof, is,
  provider_login_unavailable,
}
use flowspace_api.Identity.Run.{
  M, Attempted, value, error, pure, fail, refuse_if, asks, attempt, map_err, ◌>>=◌, ◌>>◌,
}
use flowspace_api.Identity.Domain.ProviderLogin.{
  provider_google, provider_github, secret_attempt_token, secret_state, secret_handoff_code,
  ProviderAttemptSecrets, new_provider_attempt, new_provider_handoff_code, provider_code_challenge,
  provider_secret_verifier,
}
use flowspace_api.Identity.Repository.Providers.{
  ProviderAttempt, ProviderAttemptProof, ProviderIdentity, create_provider_attempt,
  consume_provider_state, fail_provider_attempt, record_provider_result,
}
use flowspace_api.Identity.App.Ports.{LimitOf, Signer, Protector, limit_by, key_ready, keep_or}
use flowspace_api.Identity.App.Sessions.{becomes}

-- outbound.ProviderCodeExchange
pub record ProviderCodeExchange : Type 0 where
  pub code : Text
  pub code_verifier : Text
  pub nonce : Text
  pub callback_url : Text

-- The registered OAuth client for one provider. The verifier of identities may be nil.
pub record ProviderClient : Type 0 where
  pub client_id : Text
  pub callback_url : Text
  pub identity : Option (ProviderCodeExchange → M ProviderIdentity)

-- `providerAuthorization`: the endpoint and the scope of a known provider.
unfoldable pub provider_authorization : Text → Option (Text × Text)
provider_authorization provider =
    if text_eq provider provider_google
    then some (bytes "https://accounts.google.com/o/oauth2/v2/auth", bytes "openid email")
    else if text_eq provider provider_github
    then some (bytes "https://github.com/login/oauth/authorize", bytes "user:email")
    else none

-- The map of clients is a function, and `url.Values.Encode` of the standard library a field.
pub record ProviderLoginService : Type 0 where
  pub has_repository : Bool
  pub source_limit : Option LimitOf
  pub callback_limit : Option LimitOf
  pub verifier_key : Text
  pub clients : Text → Option ProviderClient
  pub has_sessions : Bool
  pub signer : Option Signer
  pub protector : Option Protector
  pub failure_limit : Option LimitOf
  pub encode_query : List (Text × Text) → Text

-- inbound.StartProviderLoginResult
pub record StartProviderLoginResult : Type 0 where
  pub authorization_url : Text
  pub attempt_token : Text
  pub expires_at : ℕ

unfoldable pub unavailable : Err → Err
unavailable x = keep_or [] provider_login_unavailable x

-- The attempt with its secrets; the subject and session of the binding stay.
unfoldable pub attempt_with :
    Text → Text → ProviderClient → ProviderAttemptSecrets → ProviderAttempt → M ProviderAttempt
attempt_with key provider client secrets attempt = asks (λ e. record attempt {
  provider = provider;
  attempt_token_verifier =
      provider_secret_verifier e key secret_attempt_token secrets.attempt_token;
  state_verifier = provider_secret_verifier e key secret_state secrets.state;
  code_verifier = secrets.code_verifier;
  nonce = secrets.nonce;
  callback_url = client.callback_url;
})

abbrev pub nonce_query : Text → List (Text × Text)
nonce_query nonce = if is_empty nonce then [] else (bytes "nonce", nonce) ∷ []

unfoldable pub authorization_query :
    ProviderClient → Text → ProviderAttemptSecrets → Text → List (Text × Text)
authorization_query client scope secrets challenge =
    (bytes "response_type", bytes "code")
    ∷ (bytes "client_id", client.client_id)
    ∷ (bytes "redirect_uri", client.callback_url)
    ∷ (bytes "scope", scope)
    ∷ (bytes "state", secrets.state)
    ∷ (bytes "code_challenge", challenge)
    ∷ (bytes "code_challenge_method", bytes "S256")
    ∷ nonce_query secrets.nonce

-- `start` after its tests.
unfoldable pub start_attempt :
    ProviderLoginService
    → Text
    → Text
    → (ProviderAttempt → M ℕ)
    → ProviderAttempt
    → Text × Text
    → ProviderClient
    → M StartProviderLoginResult
unfolding attempt_with authorization_query unavailable
start_attempt s provider source create attempt (endpoint, scope) client = do
  limit_by s.source_limit source
  secrets ← map_err (becomes provider_login_unavailable) (new_provider_attempt provider)
  bound ← attempt_with s.verifier_key provider client secrets attempt
  expires_at ← map_err unavailable (create bound)
  challenge ← asks (λ e. provider_code_challenge e secrets.code_verifier)
  pure (record {
    authorization_url =
        endpoint
        ++ bytes "?"
        ++ s.encode_query (authorization_query client scope secrets challenge);
    attempt_token = secrets.attempt_token;
    expires_at = expires_at;
  })

unfoldable pub start_with :
    ProviderLoginService
    → Text
    → Text
    → Option (ProviderAttempt → M ℕ)
    → ProviderAttempt
    → Option (Text × Text)
    → Option ProviderClient
    → M StartProviderLoginResult
unfolding start_attempt
start_with s provider source attempts attempt none client = fail (sentinel invalid_provider)
start_with s provider source attempts attempt (some authorization) none =
    fail (sentinel provider_login_unavailable)
start_with s provider source none attempt (some authorization) (some client) =
    fail (sentinel provider_login_unavailable)
start_with s provider source (some create) attempt (some authorization) (some client) = do
  refuse_if (is_none s.source_limit || not (key_ready s.verifier_key))
      (sentinel provider_login_unavailable)
  start_attempt s provider source create attempt authorization client

-- Where attempts are stored may be nil.
unfoldable pub start :
    ProviderLoginService
    → Text
    → Text
    → Option (ProviderAttempt → M ℕ)
    → ProviderAttempt
    → M StartProviderLoginResult
unfolding start_with
start s provider source attempts attempt =
    start_with s provider source attempts attempt (provider_authorization provider)
      (s.clients provider)

abbrev pub no_attempt : ProviderAttempt
no_attempt = record {
  subject = [];
  session_id = [];
  provider = [];
  attempt_token_verifier = [];
  state_verifier = [];
  code_verifier = [];
  nonce = [];
  callback_url = [];
}

unfoldable pub start_provider_login :
    ProviderLoginService → Text → Text → M StartProviderLoginResult
unfolding start
start_provider_login s provider source =
    start s provider source (if s.has_repository then some create_provider_attempt else none)
      no_attempt

-- inbound.CompleteProviderCallbackInput
pub record CompleteProviderCallbackInput : Type 0 where
  pub provider : Text
  pub state : Text
  pub code : Text
  pub denied : Bool
  pub source : Text

-- inbound.ProviderCallbackResult
pub record ProviderCallbackResult : Type 0 where
  pub handoff_code : Text
  pub reauthentication : Bool

-- The switch of `verify`.
unfoldable pub verified_identity : Attempted ProviderIdentity → M ProviderIdentity
unfolding unavailable
verified_identity (value result) =
    if is_empty result.subject then fail (sentinel invalid_provider_callback) else pure result
verified_identity (error x) =
    if is x invalid_provider_proof
    then fail (sentinel invalid_provider_callback)
    else fail (unavailable x)

-- `ProviderLoginService.verify`
unfoldable pub verify_callback :
    (ProviderCodeExchange → M ProviderIdentity)
    → ProviderAttemptProof
    → CompleteProviderCallbackInput
    → M ProviderIdentity
unfolding verified_identity
verify_callback identity proof input = do
  refuse_if (input.denied || is_empty input.code) (sentinel invalid_provider_callback)
  verified ← attempt (
      identity (record {
        code = input.code;
        code_verifier = proof.code_verifier;
        nonce = proof.nonce;
        callback_url = proof.callback_url;
      }))
  verified_identity verified

-- The result is stored with a new handoff code; a failed one ends the attempt.
unfoldable pub record_verified :
    Text → ProviderAttemptProof → Attempted ProviderIdentity → M ProviderCallbackResult
unfolding unavailable
record_verified key proof (error x) = do ignored ← attempt (fail_provider_attempt proof.id); fail x
record_verified key proof (value result) = do
  code ← map_err (becomes provider_login_unavailable) new_provider_handoff_code
  handoff ← asks (λ e. provider_secret_verifier e key secret_handoff_code code)
  stored ← map_err unavailable (record_provider_result proof.id result handoff)
  refuse_if (not stored) (sentinel invalid_provider_callback)
  pure (record { handoff_code = code; reauthentication = proof.reauthentication })

unfoldable pub complete_consumed :
    Text
    → (ProviderCodeExchange → M ProviderIdentity)
    → CompleteProviderCallbackInput
    → Option ProviderAttemptProof
    → M ProviderCallbackResult
unfolding verify_callback record_verified
complete_consumed key identity input none = fail (sentinel invalid_provider_callback)
complete_consumed key identity input (some proof) = do
  verified ← attempt (verify_callback identity proof input)
  record_verified key proof verified

abbrev pub identity_of : Option ProviderClient → Option (ProviderCodeExchange → M ProviderIdentity)
identity_of none = none
identity_of (some client) = client.identity

unfoldable pub complete_with :
    Text
    → Option (ProviderCodeExchange → M ProviderIdentity)
    → CompleteProviderCallbackInput
    → M ProviderCallbackResult
unfolding complete_consumed unavailable
complete_with key none input = fail (sentinel provider_login_unavailable)
complete_with key (some identity) input = do
  state ← asks (λ e. provider_secret_verifier e key secret_state input.state)
  proof ← map_err unavailable (consume_provider_state input.provider state)
  complete_consumed key identity input proof

-- The limit counts every callback, including invalid ones.
unfoldable pub complete_provider_callback :
    ProviderLoginService → CompleteProviderCallbackInput → M ProviderCallbackResult
unfolding complete_with
complete_provider_callback s input = do
  refuse_if (not s.has_repository || is_none s.callback_limit || not (key_ready s.verifier_key))
      (sentinel provider_login_unavailable)
  limit_by s.callback_limit input.source
  refuse_if (is_none (provider_authorization input.provider) || is_empty input.state)
      (sentinel invalid_provider_callback)
  complete_with s.verifier_key (identity_of (s.clients input.provider)) input
