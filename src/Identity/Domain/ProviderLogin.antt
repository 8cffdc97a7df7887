-- ===== src/Identity/Domain/ProviderLogin.antt =====
-- services/identity/internal/domain/provider_login.go.
pub mod Secrets
use flowspace_api.Base.{
  ℕ, Bool, true, false, not, ◌&&◌, ◌||◌, List, [], ◌∷◌, Option, none, some, ◌==◌, if◌then◌else◌,
  length, Text, bytes, text_eq, is_empty, ◌++◌,
}
use flowspace_api.Encoding.Base64.{raw_url, encode, decode}
use flowspace_api.Identity.Errors.{sentinel, invalid_provider, code_generation_unavailable}
use flowspace_api.Identity.Run.{Env, M, Result, done, refused, pure, fail, rand_read, ◌>>=◌}
use flowspace_api.Identity.Domain.Email.{normalize_email}
use flowspace_api.Identity.Domain.Code.{frame}

unfoldable pub provider_google : Text
provider_google = bytes "google"

unfoldable pub provider_github : Text
provider_github = bytes "github"

unfoldable pub secret_attempt_token : Text
secret_attempt_token = bytes "provider-attempt-token"

unfoldable pub secret_state : Text
secret_state = bytes "provider-state"

unfoldable pub secret_handoff_code : Text
secret_handoff_code = bytes "provider-handoff-code"

-- The fresh proofs for one provider login attempt. Only Google attempts receive a nonce.
pub record ProviderAttemptSecrets : Type 0 where
  pub attempt_token : Text
  pub state : Text
  pub code_verifier : Text
  pub nonce : Text

unfoldable pub new_provider_handoff_code : M Text
new_provider_handoff_code = do
  random ← rand_read 32 (sentinel code_generation_unavailable)
  pure (encode raw_url random)

-- The nonce is the last target of the loop, for Google only.
unfoldable pub new_nonce : Text → M Text
unfolding new_provider_handoff_code
new_nonce provider = if text_eq provider provider_google then new_provider_handoff_code else pure []

unfoldable pub new_provider_attempt : Text → M ProviderAttemptSecrets
unfolding new_nonce
new_provider_attempt provider =
    if not (text_eq provider provider_google) && not (text_eq provider provider_github)
    then fail (sentinel invalid_provider)
    else do
      token ← new_provider_handoff_code
      state ← new_provider_handoff_code
      verifier ← new_provider_handoff_code
      nonce ← new_nonce provider
      pure
          (record { attempt_token = token; state = state; code_verifier = verifier; nonce = nonce })

abbrev pub is_32_bytes : Option Text → Bool
is_32_bytes none = false
is_32_bytes (some s) = length s == 32

unfoldable pub valid_provider_secret : Text → Bool
valid_provider_secret value = is_32_bytes (decode true raw_url value)

-- `strings.HasSuffix`.
unfoldable pub has_suffix : Text → Text → Bool
has_suffix [] suffix = is_empty suffix
has_suffix (c ∷ s) suffix = text_eq (c ∷ s) suffix || has_suffix s suffix

unfoldable pub gmail_suffix : Text
gmail_suffix = bytes "@gmail.com"

-- The normalized address and whether the account starts verified; `none` is the result `false`.
unfoldable pub usable_email : Text → Text → Result Text → Option (Text × Bool)
usable_email provider hosted_domain (refused x) = none
usable_email provider hosted_domain (done normalized) = some (
  normalized,
  text_eq provider provider_google
      && (has_suffix normalized gmail_suffix || not (is_empty hosted_domain)),
)

unfoldable pub new_provider_account_email : Env → Text → Text → Bool → Text → Option (Text × Bool)
unfolding usable_email
new_provider_account_email e provider email verified hosted_domain =
    if not verified then none else usable_email provider hosted_domain (normalize_email e email)

unfoldable pub provider_code_challenge : Env → Text → Text
provider_code_challenge e verifier = encode raw_url (e.sha256 verifier)

unfoldable pub provider_secret_verifier : Env → Text → Text → Text → Text
provider_secret_verifier e key purpose value = e.hmac key (frame (purpose ∷ value ∷ []))
