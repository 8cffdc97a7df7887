-- ===== src/Identity/Http/Status.antt =====
-- The gRPC statuses of the errors of the services (the RPCError functions of
-- services/identity/internal/adapter/in/http, and in/grpc/session_check_handler.go).
use flowspace_api.Base.{List, [], ◌∷◌, if◌then◌else◌, Text, bytes}
use flowspace_api.Identity.Errors

pub data Code : Type 0 where
  ok_code canceled_code invalid_argument_code deadline_exceeded_code already_exists_code
        permission_denied_code resource_exhausted_code failed_precondition_code unavailable_code
        unauthenticated_code :
      Code

-- A status with its message; one for a field of the request, with its reason; one with a reason for
-- clients; and `status.FromContextError`, whose message is the text of the error.
pub data Status : Type 0 where
  status : Code → Text → Status
  invalid_field : Text → Text → Status
  with_reason : Code → Text → Text → Status
  context_status : Code → Status

abbrev pub Cases : Type 0
Cases = List (Errors.Sentinel × Status)

-- A switch on `errors.Is` that ends with the errors of the context and `codes.Unavailable`.
unfoldable pub rpc_error : Cases → Text → Errors.Err → Status
unfolding Errors.is
rpc_error [] message x =
    if Errors.is x Errors.deadline_exceeded
    then context_status deadline_exceeded_code
    else if Errors.is x Errors.canceled
    then context_status canceled_code
    else status unavailable_code message
rpc_error ((s, answer) ∷ cases) message x =
    if Errors.is x s then answer else rpc_error cases message x

abbrev pub is_invalid : Text
is_invalid = bytes "is invalid"

abbrev pub breaks_policy : Text
breaks_policy = bytes "does not meet the policy"

abbrev pub authentication_required : Status
authentication_required = status unauthenticated_code (bytes "authentication required")

abbrev pub exhausted : Text → Status
exhausted message = status resource_exhausted_code message

unfoldable pub signup_rpc_error : Errors.Err → Status
unfolding rpc_error
signup_rpc_error =
    rpc_error
      ((Errors.account_exists, status already_exists_code (bytes "account already exists"))
        ∷ (Errors.invalid_email, invalid_field (bytes "email") is_invalid)
        ∷ (Errors.invalid_password, invalid_field (bytes "password") breaks_policy)
        ∷ (Errors.rate_limited, exhausted (bytes "signup limit exceeded"))
        ∷ [])
      (bytes "signup unavailable")

unfoldable pub verification_code_rpc_error : Errors.Err → Status
unfolding rpc_error
verification_code_rpc_error =
    rpc_error
      ((Errors.unauthenticated, authentication_required)
        ∷ (
          Errors.email_already_verified,
          status failed_precondition_code (bytes "email is already verified"),
        )
        ∷ (Errors.rate_limited, exhausted (bytes "verification code limit exceeded"))
        ∷ [])
      (bytes "verification code unavailable")

unfoldable pub verify_email_rpc_error : Errors.Err → Status
unfolding rpc_error
verify_email_rpc_error =
    rpc_error
      ((Errors.unauthenticated, authentication_required)
        ∷ (
          Errors.invalid_verification_code,
          status invalid_argument_code (bytes "invalid verification code"),
        )
        ∷ (Errors.rate_limited, exhausted (bytes "verification code limit exceeded"))
        ∷ [])
      (bytes "email verification unavailable")

unfoldable pub claim_code_rpc_error : Errors.Err → Status
unfolding rpc_error
claim_code_rpc_error =
    rpc_error
      ((Errors.invalid_email, invalid_field (bytes "email") is_invalid)
        ∷ (Errors.rate_limited, exhausted (bytes "claim code limit exceeded"))
        ∷ [])
      (bytes "claim code unavailable")

unfoldable pub account_claim_rpc_error : Errors.Err → Status
unfolding rpc_error
account_claim_rpc_error =
    rpc_error
      ((Errors.invalid_email, invalid_field (bytes "email") is_invalid)
        ∷ (Errors.invalid_password, invalid_field (bytes "new_password") breaks_policy)
        ∷ (Errors.invalid_claim_code, status invalid_argument_code (bytes "invalid claim code"))
        ∷ (Errors.rate_limited, exhausted (bytes "claim limit exceeded"))
        ∷ [])
      (bytes "account claim unavailable")

unfoldable pub password_reset_code_rpc_error : Errors.Err → Status
unfolding rpc_error
password_reset_code_rpc_error =
    rpc_error
      ((Errors.invalid_email, invalid_field (bytes "email") is_invalid)
        ∷ (Errors.rate_limited, exhausted (bytes "recovery request limit exceeded"))
        ∷ [])
      (bytes "password recovery unavailable")

unfoldable pub password_reset_rpc_error : Errors.Err → Status
unfolding rpc_error
password_reset_rpc_error =
    rpc_error
      ((Errors.invalid_email, invalid_field (bytes "email") is_invalid)
        ∷ (Errors.invalid_password, invalid_field (bytes "new_password") breaks_policy)
        ∷ (
          Errors.invalid_password_reset_code,
          status invalid_argument_code (bytes "invalid recovery code"),
        )
        ∷ (Errors.rate_limited, exhausted (bytes "recovery attempt limit exceeded"))
        ∷ [])
      (bytes "password reset unavailable")

unfoldable pub password_login_rpc_error : Errors.Err → Status
unfolding rpc_error
password_login_rpc_error =
    rpc_error
      ((Errors.invalid_email, invalid_field (bytes "email") is_invalid)
        ∷ (Errors.invalid_password, invalid_field (bytes "password") is_invalid)
        ∷ (Errors.rate_limited, exhausted (bytes "password login limit exceeded"))
        ∷ (Errors.invalid_credentials, status unauthenticated_code (bytes "invalid credentials"))
        ∷ [])
      (bytes "password login unavailable")

unfoldable pub refresh_rpc_error : Errors.Err → Status
unfolding rpc_error
refresh_rpc_error =
    rpc_error
      ((Errors.invalid_refresh_token, invalid_field (bytes "refresh_token") is_invalid)
        ∷ (
          Errors.unauthenticated_refresh,
          status unauthenticated_code (bytes "invalid refresh token"),
        )
        ∷ [])
      (bytes "refresh unavailable")

unfoldable pub logout_rpc_error : Errors.Err → Status
unfolding rpc_error
logout_rpc_error =
    rpc_error ((Errors.unauthenticated, authentication_required) ∷ []) (bytes "logout unavailable")

unfoldable pub provider_login_rpc_error : Errors.Err → Status
unfolding rpc_error
provider_login_rpc_error =
    rpc_error
      ((Errors.invalid_provider, invalid_field (bytes "provider") is_invalid)
        ∷ (Errors.rate_limited, exhausted (bytes "provider login limit exceeded"))
        ∷ [])
      (bytes "provider login unavailable")

unfoldable pub provider_session_rpc_error : Errors.Err → Status
unfolding rpc_error
provider_session_rpc_error =
    rpc_error
      ((Errors.invalid_attempt_token, invalid_field (bytes "attempt_token") is_invalid)
        ∷ (Errors.invalid_handoff_code, invalid_field (bytes "handoff_code") is_invalid)
        ∷ (
          Errors.provider_handoff_rejected,
          status unauthenticated_code (bytes "invalid provider handoff"),
        )
        ∷ (
          Errors.provider_account_unavailable,
          status failed_precondition_code (
              bytes
                "Unable to complete provider login. Check the provider email or sign in through another method to link the provider."),
        )
        ∷ (Errors.rate_limited, exhausted (bytes "provider session limit exceeded"))
        ∷ [])
      (bytes "provider login unavailable")

abbrev pub provider_proof_failed : Status
provider_proof_failed = status failed_precondition_code (bytes "provider re-authentication failed")

unfoldable pub reauthentication_rpc_error : Errors.Err → Status
unfolding rpc_error
reauthentication_rpc_error =
    rpc_error
      ((Errors.invalid_reauthentication_code, invalid_field (bytes "code") is_invalid)
        ∷ (Errors.invalid_password, invalid_field (bytes "password") is_invalid)
        ∷ (Errors.invalid_provider, invalid_field (bytes "provider") is_invalid)
        ∷ (Errors.invalid_attempt_token, invalid_field (bytes "attempt_token") is_invalid)
        ∷ (Errors.invalid_handoff_code, invalid_field (bytes "handoff_code") is_invalid)
        ∷ (Errors.invalid_credentials, status invalid_argument_code (bytes "invalid credentials"))
        ∷ (
          Errors.reauthentication_email_unverified,
          status failed_precondition_code (bytes "verified email required"),
        )
        ∷ (Errors.provider_handoff_rejected, provider_proof_failed)
        ∷ (Errors.provider_account_unavailable, provider_proof_failed)
        ∷ (Errors.rate_limited, exhausted (bytes "re-authentication limit exceeded"))
        ∷ (
          Errors.reauthentication_required,
          with_reason permission_denied_code (bytes "re-authentication required")
              (bytes "REAUTHENTICATION_REQUIRED"),
        )
        ∷ (Errors.unauthenticated, authentication_required)
        ∷ [])
      (bytes "re-authentication unavailable")

unfoldable pub session_check_rpc_error : Errors.Err → Status
unfolding rpc_error
session_check_rpc_error =
    rpc_error ((Errors.unauthenticated, authentication_required) ∷ [])
      (bytes "session check unavailable")
