-- ===== src/Identity/Http/Accounts.antt =====
-- The handlers of signup_handler.go, email_verification_handler.go, account_claim_handler.go and
-- password_recovery_handler.go of services/identity/internal/adapter/in/http. The messages of the
-- generated code are records of the fields that a handler reads or sets.
use flowspace_api.Base.{Bool, true, false, List, Option, Text, bytes}
use flowspace_api.Identity.App.Signup.{AccountTokens}
use flowspace_api.Identity.App.Signup.{SignupService, sign_up}
use flowspace_api.Identity.App.Codes.{
  CodeService, request_email_verification_code, request_unverified_account_claim_code,
  request_password_reset_code,
}
use flowspace_api.Identity.App.Verification.{EmailVerificationService, verify_email}
use flowspace_api.Identity.App.Claim.{AccountClaimService, claim_unverified_account}
use flowspace_api.Identity.App.PasswordReset.{PasswordResetService}
use flowspace_api.Identity.App.PasswordReset
use flowspace_api.Identity.Http.Source.{Net}
use flowspace_api.Identity.Http.Status.{
  status, unavailable_code, signup_rpc_error, verification_code_rpc_error, verify_email_rpc_error,
  claim_code_rpc_error, account_claim_rpc_error, password_reset_code_rpc_error,
  password_reset_rpc_error,
}
use flowspace_api.Identity.Http.Handler.{
  H, reply, ◌>>=◌, ◌>>◌, RequestContext, Verifier, authenticate, required, no_idempotency_key,
  source_of_request, call, available,
}

pub record CreateAccountRequest : Type 0 where
  pub email : Text
  pub password : Text

-- The response of CreateAccount and of ClaimUnverifiedAccount.
pub record AccountResponse : Type 0 where
  pub tokens : AccountTokens
  pub email_verified : Bool

pub record ClaimUnverifiedAccountRequest : Type 0 where
  pub email : Text
  pub code : Text
  pub new_password : Text

-- The answer of ResetPassword.
pub record ResetPasswordResponse : Type 0 where
  pub password_changed : Bool
  pub sessions_revoked : Bool

module _ (net : Net) (trusted : List net.Prefix) where
  unfoldable pub create_account :
      RequestContext → Option CreateAccountRequest → SignupService → H AccountResponse
  unfolding no_idempotency_key required source_of_request call
  create_account ctx request service = do
    no_idempotency_key ctx
    r ← required request
    source ← source_of_request net trusted ctx
    tokens ←
        call signup_rpc_error
          (sign_up service (record { email = r.email; password = r.password; source = source }))
    reply (record { tokens = tokens; email_verified = false })

  -- The request is none or has no field.
  unfoldable pub request_email_verification_code_rpc :
      RequestContext → Option Verifier → Option (Unit {0}) → Option CodeService → H Bool
  unfolding required authenticate source_of_request available call
  request_email_verification_code_rpc ctx verifier request service = do
    required request
    identity ← authenticate verifier ctx.authorization
    source ← source_of_request net trusted ctx
    s ← available (status unavailable_code (bytes "verification code unavailable")) service
    call verification_code_rpc_error
        (request_email_verification_code s identity.subject identity.session_id source)
    reply true

  -- The request is its code.
  unfoldable pub verify_email_rpc :
      RequestContext → Option Verifier → Option Text → Option EmailVerificationService → H Bool
  unfolding required authenticate source_of_request available call
  verify_email_rpc ctx verifier request service = do
    code ← required request
    identity ← authenticate verifier ctx.authorization
    source ← source_of_request net trusted ctx
    s ← available (status unavailable_code (bytes "email verification unavailable")) service
    call verify_email_rpc_error (
        verify_email s (record {
          subject = identity.subject;
          session_id = identity.session_id;
          source = source;
          code = code;
        }))
    reply true

  -- The request is its address, here and in the request for a reset code.
  unfoldable pub request_claim_code_rpc : RequestContext → Option Text → Option CodeService → H Bool
  unfolding required source_of_request available call
  request_claim_code_rpc ctx request service = do
    email ← required request
    source ← source_of_request net trusted ctx
    s ← available (status unavailable_code (bytes "claim code unavailable")) service
    call claim_code_rpc_error (request_unverified_account_claim_code s email source)
    reply true

  unfoldable pub claim_account_rpc :
      RequestContext
      → Option ClaimUnverifiedAccountRequest
      → Option AccountClaimService
      → H AccountResponse
  unfolding no_idempotency_key required source_of_request available call
  claim_account_rpc ctx request service = do
    no_idempotency_key ctx
    r ← required request
    source ← source_of_request net trusted ctx
    s ← available (status unavailable_code (bytes "account claim unavailable")) service
    tokens ← call account_claim_rpc_error (
        claim_unverified_account s (record {
          email = r.email;
          code = r.code;
          new_password = r.new_password;
          source = source;
        }))
    reply (record { tokens = tokens; email_verified = true })

  unfoldable pub request_password_reset_code_rpc :
      RequestContext → Option Text → Option CodeService → H Bool
  unfolding required source_of_request available call
  request_password_reset_code_rpc ctx request service = do
    email ← required request
    source ← source_of_request net trusted ctx
    s ← available (status unavailable_code (bytes "password recovery unavailable")) service
    call password_reset_code_rpc_error (request_password_reset_code s email source)
    reply true

  -- The request has the fields of the one to claim an account.
  unfoldable pub reset_password_rpc :
      RequestContext
      → Option ClaimUnverifiedAccountRequest
      → Option PasswordResetService
      → H ResetPasswordResponse
  unfolding required source_of_request available call
  reset_password_rpc ctx request service = do
    r ← required request
    source ← source_of_request net trusted ctx
    s ← available (status unavailable_code (bytes "password reset unavailable")) service
    call password_reset_rpc_error (
        PasswordReset.reset_password s (record {
          email = r.email;
          code = r.code;
          new_password = r.new_password;
          source = source;
        }))
    reply (record { password_changed = true; sessions_revoked = true })
