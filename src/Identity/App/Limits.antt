-- ===== src/Identity/App/Limits.antt =====
-- services/identity/internal/app/limit_service.go. `hex.EncodeToString` of a digest is part of the
-- key, so the key is the digest.
use flowspace_api.Base.{ℕ, ◌*◌, not, ◌==◌, if◌then◌else◌, ◌++◌, length, Text, bytes, is_empty}
use flowspace_api.Identity.Errors.{
  Err, sentinel, joined, limit_unavailable, invalid_limit_key, rate_limited,
}
use flowspace_api.Identity.Run.{M, fail, refuse_if, lift, asks, map_err, ◌>>=◌}
use flowspace_api.Identity.Domain.Challenge.{minute}
use flowspace_api.Identity.Domain.Email.{normalize_email}
use flowspace_api.Identity.Statements.Challenges.{hour}
use flowspace_api.Identity.Statements.Limits.{Limit, record_use, record_login}

-- `errors.Join(ErrLimitUnavailable, err)`
unfoldable pub limit_error : Err → Err
limit_error x = joined (sentinel limit_unavailable) x

abbrev pub hourly : ℕ → ℕ → ℕ → Limit
hourly maximum daily_maximum interval = record {
  maximum = maximum;
  daily_maximum = daily_maximum;
  window = hour;
  interval = interval;
}

unfoldable pub record_limited : Text → Text → Text → Limit → M (Unit {0})
unfolding limit_error
record_limited scope key action l = if is_empty key then fail (sentinel invalid_limit_key) else do
  allowed ← map_err limit_error (record_use scope key action l)
  refuse_if (not allowed) (sentinel rate_limited)

abbrev pub source_scope : Text
source_scope = bytes "source"

abbrev pub account_scope : Text
account_scope = bytes "account"

unfoldable pub signup : Text → M (Unit {0})
unfolding record_limited
signup source = record_limited source_scope source (bytes "signup") (hourly 10 0 0)

unfoldable pub code_request : Text → M (Unit {0})
unfolding record_limited
code_request source = record_limited source_scope source (bytes "code-request") (hourly 60 0 0)

unfoldable pub provider_login_start : Text → M (Unit {0})
unfolding record_limited
provider_login_start source =
    record_limited source_scope source (bytes "provider-login-start") (hourly 60 0 0)

unfoldable pub provider_callback : Text → M (Unit {0})
unfolding record_limited
provider_callback source =
    record_limited source_scope source (bytes "provider-callback") (hourly 120 0 0)

unfoldable pub provider_session_failure : Text → M (Unit {0})
unfolding record_limited
provider_session_failure source =
    record_limited source_scope source (bytes "provider-session-failure") (hourly 100 0 0)

unfoldable pub password_recovery_email_limit : Text → Text → Text → ℕ → ℕ → M (Unit {0})
unfolding record_limited
password_recovery_email_limit email key action maximum daily_maximum =
    if not (length key == 32) then fail (sentinel invalid_limit_key) else do
      normalized ← lift (λ e. normalize_email e email)
      digest ← asks (λ e. e.hmac key (bytes "password-reset-email:" ++ normalized))
      record_limited (bytes "email") digest action (hourly maximum daily_maximum 0)

unfoldable pub password_recovery_email : Text → Text → M (Unit {0})
unfolding password_recovery_email_limit
password_recovery_email email key =
    password_recovery_email_limit email key (bytes "code-request") 60 0

unfoldable pub password_recovery_guess_email : Text → Text → M (Unit {0})
unfolding password_recovery_email_limit
password_recovery_guess_email email key =
    password_recovery_email_limit email key (bytes "code-guess") 10 20

unfoldable pub wrong_code : Text → M (Unit {0})
unfolding record_limited
wrong_code source = record_limited source_scope source (bytes "code-guess") (hourly 100 0 0)

unfoldable pub code_issue : Text → M (Unit {0})
unfolding record_limited
code_issue account = record_limited account_scope account (bytes "code-request") (hourly 5 0 minute)

unfoldable pub account_wrong_code : Text → M (Unit {0})
unfolding record_limited
account_wrong_code account =
    record_limited account_scope account (bytes "code-guess") (hourly 10 20 0)

abbrev pub login_source_limit : Limit
login_source_limit = hourly 60 0 0

abbrev pub login_email_limit : Limit
login_email_limit = record { maximum = 10; daily_maximum = 0; window = 15 * minute; interval = 0 }

unfoldable pub password_login : Text → Text → M (Unit {0})
unfolding limit_error
password_login source email = if is_empty source then fail (sentinel invalid_limit_key) else do
  normalized ← lift (λ e. normalize_email e email)
  digest ← asks (λ e. e.sha256 normalized)
  allowed ← map_err limit_error (record_login source digest login_source_limit login_email_limit)
  refuse_if (not allowed) (sentinel rate_limited)
