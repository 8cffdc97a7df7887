-- ===== src/Identity/Domain/Challenge.antt =====
-- services/identity/internal/domain/challenge.go: the rules of a stored code challenge. The methods
-- take the environment, since the verifier is a keyed hash of a library.
pub mod Rules
use flowspace_api.Base.{
  ℕ, zero, suc, ◌+◌, ◌*◌, ◌≡◌, Bool, true, false, ◌&&◌, ◌||◌, not, List, [], ◌∷◌, some, none,
  Option, ltb, ◌==◌, if◌then◌else◌, length, Text, bytes, text_eq, is_empty,
}
use flowspace_api.Identity.Errors.{sentinel, invalid_challenge}
use flowspace_api.Identity.Run.{Env, M, Result, done, refused, fail, pure, asks, lift, ◌>>=◌}
use flowspace_api.Identity.Domain.Email.{normalize_email}
use flowspace_api.Identity.Domain.Code.{valid_verification_code, new_code, code_verifier}

-- The values of CodePurpose.
unfoldable pub purpose_verify_email : Text
purpose_verify_email = bytes "verify-email"

unfoldable pub purpose_claim_account : Text
purpose_claim_account = bytes "claim-account"

unfoldable pub purpose_password_reset : Text
purpose_password_reset = bytes "password-reset"

unfoldable pub purpose_reauthenticate : Text
purpose_reauthenticate = bytes "reauthenticate"

unfoldable pub valid_purpose : Text → Bool
valid_purpose p =
    text_eq p purpose_verify_email
    || text_eq p purpose_claim_account
    || text_eq p purpose_password_reset
    || text_eq p purpose_reauthenticate

-- A nanosecond is 1.
abbrev pub second : ℕ
second = 1000000000

abbrev pub minute : ℕ
minute = 60 * second

-- A stored code challenge. A zero Challenge rejects every code.
pub record Challenge : Type 0 where
  pub id : Text
  pub email : Text
  pub verifier : Text
  pub wrong_guesses : ℕ
  pub expires_at : ℕ

abbrev pub zero_challenge : Challenge
zero_challenge = record { id = []; email = []; verifier = []; wrong_guesses = 0; expires_at = 0 }

pub data CodeCheck : Type 0 where
  code_rejected code_wrong_guess code_accepted : CodeCheck

abbrev pub max_wrong_guesses : ℕ
max_wrong_guesses = 5

-- The arguments of a check that the compared verifier depends on.
unfoldable pub same_verifier : Env → Result Text → Text → Text → Text → Text → Text → Bool
same_verifier e (refused x) key subject purpose code expected = false
same_verifier e (done email) key subject purpose code expected =
    text_eq (code_verifier e key subject email purpose code) expected

unfoldable pub matches_verifier : Env → Text → Text → Text → Text → Text → Text → Bool
unfolding same_verifier
matches_verifier e key subject address purpose code expected =
    if not (length key == 32)
      || is_empty subject
      || not (valid_purpose purpose)
      || not (valid_verification_code code)
    then false
    else same_verifier e (normalize_email e address) key subject purpose code expected

unfoldable pub verify_challenge : Env → Text → Text → Text → Text → Text → Text → ℕ → ℕ → Bool
verify_challenge e key subject address purpose code expected expires_at now =
    ltb now expires_at && matches_verifier e key subject address purpose code expected

unfoldable pub is_open : Challenge → Text → ℕ → Bool
is_open c email now =
    text_eq c.email email && ltb c.wrong_guesses max_wrong_guesses && ltb now c.expires_at

unfoldable pub result : Bool → CodeCheck
result matched = if not matched then code_wrong_guess else code_accepted

unfoldable pub matches : Env → Challenge → Text → Text → Text → Text → Text → Bool
matches e c key subject email purpose code =
    matches_verifier e key subject email purpose code c.verifier

-- Check compares the code only when the challenge is open.
unfoldable pub check : Env → Challenge → Text → Text → Text → Text → Text → ℕ → CodeCheck
unfolding is_open result matches
check e c key subject email purpose code now =
    if not (is_open c email now)
    then code_rejected
    else result (matches e c key subject email purpose code)

-- CheckInFixedTime compares first.
unfoldable pub check_in_fixed_time :
    Env → Challenge → Text → Text → Text → Text → Text → ℕ → CodeCheck
unfolding is_open result matches
check_in_fixed_time e c key subject email purpose code now =
    let matched = matches e c key subject email purpose code in
    if not (is_open c email now) then code_rejected else result matched

or_invalid_challenge : Result Text → Result Text
or_invalid_challenge (done email) = done email
or_invalid_challenge (refused x) = refused (sentinel invalid_challenge)

-- The code, its verifier and the expiry of a new challenge.
unfoldable pub new_challenge : Text → Text → Text → Text → ℕ → M (Text × Text × ℕ)
unfolding or_invalid_challenge
new_challenge key subject address purpose now =
    if not (length key == 32) || is_empty subject || not (valid_purpose purpose)
    then fail (sentinel invalid_challenge)
    else do
      email ← lift (λ e. or_invalid_challenge (normalize_email e address))
      code ← new_code
      verifier ← asks (λ e. code_verifier e key subject email purpose code)
      pure (code, verifier, now + 10 * minute)
