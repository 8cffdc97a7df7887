-- ===== src/Identity/App/CodeReauthentication.antt =====
-- services/identity/internal/app/code_reauthentication_service.go.
pub mod Accepted
use flowspace_api.Base.{
  ℕ, ◌+◌, Bool, true, false, not, ◌&&◌, ◌||◌, Option, none, some, [], ◌∷◌, ltb, if◌then◌else◌, Text,
  is_empty, is_none,
}
use flowspace_api.Identity.Errors.{
  Err, sentinel, is, unauthenticated, reauthentication_required, reauthentication_unavailable,
  reauthentication_email_unverified, invalid_reauthentication_code, rate_limited, limit_unavailable,
}
use flowspace_api.Identity.Run.{
  Env, World, M, ok, err, pure, fail, refuse_if, asks, map_err, ◌>>=◌, ◌>>◌,
}
use flowspace_api.Identity.Domain.Code.{valid_verification_code}
use flowspace_api.Identity.Domain.Challenge.{
  Challenge, CodeCheck, code_rejected, code_wrong_guess, code_accepted, check, new_challenge,
  purpose_reauthenticate, minute,
}
use flowspace_api.Identity.Domain.Reauthentication.{ReauthenticationWindow, expires_at, is_zero}
use flowspace_api.Identity.Statements.Limits.{plain_statement}
use flowspace_api.Identity.Statements.Challenges.{
  can_issue_code, get_latest_reauthentication_code_issue,
}
use flowspace_api.Identity.Repository.Transactions.{
  open_transaction, require_commit_before, within_transaction, within_reauthentication_transaction,
}
use flowspace_api.Identity.Repository.Accounts.{AccountState, get_active_account_for_session}
use flowspace_api.Identity.Repository.Sessions.{lock_session_for_reauthentication}
use flowspace_api.Identity.Repository.Challenges.{
  replace_and_delete_deliveries, get_current_challenge, consume_challenge,
  increment_challenge_wrong_guess,
}
use flowspace_api.Identity.App.Ports.{Protector, LimitOf, limit_by, key_ready, keep_or}
use flowspace_api.Identity.App.Codes.{deliver_code}
use flowspace_api.Identity.App.Reauthentication.{open_window, session_reauthentication_deadline}

pub record CodeReauthenticationService : Type 0 where
  pub has_repository : Bool
  pub protector : Option Protector
  pub request_limit : Option LimitOf
  pub guess_source_limit : Option LimitOf
  pub guess_account_limit : Option LimitOf
  pub verifier_key : Text

-- inbound.RequestReauthenticationCodeInput
pub record RequestReauthenticationCodeInput : Type 0 where
  pub subject : Text
  pub session_id : Text
  pub source : Text

-- inbound.ReauthenticateWithCodeInput
pub record ReauthenticateWithCodeInput : Type 0 where
  pub subject : Text
  pub session_id : Text
  pub code : Text
  pub source : Text

unfoldable pub code_reauthentication_error : Err → Err
code_reauthentication_error x =
    if is x reauthentication_required
    then sentinel unauthenticated
    else keep_or
        (invalid_reauthentication_code ∷ reauthentication_email_unverified ∷ rate_limited
          ∷ limit_unavailable ∷ unauthenticated ∷ [])
        reauthentication_unavailable x

-- `CodeReauthenticationService.queue`
unfoldable pub queue_reauthentication_code : Protector → Text → Text → Text → ℕ → M (Unit {0})
unfolding deliver_code
queue_reauthentication_code protect verifier_key subject email now = do
  (code, verifier, expires) ← new_challenge verifier_key subject email purpose_reauthenticate now
  replace_and_delete_deliveries subject purpose_reauthenticate
  deliver_code protect purpose_reauthenticate subject email verifier code

-- `!last.IsZero() && now.Before(last.Add(time.Minute))`
unfoldable pub issued_just_now : ℕ → ℕ → Bool
issued_just_now last now = not (is_zero last) && ltb now (last + minute)

-- `CodeReauthenticationService.issue` after the address was found verified.
unfoldable pub issue_unless_just_now :
    Protector
    → Text
    → RequestReauthenticationCodeInput
    → ReauthenticationWindow
    → ℕ
    → Text
    → ℕ
    → M (Unit {0})
unfolding queue_reauthentication_code issued_just_now session_reauthentication_deadline
issue_unless_just_now protect verifier_key input window now email last =
    if issued_just_now last now then pure tt else do
      allowed ← can_issue_code input.subject
      refuse_if (not allowed) (sentinel rate_limited)
      require_commit_before (session_reauthentication_deadline window)
      queue_reauthentication_code protect verifier_key input.subject email now

unfoldable pub issue_reauthentication_code :
    Protector → Option LimitOf → Text → RequestReauthenticationCodeInput → M (Unit {0})
unfolding issue_unless_just_now
issue_reauthentication_code protect limit verifier_key input = do
  (window, now) ← lock_session_for_reauthentication input.subject input.session_id
  account ← get_active_account_for_session input.subject input.session_id
  limit_by limit input.source
  refuse_if (not account.email_verified) (sentinel reauthentication_email_unverified)
  last ← get_latest_reauthentication_code_issue input.subject
  issue_unless_just_now protect verifier_key input window now account.email last

unfoldable pub request_code_with :
    CodeReauthenticationService → Option Protector → RequestReauthenticationCodeInput → M (Unit {0})
unfolding issue_reauthentication_code code_reauthentication_error
request_code_with s none input = fail (sentinel reauthentication_unavailable)
request_code_with s (some protect) input = do
  refuse_if (not s.has_repository || is_none s.request_limit || not (key_ready s.verifier_key))
      (sentinel reauthentication_unavailable)
  map_err code_reauthentication_error (
      within_transaction (issue_reauthentication_code protect s.request_limit s.verifier_key input))

unfoldable pub request_reauthentication_code :
    CodeReauthenticationService → RequestReauthenticationCodeInput → M (Unit {0})
unfolding request_code_with
request_reauthentication_code s input = do
  refuse_if (is_empty input.subject || is_empty input.session_id) (sentinel unauthenticated)
  request_code_with s s.protector input

-- The challenge that accepted the code, and none for an invalid code.
unfoldable pub apply_code_check : Challenge → CodeCheck → M (Option Challenge)
apply_code_check challenge code_wrong_guess = do
  increment_challenge_wrong_guess challenge.id
  pure none
apply_code_check challenge code_rejected = pure none
apply_code_check challenge code_accepted = pure (some challenge)

unfoldable pub verify_code :
    Text → ReauthenticateWithCodeInput → Text → Option Challenge → ℕ → M (Option Challenge)
unfolding apply_code_check
verify_code verifier_key input email none now = pure none
verify_code verifier_key input email (some challenge) now = do
  checked ← asks (λ e.
      check e challenge verifier_key input.subject email purpose_reauthenticate input.code now)
  apply_code_check challenge checked

unfoldable pub check_code :
    CodeReauthenticationService → ReauthenticateWithCodeInput → M (Option Challenge)
unfolding verify_code
check_code s input = do
  (window, now) ← lock_session_for_reauthentication input.subject input.session_id
  account ← get_active_account_for_session input.subject input.session_id
  limit_by s.guess_source_limit input.source
  limit_by s.guess_account_limit input.subject
  if not account.email_verified || not (valid_verification_code input.code) then pure none else do
    found ← get_current_challenge input.subject purpose_reauthenticate
    verify_code s.verifier_key input account.email found now

-- The variables that the work of the transaction sets: the expiry of the challenge and of the
-- session, and none for an invalid code.
unfoldable pub open_with_consumed :
    ReauthenticateWithCodeInput → Challenge → Bool → M (Option (ℕ × ℕ))
unfolding open_window
open_with_consumed input challenge false = pure none
open_with_consumed input challenge true = do
  session_expiry ← open_window input.subject input.session_id
  require_commit_before challenge.expires_at
  pure (some (challenge.expires_at, session_expiry))

unfoldable pub open_with_challenge :
    ReauthenticateWithCodeInput → Option Challenge → M (Option (ℕ × ℕ))
unfolding open_with_consumed
open_with_challenge input none = pure none
open_with_challenge input (some challenge) = do
  consumed ← consume_challenge challenge.id
  open_with_consumed input challenge consumed

-- The work of the transaction.
unfoldable pub prove_code :
    CodeReauthenticationService → ReauthenticateWithCodeInput → M (Option (ℕ × ℕ))
unfolding check_code open_with_challenge
prove_code s input = do challenge ← check_code s input; open_with_challenge input challenge

unfoldable pub code_reauthentication_commit_error : Err → ℕ → ℕ → Err
unfolding code_reauthentication_error
code_reauthentication_commit_error x challenge_expiry session_expiry =
    if is x reauthentication_required
      && not (is_zero challenge_expiry)
      && ltb challenge_expiry session_expiry
    then sentinel invalid_reauthentication_code
    else code_reauthentication_error x

-- What the captured variables hold when the transaction ends: their zero values, unless the work
-- came to its end.
unfoldable pub captured : M (Option (ℕ × ℕ)) → Env → World → ℕ × ℕ
captured work e w = elim ((plain_statement >> (open_transaction >> work)) e w) [
  | ok (some expiries) v ↦ expiries
  | ok none v ↦ (0, 0)
  | err x v ↦ (0, 0)
]

unfoldable pub prove_code_in_transaction :
    CodeReauthenticationService
    → ReauthenticateWithCodeInput
    → M (Option (ℕ × ℕ) × ReauthenticationWindow)
unfolding prove_code code_reauthentication_commit_error captured
prove_code_in_transaction s input e w =
    let (challenge_expiry, session_expiry) = captured (prove_code s input) e w in
    map_err (λ x. code_reauthentication_commit_error x challenge_expiry session_expiry)
      (within_reauthentication_transaction (prove_code s input)) e w

-- The answer is the time at which the window closes.
unfoldable pub reauthenticate_with_code :
    CodeReauthenticationService → ReauthenticateWithCodeInput → M ℕ
unfolding prove_code_in_transaction
reauthenticate_with_code s input = do
  refuse_if (is_empty input.subject || is_empty input.session_id) (sentinel unauthenticated)
  refuse_if
      (not s.has_repository
        || is_none s.guess_source_limit
        || is_none s.guess_account_limit
        || not (key_ready s.verifier_key))
      (sentinel reauthentication_unavailable)
  (proved, window) ← prove_code_in_transaction s input
  refuse_if (is_none proved) (sentinel invalid_reauthentication_code)
  pure (expires_at window)
