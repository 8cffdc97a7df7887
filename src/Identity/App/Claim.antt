-- ===== src/Identity/App/Claim.antt =====
-- services/identity/internal/app/account_claim_service.go.
use flowspace_api.Base.{
  Bool, true, false, not, ◌&&◌, Option, none, some, [], ◌∷◌, if◌then◌else◌, Text, is_none,
}
use flowspace_api.Identity.Errors.{
  Err, sentinel, invalid_password, rate_limited, invalid_claim_code, claim_unavailable,
}
use flowspace_api.Identity.Run.{
  M, pure, fail, refuse_if, asks, lift, map_err, time_now, new_uuid, ◌>>=◌, ◌>>◌,
}
use flowspace_api.Identity.Domain.Email.{normalize_email}
use flowspace_api.Identity.Domain.Code.{valid_verification_code}
use flowspace_api.Identity.Domain.Password.{hash_password}
use flowspace_api.Identity.Domain.Challenge.{
  Challenge, CodeCheck, code_rejected, code_wrong_guess, code_accepted, check,
  purpose_claim_account,
}
use flowspace_api.Identity.Repository.Transactions.{within_transaction}
use flowspace_api.Identity.Repository.Accounts
use flowspace_api.Identity.Repository.Accounts.{
  SubjectAccount, find_account_for_claim, get_account_for_claim, retire_and_revoke_account,
}
use flowspace_api.Identity.Repository.Challenges.{
  get_current_challenge, consume_challenge, increment_challenge_wrong_guess,
}
use flowspace_api.Identity.App.Ports.{Signer, LimitOf, limit_by, key_ready, keep_or}
use flowspace_api.Identity.App.Sessions.{becomes, issue}
use flowspace_api.Identity.App.Signup.{AccountTokens, account_tokens}

pub record AccountClaimService : Type 0 where
  pub has_repository : Bool
  pub signer : Option Signer
  pub source_limit : Option LimitOf
  pub account_limit : Option LimitOf
  pub compromised : Option (Text → M Bool)
  pub verifier_key : Text

-- inbound.ClaimAccountInput
pub record ClaimAccountInput : Type 0 where
  pub email : Text
  pub code : Text
  pub new_password : Text
  pub source : Text

-- `ready`, but for the signer.
unfoldable pub ready : AccountClaimService → Bool
ready s =
    s.has_repository
    && not (is_none s.source_limit)
    && not (is_none s.account_limit)
    && key_ready s.verifier_key

unfoldable pub replace_account : Signer → Text → Text → Text → Text → M AccountTokens
unfolding becomes
replace_account sign old_subject new_subject email hash = do
  retired ← map_err (becomes claim_unavailable) (retire_and_revoke_account old_subject)
  refuse_if (not retired) (sentinel claim_unavailable)
  Accounts.create_account new_subject email hash
  verified ← map_err (becomes claim_unavailable) (Accounts.mark_email_verified new_subject)
  refuse_if (not verified) (sentinel claim_unavailable)
  tokens ← issue sign new_subject
  pure (account_tokens new_subject tokens)

-- Whether the code is invalid, after the check of the challenge.
unfoldable pub settle_claim_check : Challenge → CodeCheck → M Bool
settle_claim_check challenge code_wrong_guess = do
  increment_challenge_wrong_guess challenge.id
  pure true
settle_claim_check challenge code_rejected = pure true
settle_claim_check challenge code_accepted = pure false

-- `checkClaimChallenge` of a challenge that is found.
unfoldable pub check_claim_challenge : Text → Text → Text → Text → Challenge → M Bool
unfolding settle_claim_check
check_claim_challenge verifier_key subject email code challenge =
    if not (valid_verification_code code) then pure true else do
      now ← time_now
      checked ←
          asks (λ e. check e challenge verifier_key subject email purpose_claim_account code now)
      settle_claim_check challenge checked

-- A challenge that another run consumed is an invalid code.
unfoldable pub claim_if_consumed :
    Signer → Text → Text → Text → Text → Bool → M (Option AccountTokens)
unfolding replace_account
claim_if_consumed sign old_subject new_subject email hash false = pure none
claim_if_consumed sign old_subject new_subject email hash true = do
  tokens ← replace_account sign old_subject new_subject email hash
  pure (some tokens)

unfoldable pub claim_challenge :
    Signer → Text → Text → Text → Text → Text → Text → Option Challenge → M (Option AccountTokens)
unfolding check_claim_challenge claim_if_consumed
claim_challenge sign verifier_key old_subject new_subject email code hash none = pure none
claim_challenge sign verifier_key old_subject new_subject email code hash (some challenge) = do
  invalid ← check_claim_challenge verifier_key old_subject email code challenge
  if invalid then pure none else do
    consumed ← consume_challenge challenge.id
    claim_if_consumed sign old_subject new_subject email hash consumed

unfoldable pub claim_account :
    Signer → Text → Text → Text → Text → Text → Option SubjectAccount → M (Option AccountTokens)
unfolding claim_challenge
claim_account sign verifier_key new_subject email code hash none = pure none
claim_account sign verifier_key new_subject email code hash (some account) =
    if account.email_verified then pure none else do
      challenge ← get_current_challenge account.subject purpose_claim_account
      claim_challenge sign verifier_key account.subject new_subject email code hash challenge

-- `AccountClaimService.claim`: `none` is an invalid code.
unfoldable pub claim : Signer → Text → Text → Text → Text → Text → M (Option AccountTokens)
unfolding claim_account
claim sign verifier_key email code hash new_subject = do
  account ← get_account_for_claim email
  claim_account sign verifier_key new_subject email code hash account

unfoldable pub claim_failure : Err → Err
claim_failure x = keep_or (invalid_password ∷ rate_limited ∷ []) claim_unavailable x

unfoldable pub claimed_or_invalid : Option AccountTokens → M AccountTokens
claimed_or_invalid none = fail (sentinel invalid_claim_code)
claimed_or_invalid (some tokens) = pure tokens

-- The steps for the account that is found before the transaction.
unfoldable pub claim_found :
    AccountClaimService → Signer → Text → Text → Text → Option SubjectAccount → M AccountTokens
unfolding claim claim_failure claimed_or_invalid
claim_found s sign email code hash none = fail (sentinel invalid_claim_code)
claim_found s sign email code hash (some account) = do
  refuse_if account.email_verified (sentinel invalid_claim_code)
  map_err claim_failure (limit_by s.account_limit account.subject)
  subject ← new_uuid (sentinel claim_unavailable)
  result ←
      map_err claim_failure (within_transaction (claim sign s.verifier_key email code hash subject))
  claimed_or_invalid result

unfoldable pub claim_unverified_with :
    AccountClaimService → Option Signer → ClaimAccountInput → M AccountTokens
unfolding ready claim_found
claim_unverified_with s none input = fail (sentinel claim_unavailable)
claim_unverified_with s (some sign) input = do
  refuse_if (not (ready s)) (sentinel claim_unavailable)
  limit_by s.source_limit input.source
  email ← lift (λ e. normalize_email e input.email)
  hash ← map_err claim_failure (hash_password input.new_password s.compromised)
  account ← map_err claim_failure (find_account_for_claim email)
  claim_found s sign email input.code hash account

unfoldable pub claim_unverified_account : AccountClaimService → ClaimAccountInput → M AccountTokens
unfolding claim_unverified_with
claim_unverified_account s input = claim_unverified_with s s.signer input
