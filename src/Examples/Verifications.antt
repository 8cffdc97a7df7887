-- ===== src/Examples/Verifications.antt =====
-- A verification of an address run at a concrete input.
use flowspace_api.Base.{some}
use flowspace_api.Identity.Repository.Challenges.{get_current_challenge}
use flowspace_api.Identity.App.Verification.Accepted.{UsesCode}
use flowspace_api.Identity.App.Verification.{apply_check, consume, mark_if_consumed}
use flowspace_api.Identity.Domain.Challenge.{
  is_open, matches, purpose_claim_account, purpose_password_reset, purpose_reauthenticate, result,
  same_verifier, valid_purpose,
}
use flowspace_api.Identity.Domain.Code.{code_verifier, decimal, digits_from, frame}
use flowspace_api.Identity.Domain.Email.{
  cut_last, is_bare_address, lower, lower_domain, normalize_email,
}
use flowspace_api.Identity.Repository.Accounts.{mark_email_verified, one_row}
use flowspace_api.Identity.Repository.Challenges.{
  consume_challenge, increment_challenge_wrong_guess, stored_challenge,
}
use flowspace_api.Identity.Run.{exec, statement}
use flowspace_api.Identity.Statements.Challenges.{consume_current_challenge}
use flowspace_api.Identity.Statements.Sessions.{find_session_account}
use flowspace_api.Identity.Statements.Challenges
use flowspace_api.Identity.Statements.Accounts
use flowspace_api.Base.{true, false, none, [], ◌∷◌, bytes, ◌≡◌, refl, ◌⊎◌, text_eq}
use flowspace_api.Identity.Run.{World, ok}
use flowspace_api.Identity.Run.Laws.{world_of}
use flowspace_api.Identity.Domain.Challenge.{Challenge, check, code_accepted, purpose_verify_email}
use flowspace_api.Identity.Domain.Code.{valid_verification_code}
use flowspace_api.Identity.Repository.Accounts.{AccountState, get_active_account_for_session}
use flowspace_api.Identity.App.Verification.{VerifyEmailInput, verify}
use flowspace_api.Identity.App.Verification.Accepted.{verify-accepted}
use flowspace_api.Examples.Worlds.{quiet, start, tables, ann, ann_challenge, zeros, first}

-- An account whose address is not verified, with a challenge for it.
abbrev unverified : World
unverified = record start {
  db = record tables {
    accounts = record ann { email_verified_at = none } ∷ [];
    challenges =
        record ann_challenge {
          purpose = purpose_verify_email;
          code_verifier = first 32 (bytes "3:ann9:ann@b.org12:verify-email6:123456");
        }
        ∷ [];
  };
}

abbrev ann_input : VerifyEmailInput
ann_input = record {
  subject = bytes "ann";
  session_id = zeros 2;
  code = bytes "123456";
  source = bytes "1.2.3.4";
}

abbrev verified : World
verified = world_of (verify (zeros 32) ann_input quiet unverified)

verify_run : verify (zeros 32) ann_input quiet unverified ≡ ok false verified
unfolding verify apply_check consume mark_if_consumed is_open matches purpose_claim_account
    purpose_password_reset purpose_reauthenticate result same_verifier valid_purpose code_verifier
    decimal digits_from frame cut_last is_bare_address lower lower_domain normalize_email
    mark_email_verified one_row consume_challenge increment_challenge_wrong_guess stored_challenge
    exec statement Accounts.mark_email_verified consume_current_challenge
    Challenges.increment_challenge_wrong_guess find_session_account flowspace_api.Identity.Run.◌>>=◌
    get_active_account_for_session flowspace_api.Identity.Repository.Transactions.parse_uuid_or
    flowspace_api.Identity.Statements.Sessions.get_active_account_for_session_for_update
    flowspace_api.Identity.Run.query flowspace_api.Identity.Repository.Transactions.row_or text_eq
    valid_verification_code flowspace_api.Identity.Repository.Challenges.get_current_challenge
    Challenges.get_current_challenge_for_update purpose_verify_email
    flowspace_api.Identity.Run.refuse_if flowspace_api.Identity.Run.asks
    flowspace_api.Identity.Run.time_now check
    flowspace_api.Identity.Domain.Challenge.matches_verifier
verify_run = refl

verify-accepted_example :
    (account : AccountState) × (after : World) × (get_active_account_for_session
        (bytes "ann")
        (zeros 2)
        quiet
        unverified
      ≡ ok account after)
    × (valid_verification_code (bytes "123456") ≡ true)
    × ((account.email_verified ≡ true)
        ⊎ ((c : Challenge) × (read : World) × (get_current_challenge
                (bytes "ann")
                purpose_verify_email
                quiet
                after
              ≡ ok (some c) read)
            × UsesCode (zeros 32) ann_input account.email c quiet read verified))
verify-accepted_example = verify-accepted (zeros 32) ann_input quiet unverified verified verify_run
