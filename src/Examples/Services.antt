-- ===== src/Examples/Services.antt =====
-- Services run at concrete inputs.
use flowspace_api.Base.{Option}
use flowspace_api.Identity.Repository.Accounts.{PasswordRecoveryAccount}
use flowspace_api.Identity.Run.{time_now}
use flowspace_api.Identity.Run.{
  ◌>>=◌, query, refuse_if, asks, time_now, check_context, exec, lift, map_err, rand_read, statement,
}
use flowspace_api.Identity.Repository.Accounts.{
  get_account_for_password_recovery, cut_email, one_row, queue_password_change_notice,
  revoke_password_sessions, update_password_hash,
}
use flowspace_api.Identity.Domain.Email.{
  cut, cut_last, is_bare_address, lower, lower_domain, normalize_email,
}
use flowspace_api.Identity.Statements.Accounts.{get_recovery_account_for_update}
use flowspace_api.Base.{text_eq}
use flowspace_api.Identity.Repository.Challenges.{
  get_current_challenge, consume_challenge, delete_challenge_delivery,
  increment_challenge_wrong_guess, replace_challenge, stored_challenge,
}
use flowspace_api.Identity.Statements.Challenges.{
  get_current_challenge_for_update, consume_current_challenge, replace_current_challenge,
}
use flowspace_api.Identity.Domain.Challenge.{
  matches_verifier, valid_purpose, purpose_verify_email, purpose_claim_account, is_open, matches,
  purpose_reauthenticate, result, same_verifier,
}
use flowspace_api.Encoding.Base64.{encode, letter}
use flowspace_api.Encoding.Utf8.{lead, rune_count, valid_from, valid_string}
use flowspace_api.Identity.App.PasswordReset.{
  apply_password_reset, challenge_or_zero, reset_challenge, reset_if_consumed, reset_subject,
  reset_verified, settle_reset_check, verify_reset_code,
}
use flowspace_api.Identity.Domain.Code.{
  code_verifier, decimal, digits_from, frame, valid_verification_code,
}
use flowspace_api.Identity.Domain.Password.{
  common_passwords_v1, hash_password, parameters_part, scheme_part, stored_password,
  validate_normal, validate_password, version_part,
}
use flowspace_api.Identity.Repository.Transactions.{parse_uuid_or, row_or}
use flowspace_api.Identity.Statements.Outbox.{notice_for}
use flowspace_api.Identity.Statements.Sessions.{revoke_account_sessions}
use flowspace_api.Identity.Statements.Deliveries
use flowspace_api.Identity.Statements.Challenges
use flowspace_api.Identity.Statements.Outbox
use flowspace_api.Identity.Statements.Accounts
use flowspace_api.Base.{ℕ, true, false, some, bytes, ◌≡◌, refl, All}
use flowspace_api.Identity.Run.{World, ok, pure}
use flowspace_api.Identity.Run.Laws.{world_of}
use flowspace_api.Identity.Domain.Challenge.{
  Challenge, check_in_fixed_time, code_accepted, purpose_password_reset,
}
use flowspace_api.Identity.App.PasswordReset.{PasswordResetService, reset}
use flowspace_api.Identity.App.PasswordReset.Effects.{HasEnded, reset-accepted}
use flowspace_api.Examples.Worlds.{quiet, start, zeros}

abbrev resets : PasswordResetService
resets = record {
  has_repository = true;
  source_limit = some (λ s. pure tt);
  email_limit = some (λ s. pure tt);
  account_limit = some (λ s. pure tt);
  compromised = some (λ p. pure false);
  verifier_key = zeros 32;
}

abbrev after_reset : World
after_reset =
    world_of
      (reset resets (bytes "ann@b.org") (bytes "123456") (bytes "abcdefgh12345678") quiet start)

reset_run :
    reset resets (bytes "ann@b.org") (bytes "123456") (bytes "abcdefgh12345678") quiet start
    ≡ ok false after_reset
unfolding reset ◌>>=◌ get_account_for_password_recovery cut get_recovery_account_for_update query
    text_eq get_current_challenge get_current_challenge_for_update purpose_password_reset refuse_if
    asks time_now check_in_fixed_time matches_verifier valid_purpose purpose_verify_email
    purpose_claim_account encode letter lead rune_count valid_from valid_string apply_password_reset
    challenge_or_zero reset_challenge reset_if_consumed reset_subject reset_verified
    settle_reset_check verify_reset_code is_open matches purpose_reauthenticate result same_verifier
    code_verifier decimal digits_from frame valid_verification_code cut_last is_bare_address lower
    lower_domain normalize_email common_passwords_v1 hash_password parameters_part scheme_part
    stored_password validate_normal validate_password version_part cut_email one_row
    queue_password_change_notice revoke_password_sessions update_password_hash consume_challenge
    delete_challenge_delivery increment_challenge_wrong_guess replace_challenge stored_challenge
    parse_uuid_or row_or check_context exec lift map_err rand_read statement
    Accounts.update_password_hash consume_current_challenge
    Challenges.increment_challenge_wrong_guess replace_current_challenge
    Deliveries.delete_challenge_delivery notice_for Outbox.queue_password_change_notice
    revoke_account_sessions
    flowspace_api.Identity.Repository.Challenges.replace_and_delete_deliveries
    Deliveries.delete_replaced_challenge_deliveries
reset_run = refl

reset-accepted_example :
    (account : Option PasswordRecoveryAccount) × (c : Challenge) × (now : ℕ) × (w1 w2 w3 : World)
    × (get_account_for_password_recovery (bytes "ann@b.org") quiet start ≡ ok account w1)
    × (reset_challenge account quiet w1 ≡ ok (some c) w2)
    × (time_now quiet w2 ≡ ok now w3)
    × (check_in_fixed_time quiet c
          (zeros 32)
          (reset_subject account)
          (bytes "ann@b.org")
          purpose_password_reset
          (bytes "123456")
          now
        ≡ code_accepted)
    × All (HasEnded (reset_subject account)) after_reset.db.sessions
reset-accepted_example =
    reset-accepted resets (bytes "ann@b.org") (bytes "123456") (bytes "abcdefgh12345678") quiet
      start after_reset reset_run
