-- ===== src/Examples/Reauthentications.antt =====
-- A proof of identity by code run at a concrete input.
use flowspace_api.Identity.App.CodeReauthentication.{prove_code}
use flowspace_api.Identity.App.CodeReauthentication.Accepted.{InTime}
use flowspace_api.Identity.Repository.Transactions.Atomic.{begun}
use flowspace_api.Identity.Repository.Transactions.{commit_transaction}
use flowspace_api.Base.{Option}
use flowspace_api.Base.{ℕ, true, none, some, [], ◌∷◌, bytes, ◌≡◌, refl, text_eq}
use flowspace_api.Identity.Run.{World, pure, ok}
use flowspace_api.Identity.Run.Laws.{world_of}
use flowspace_api.Identity.Domain.Challenge.{
  Challenge, check, code_accepted, purpose_reauthenticate,
}
use flowspace_api.Identity.Domain.Reauthentication.{ReauthenticationWindow}
use flowspace_api.Identity.Repository.Transactions.{sooner}
use flowspace_api.Identity.App.Reauthentication.{session_reauthentication_deadline}
use flowspace_api.Identity.App.CodeReauthentication.{
  CodeReauthenticationService, ReauthenticateWithCodeInput, reauthenticate_with_code,
}
use flowspace_api.Identity.App.CodeReauthentication.Accepted.{reauthenticate_with_code-before}
use flowspace_api.Examples.Worlds.{quiet, start, tables, ann_challenge, zeros, first}

abbrev challenged : World
challenged = record start {
  db = record tables {
    challenges =
        record ann_challenge {
          purpose = purpose_reauthenticate;
          code_verifier = first 32 (bytes "3:ann9:ann@b.org14:reauthenticate6:123456");
        }
        ∷ [];
  };
}

abbrev codes : CodeReauthenticationService
codes = record {
  has_repository = true;
  protector = none;
  request_limit = none;
  guess_source_limit = some (λ key. pure tt);
  guess_account_limit = some (λ key. pure tt);
  verifier_key = zeros 32;
}

abbrev ann_code : ReauthenticateWithCodeInput
ann_code = record {
  subject = bytes "ann";
  session_id = zeros 2;
  code = bytes "123456";
  source = bytes "1.2.3.4";
}

abbrev proved : World
proved = world_of (reauthenticate_with_code codes ann_code quiet challenged)

code_run : reauthenticate_with_code codes ann_code quiet challenged ≡ ok 5000 proved
unfolding reauthenticate_with_code flowspace_api.Identity.Run.◌>>=◌
    flowspace_api.Identity.Run.refuse_if flowspace_api.Identity.Run.map_err
    flowspace_api.Identity.Repository.Transactions.within_reauthentication_transaction
    flowspace_api.Identity.Repository.Transactions.within_transaction
    flowspace_api.Identity.Statements.Limits.plain_statement flowspace_api.Identity.Run.query
    flowspace_api.Identity.Repository.Transactions.open_transaction
    flowspace_api.Identity.Repository.Sessions.lock_session_for_reauthentication
    flowspace_api.Identity.Repository.Accounts.get_active_account_for_session
    flowspace_api.Identity.Repository.Transactions.parse_uuid_or
    flowspace_api.Identity.Statements.Sessions.get_active_account_for_session_for_update
    flowspace_api.Identity.Repository.Transactions.row_or text_eq
    flowspace_api.Identity.Statements.Sessions.get_session_reauthentication
    flowspace_api.Identity.Domain.Code.valid_verification_code
    flowspace_api.Identity.Repository.Challenges.get_current_challenge
    flowspace_api.Identity.Statements.Challenges.get_current_challenge_for_update
    purpose_reauthenticate flowspace_api.Identity.Run.asks check
    flowspace_api.Identity.Domain.Challenge.matches_verifier
    flowspace_api.Identity.Domain.Challenge.valid_purpose
    flowspace_api.Identity.Domain.Challenge.purpose_verify_email
    flowspace_api.Identity.Domain.Challenge.purpose_claim_account
    flowspace_api.Identity.Domain.Challenge.purpose_password_reset
    flowspace_api.Identity.Domain.Email.normalize_email
    flowspace_api.Identity.Domain.Code.code_verifier
    flowspace_api.Identity.Repository.Challenges.consume_challenge
    flowspace_api.Identity.Statements.Challenges.consume_current_challenge
    flowspace_api.Identity.Run.exec flowspace_api.Identity.Domain.Reauthentication.is_open
    flowspace_api.Identity.Repository.Transactions.require_commit_before
    flowspace_api.Identity.Repository.Transactions.get_transaction
    flowspace_api.Identity.App.CodeReauthentication.apply_code_check
    flowspace_api.Identity.App.CodeReauthentication.captured
    flowspace_api.Identity.App.CodeReauthentication.check_code
    flowspace_api.Identity.App.CodeReauthentication.code_reauthentication_commit_error
    flowspace_api.Identity.App.CodeReauthentication.code_reauthentication_error
    flowspace_api.Identity.App.CodeReauthentication.open_with_challenge
    flowspace_api.Identity.App.CodeReauthentication.open_with_consumed
    flowspace_api.Identity.App.CodeReauthentication.prove_code
    flowspace_api.Identity.App.CodeReauthentication.prove_code_in_transaction
    flowspace_api.Identity.App.CodeReauthentication.verify_code
    flowspace_api.Identity.App.Ports.is_one_of flowspace_api.Identity.App.Ports.keep_or
    flowspace_api.Identity.App.Reauthentication.open_window
    flowspace_api.Identity.App.Reauthentication.reauthenticate_unless
    session_reauthentication_deadline flowspace_api.Identity.Domain.Challenge.is_open
    flowspace_api.Identity.Domain.Challenge.matches flowspace_api.Identity.Domain.Challenge.result
    flowspace_api.Identity.Domain.Challenge.same_verifier flowspace_api.Identity.Domain.Code.decimal
    flowspace_api.Identity.Domain.Code.digits_from flowspace_api.Identity.Domain.Code.frame
    flowspace_api.Identity.Domain.Email.cut_last flowspace_api.Identity.Domain.Email.is_bare_address
    flowspace_api.Identity.Domain.Email.lower flowspace_api.Identity.Domain.Email.lower_domain
    flowspace_api.Identity.Domain.Reauthentication.expires_at flowspace_api.Identity.Errors.is
    flowspace_api.Identity.Errors.is_context flowspace_api.Identity.Errors.tag
    flowspace_api.Identity.Repository.Accounts.one_row
    flowspace_api.Identity.Repository.Challenges.increment_challenge_wrong_guess
    flowspace_api.Identity.Repository.Challenges.stored_challenge
    flowspace_api.Identity.Repository.Sessions.reauthenticate_session
    flowspace_api.Identity.Repository.Sessions.remember_session
    flowspace_api.Identity.Repository.Transactions.commit_checked
    flowspace_api.Identity.Repository.Transactions.commit_error
    flowspace_api.Identity.Repository.Transactions.commit_transaction
    flowspace_api.Identity.Repository.Transactions.read_window sooner
    flowspace_api.Identity.Repository.Transactions.transact flowspace_api.Identity.Run.statement
    flowspace_api.Identity.Statements.Challenges.increment_challenge_wrong_guess
    flowspace_api.Identity.Statements.Sessions.check_reauthentication_deadline
    flowspace_api.Identity.Statements.Sessions.find_session_account
    flowspace_api.Identity.Statements.Sessions.queue_session_reauthentication_check
    flowspace_api.Identity.Statements.Sessions.request_session_reauthentication
    flowspace_api.Identity.Statements.Sessions.set_reauthentication_deadline
    flowspace_api.Identity.Statements.Sessions.stamp_session_reauthentication
code_run = refl

reauthenticate_with_code-before_example :
    (found : Option (ℕ × ℕ)) × (after last : World) × (prove_code codes ann_code quiet
        (begun challenged)
      ≡ ok found after)
    × (commit_transaction after.transaction quiet after ≡ ok tt last)
    × InTime codes ann_code quiet (begun challenged) after last
reauthenticate_with_code-before_example =
    reauthenticate_with_code-before codes ann_code quiet challenged proved 5000 code_run
