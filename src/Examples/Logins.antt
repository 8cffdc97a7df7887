-- ===== src/Examples/Logins.antt =====
-- Proofs of identity and password logins run at concrete inputs.
use flowspace_api.Identity.App.Reauthentication.Proofs.{Matches}
use flowspace_api.Identity.Repository.Accounts.{AccountState, get_active_account_for_session}
use flowspace_api.Identity.Repository.Sessions.{lock_session_for_reauthentication}
use flowspace_api.Identity.Domain.Password.{stored_password}
use flowspace_api.Identity.Repository.Accounts.{
  get_active_account_for_session, cut_email, lock_password_account,
}
use flowspace_api.Identity.Repository.Sessions.{
  lock_session_for_reauthentication, reauthenticate_session, remember_session, create,
}
use flowspace_api.Identity.Repository.Transactions.{
  parse_uuid_or, require_commit_before, row_or, get_transaction, commit_checked, commit_error,
  commit_transaction, open_transaction, transact, within_transaction,
}
use flowspace_api.Identity.Run.{map_err, query, refuse_if, ◌>>=◌, asks, statement, exec, rand_read}
use flowspace_api.Identity.Statements.Sessions.{
  get_active_account_for_session_for_update, get_session_reauthentication, find_session_account,
  request_session_reauthentication, check_reauthentication_deadline, create_session, insert_session,
  queue_session_reauthentication_check, set_reauthentication_deadline,
  stamp_session_reauthentication,
}
use flowspace_api.Encoding.Base64.{decode, pack, sextet, sextets, letter}
use flowspace_api.Encoding.Split.{split}
use flowspace_api.Encoding.Utf8.{lead, rune_count, valid_from, valid_string}
use flowspace_api.Identity.App.Reauthentication.{
  credentials_or, reauthenticate_unless, refuse_unmatched,
}
use flowspace_api.Identity.Domain.Password.{
  parameters_part, scheme_part, stored_parts, version_part,
}
use flowspace_api.Identity.Errors.{is, tag, is_context}
use flowspace_api.Identity.App.PasswordLogin.{
  issue, issue_if_matched, issue_locked, locked_error, login_error,
}
use flowspace_api.Identity.App.Ports.{is_one_of, keep_or}
use flowspace_api.Identity.App.Sessions.{access_expiry, becomes}
use flowspace_api.Identity.Domain.Email.{cut_last, is_bare_address, lower, lower_domain}
use flowspace_api.Identity.Statements.Accounts.{get_password_account_for_update}
use flowspace_api.Identity.Statements.Limits.{plain_statement}
use flowspace_api.Identity.App.Sessions
use flowspace_api.Identity.App.Reauthentication
use flowspace_api.Base.{ℕ, true, some, Text, bytes, ◌≡◌, refl, text_eq}
use flowspace_api.Identity.Run.{World, M, ok, done, pure}
use flowspace_api.Identity.Run.Laws.{world_of}
use flowspace_api.Encoding.Base64.{raw_url, encode}
use flowspace_api.Identity.Domain.Email.{normalize_email}
use flowspace_api.Identity.Domain.Password.{normalize_login_password, verify_password}
use flowspace_api.Identity.Domain.Reauthentication.{ReauthenticationWindow, expires_at, is_open}
use flowspace_api.Identity.Repository.Transactions.{sooner}
use flowspace_api.Identity.Repository.Accounts.{PasswordAccount, find_password_account}
use flowspace_api.Identity.App.Ports.{Signer}
use flowspace_api.Identity.App.PasswordLogin.{
  CreatePasswordSessionInput, CreatePasswordSessionResult, check_password, create_session_with,
}
use flowspace_api.Identity.App.PasswordLogin.Credentials.{IssuesFor, create_session_with-matched}
use flowspace_api.Identity.App.Reauthentication.{
  require_reauthentication, prove_password, ReauthenticateWithPasswordInput,
  session_reauthentication_deadline,
}
use flowspace_api.Identity.App.Reauthentication.Proofs.{
  require_reauthentication-is_open, prove_password-matched,
}
use flowspace_api.Examples.Worlds.{quiet, start, zeros}

abbrev guarded : World
guarded = world_of (require_reauthentication true (bytes "ann") (zeros 2) quiet start)

guard_run : require_reauthentication true (bytes "ann") (zeros 2) quiet start ≡ ok tt guarded
unfolding require_reauthentication text_eq is_open get_active_account_for_session
    lock_session_for_reauthentication parse_uuid_or require_commit_before row_or map_err query
    refuse_if ◌>>=◌ get_active_account_for_session_for_update get_session_reauthentication
guard_run = refl

require_reauthentication-is_open_example :
    (window : ReauthenticationWindow) × (now : ℕ) × (read : World)
    × (lock_session_for_reauthentication (bytes "ann") (zeros 2) quiet start
        ≡ ok (window, now) read)
    × (is_open window now ≡ true)
    × (guarded.transaction.reauthentication_deadline
        ≡ sooner read.transaction.reauthentication_deadline (expires_at window))
require_reauthentication-is_open_example =
    require_reauthentication-is_open true (bytes "ann") (zeros 2) quiet start guarded tt guard_run

abbrev unlimited : Text → Text → M (Unit {0})
unlimited source email = pure tt

abbrev ann_proof : ReauthenticateWithPasswordInput
ann_proof = record {
  subject = bytes "ann";
  session_id = zeros 2;
  password = bytes "abcdefgh12345678";
  source = bytes "1.2.3.4";
}

abbrev proved : World
proved = world_of (prove_password unlimited ann_proof (bytes "abcdefgh12345678") quiet start)

proof_run : prove_password unlimited ann_proof (bytes "abcdefgh12345678") quiet start ≡ ok tt proved
unfolding prove_password decode pack sextet sextets split lead rune_count valid_from valid_string
    Reauthentication.check_password credentials_or reauthenticate_unless refuse_unmatched
    session_reauthentication_deadline normalize_login_password parameters_part scheme_part
    stored_parts version_part expires_at is_open is tag reauthenticate_session remember_session
    get_transaction require_commit_before sooner asks refuse_if statement find_session_account
    request_session_reauthentication encode letter stored_password ◌>>=◌
    lock_session_for_reauthentication get_active_account_for_session parse_uuid_or
    get_active_account_for_session_for_update query row_or text_eq get_session_reauthentication
    flowspace_api.Identity.Run.attempt lock_password_account get_password_account_for_update
    flowspace_api.Identity.App.Ports.take_hash_slot flowspace_api.Identity.Run.check_context
    verify_password flowspace_api.Identity.Run.lift
proof_run = refl

prove_password-matched_example :
    (locked window : ReauthenticationWindow) × (before now : ℕ) × (account : AccountState) × (w1 w2
      w3 w4 w5 w6 : World)
    × (lock_session_for_reauthentication ann_proof.subject ann_proof.session_id quiet start
        ≡ ok (locked, before) w1)
    × (get_active_account_for_session ann_proof.subject ann_proof.session_id quiet w1
        ≡ ok account w2)
    × (unlimited ann_proof.source account.email quiet w2 ≡ ok tt w3)
    × Matches ann_proof.subject (bytes "abcdefgh12345678") quiet w3 w4
    × (lock_session_for_reauthentication ann_proof.subject ann_proof.session_id quiet w4
        ≡ ok (window, now) w5)
    × (reauthenticate_unless (is_open window now) ann_proof.subject ann_proof.session_id quiet w5
        ≡ ok tt w6)
    × (proved.transaction.reauthentication_deadline
        ≡ sooner w6.transaction.reauthentication_deadline
            (session_reauthentication_deadline window))
prove_password-matched_example =
    prove_password-matched unlimited ann_proof (bytes "abcdefgh12345678") quiet start proved tt
      proof_run

abbrev ann_login : CreatePasswordSessionInput
ann_login = record {
  email = bytes "ann@b.org";
  password = bytes "abcdefgh12345678";
  source = bytes "1.2.3.4";
}

abbrev signs : Signer
signs claims = pure (bytes "jwt")

abbrev logged_in : World
logged_in = world_of (create_session_with signs unlimited ann_login quiet start)

abbrev ann_result : CreatePasswordSessionResult
ann_result = record {
  subject = bytes "ann";
  email_verified = true;
  access_token = bytes "jwt";
  refresh_token = encode raw_url (zeros 32);
  access_token_expires_at = 600000000000;
  refresh_token_expires_at = 2592000000000107;
  session_expires_at = 7776000000000107;
}

login_run : create_session_with signs unlimited ann_login quiet start ≡ ok ann_result logged_in
unfolding create_session_with decode encode letter pack sextet sextets split lead valid_from
    check_password issue issue_if_matched issue_locked locked_error login_error is_one_of keep_or
    access_expiry becomes Sessions.issue cut_last is_bare_address lower lower_domain parameters_part
    scheme_part version_part is is_context tag cut_email lock_password_account create commit_checked
    commit_error commit_transaction get_transaction open_transaction row_or transact
    within_transaction asks exec rand_read refuse_if statement get_password_account_for_update
    plain_statement check_reauthentication_deadline create_session insert_session
    queue_session_reauthentication_check set_reauthentication_deadline
    stamp_session_reauthentication stored_password ◌>>=◌ flowspace_api.Identity.Run.lift
    normalize_email text_eq normalize_login_password valid_string rune_count map_err
    find_password_account flowspace_api.Identity.Domain.Email.cut
    flowspace_api.Identity.Statements.Accounts.get_password_account_by_email query
    flowspace_api.Identity.App.Ports.take_hash_slot flowspace_api.Identity.Run.check_context
    verify_password stored_parts
login_run = refl

create_session_with-matched_example :
    (email password : Text) × (account : PasswordAccount) × (w1 w2 w3 : World) × (normalize_email
        quiet
        (bytes "ann@b.org")
      ≡ done email)
    × (normalize_login_password quiet (bytes "abcdefgh12345678") ≡ done password)
    × (unlimited ann_login.source email quiet start ≡ ok tt w1)
    × (find_password_account email quiet w1 ≡ ok (some account) w2)
    × (check_password password account.password_hash quiet w2 ≡ ok true w3)
    × IssuesFor signs account quiet w3 ann_result logged_in
create_session_with-matched_example =
    create_session_with-matched signs unlimited ann_login ann_result quiet start logged_in login_run
