-- ===== src/Identity/Repository/Accounts.antt =====
-- The account methods of `AccountRepository` and `accountTransaction`
-- (services/identity/internal/adapter/out/postgres/account_repository.go). A result with `found` is
-- an `Option`.
use flowspace_api.Base.{ℕ, Bool, not, Option, none, some, ◌==◌, [], ◌∷◌, ◌++◌, Text, is_some}
use flowspace_api.Identity.Errors.{
  Err, sentinel, constraint, active_email, account_exists, unauthenticated,
  invalid_normalized_email, password_account_unavailable, password_notice_unavailable,
}
use flowspace_api.Identity.Database.{Account}
use flowspace_api.Identity.Run.{M, pure, fail, refuse_if, map_err, ◌>>=◌}
use flowspace_api.Identity.Domain.Email.{at_sign, cut}
use flowspace_api.Identity.Statements.Accounts
use flowspace_api.Identity.Statements.Challenges
use flowspace_api.Identity.Statements.Deliveries
use flowspace_api.Identity.Statements.Outbox
use flowspace_api.Identity.Statements.Sessions
use flowspace_api.Identity.Repository.Transactions.{parse_uuid_or, row_or, within_transaction}

-- `strings.Cut(email, "@")`, with the error for a text that has none.
abbrev pub cut_or : Option (Text × Text) → M (Text × Text)
cut_or none = fail invalid_normalized_email
cut_or (some parts) = pure parts

unfoldable pub cut_email : Text → M (Text × Text)
cut_email email = cut_or (cut email)

unfoldable pub create_account_error : Err → Err
create_account_error (constraint active_email) = sentinel account_exists
create_account_error x = x

unfoldable pub create_account : Text → Text → Text → M (Unit {0})
unfolding cut_email create_account_error
create_account subject email password_hash = do
  (local, domain) ← cut_email email
  map_err create_account_error (Accounts.create_account subject local domain password_hash)

-- outbound.AccountState
pub record AccountState : Type 0 where
  pub email : Text
  pub email_verified : Bool

abbrev pub account_state : Account → AccountState
account_state a = record {
  email = a.email_local ++ at_sign ∷ a.email_domain;
  email_verified = is_some a.email_verified_at;
}

unfoldable pub get_active_account_for_session : Text → Text → M AccountState
get_active_account_for_session subject session_id = do
  id ← parse_uuid_or (sentinel unauthenticated) session_id
  found ← Sessions.get_active_account_for_session_for_update subject id
  account ← row_or (sentinel unauthenticated) found
  pure (account_state account)

-- `changed == 1`.
unfoldable pub one_row : M ℕ → M Bool
one_row m = do changed ← m; pure (changed == 1)

unfoldable pub mark_email_verified : Text → M Bool
unfolding one_row
mark_email_verified subject = one_row (Accounts.mark_email_verified subject)

-- outbound.ClaimAccount and outbound.LinkedAccount
pub record SubjectAccount : Type 0 where
  pub subject : Text
  pub email_verified : Bool

abbrev pub subject_account : Option Account → Option SubjectAccount
subject_account none = none
subject_account (some a) =
    some (record { subject = a.subject; email_verified = is_some a.email_verified_at })

-- outbound.PasswordAccount
pub record PasswordAccount : Type 0 where
  pub subject : Text
  pub password_hash : Text
  pub email_verified : Bool

abbrev pub text_of : Option Text → Text
text_of none = []
text_of (some t) = t

abbrev pub password_account : Account → PasswordAccount
password_account a = record {
  subject = a.subject;
  password_hash = text_of a.password_hash;
  email_verified = is_some a.email_verified_at;
}

abbrev pub found_password_account : Option Account → Option PasswordAccount
found_password_account none = none
found_password_account (some a) = some (password_account a)

unfoldable pub find_password_account : Text → M (Option PasswordAccount)
unfolding cut_email
find_password_account email = do
  (local, domain) ← cut_email email
  found ← Accounts.get_password_account_by_email local domain
  pure (found_password_account found)

unfoldable pub lock_password_account : Text → M PasswordAccount
lock_password_account subject = do
  found ← Accounts.get_password_account_for_update subject
  account ← row_or (sentinel unauthenticated) found
  pure (password_account account)

unfoldable pub find_account_for_claim : Text → M (Option SubjectAccount)
unfolding cut_email
find_account_for_claim email = do
  (local, domain) ← cut_email email
  found ← Accounts.get_active_account_by_email local domain
  pure (subject_account found)

unfoldable pub get_account_for_claim : Text → M (Option SubjectAccount)
unfolding cut_email
get_account_for_claim email = do
  (local, domain) ← cut_email email
  found ← Accounts.get_active_account_by_email_for_update local domain
  pure (subject_account found)

-- outbound.PasswordRecoveryAccount
pub record PasswordRecoveryAccount : Type 0 where
  pub subject : Text
  pub email_verified : Bool
  pub has_password : Bool

abbrev pub recovery_account : Option Account → Option PasswordRecoveryAccount
recovery_account none = none
recovery_account (some a) = some (record {
  subject = a.subject;
  email_verified = is_some a.email_verified_at;
  has_password = is_some a.password_hash;
})

unfoldable pub get_account_for_password_recovery : Text → M (Option PasswordRecoveryAccount)
unfolding cut_email
get_account_for_password_recovery email = do
  (local, domain) ← cut_email email
  found ← Accounts.get_recovery_account_for_update local domain
  pure (recovery_account found)

-- Sessions and challenges end, deliveries are deleted, and only then the account is retired.
unfoldable pub retire_and_revoke_account : Text → M Bool
unfolding one_row
retire_and_revoke_account subject = do
  sessions ← Sessions.revoke_account_sessions subject
  challenges ← Challenges.revoke_account_challenges subject
  deliveries ← Deliveries.delete_account_challenge_deliveries subject
  one_row (Accounts.retire_unverified_account subject)

unfoldable pub update_password_hash : Text → Text → M (Unit {0})
update_password_hash subject hash = do
  changed ← Accounts.update_password_hash subject hash
  refuse_if (not (changed == 1)) password_account_unavailable

unfoldable pub revoke_password_sessions : Text → M (Unit {0})
revoke_password_sessions subject = do changed ← Sessions.revoke_account_sessions subject; pure tt

unfoldable pub queue_password_change_notice : Text → M (Unit {0})
queue_password_change_notice subject = do
  found ← Outbox.queue_password_change_notice subject
  id ← row_or password_notice_unavailable found
  pure tt

unfoldable pub revoke_all : Text → Text → M (Unit {0})
unfolding revoke_password_sessions
revoke_all subject session_id = within_transaction (do
  account ← get_active_account_for_session subject session_id
  revoke_password_sessions subject)
