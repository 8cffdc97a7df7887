-- ===== src/Identity/Statements/Accounts.antt =====
-- services/identity/db/queries/identity.sql.
use flowspace_api.Base.{
  ℕ, Bool, ◌&&◌, ◌∷◌, Option, none, some, if◌then◌else◌, find, any, update, count, Text, text_eq,
  is_none, is_some,
}
use flowspace_api.Identity.Errors.{constraint, active_email, other_constraint}
use flowspace_api.Identity.Database.{Database, Account}
use flowspace_api.Identity.Run.{M, Reply, rows, rejected, statement, query, exec}

abbrev pub is_active : Account → Bool
is_active a = is_none a.retired_at

abbrev pub is_active_subject : Text → Account → Bool
is_active_subject subject a = text_eq a.subject subject && is_active a

abbrev pub is_active_email : Text → Text → Account → Bool
is_active_email email_local email_domain a =
    text_eq a.email_local email_local && text_eq a.email_domain email_domain && is_active a

abbrev pub update_accounts : (Account → Bool) → (Account → Account) → Database → ℕ × Database
update_accounts p f d = (count p d.accounts, record d { accounts = update p f d.accounts })

-- The keys of the table: the subject, and the address among the active accounts.
unfoldable pub insert_account : Account → Database → Reply (Unit {0})
insert_account row d =
    if any (λ a. text_eq a.subject row.subject) d.accounts
    then rejected (constraint other_constraint)
    else if any (is_active_email row.email_local row.email_domain) d.accounts
    then rejected (constraint active_email)
    else rows tt (record d { accounts = row ∷ d.accounts })

unfoldable pub create_account : Text → Text → Text → Text → M (Unit {0})
unfolding insert_account
create_account subject email_local email_domain password_hash = statement (λ now id d.
    insert_account
      (record {
        subject = subject;
        email_local = email_local;
        email_domain = email_domain;
        password_hash = some password_hash;
        email_verified_at = none;
        retired_at = none;
      })
      d)

unfoldable pub retire_unverified_account : Text → M ℕ
retire_unverified_account subject = exec (λ now d.
    update_accounts (λ a. is_active_subject subject a && is_none a.email_verified_at)
      (λ a. record a { retired_at = some now }) d)

unfoldable pub get_active_account_for_update : Text → M (Option Account)
get_active_account_for_update subject = query (λ now d. find (is_active_subject subject) d.accounts)

unfoldable pub get_active_account_by_email_for_update : Text → Text → M (Option Account)
get_active_account_by_email_for_update email_local email_domain =
    query (λ now d. find (is_active_email email_local email_domain) d.accounts)

unfoldable pub get_active_account_by_email : Text → Text → M (Option Account)
get_active_account_by_email email_local email_domain =
    query (λ now d. find (is_active_email email_local email_domain) d.accounts)

unfoldable pub get_password_account_by_email : Text → Text → M (Option Account)
get_password_account_by_email email_local email_domain = query (λ now d.
    find (λ a. is_active_email email_local email_domain a && is_some a.password_hash) d.accounts)

unfoldable pub get_recovery_account_for_update : Text → Text → M (Option Account)
get_recovery_account_for_update email_local email_domain =
    query (λ now d. find (is_active_email email_local email_domain) d.accounts)

unfoldable pub get_password_account_for_update : Text → M (Option Account)
get_password_account_for_update subject =
    query (λ now d. find (λ a. is_active_subject subject a && is_some a.password_hash) d.accounts)

unfoldable pub mark_email_verified : Text → M ℕ
mark_email_verified subject = exec (λ now d.
    update_accounts (λ a. is_active_subject subject a && is_none a.email_verified_at)
      (λ a. record a { email_verified_at = some now }) d)

unfoldable pub update_password_hash : Text → Text → M ℕ
update_password_hash subject password_hash = exec (λ now d.
    update_accounts (λ a. is_active_subject subject a && is_some a.email_verified_at)
      (λ a. record a { password_hash = some password_hash }) d)
