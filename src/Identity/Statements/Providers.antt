-- ===== src/Identity/Statements/Providers.antt =====
-- services/identity/db/queries/provider_login.sql.
pub mod Once
pub mod Stages
use flowspace_api.Base.{
  ℕ, suc, ◌+◌, ◌*◌, Bool, true, false, not, ◌&&◌, ◌||◌, ◌∷◌, Option, none, some, ltb, leb, ◌==◌,
  if◌then◌else◌, find, any, filter, update, count, Text, bytes, text_eq, is_none, is_some, is_value,
}
use flowspace_api.Identity.Errors.{constraint, other_constraint}
use flowspace_api.Identity.Database.{Database, Account, Attempt, Link}
use flowspace_api.Identity.Run.{M, Reply, rows, rejected, statement, query, exec}
use flowspace_api.Identity.Domain.Challenge.{minute, purpose_reauthenticate}
use flowspace_api.Identity.Statements.Accounts.{is_active_email, is_active}

unfoldable pub purpose_login : Text
purpose_login = bytes "login"

abbrev pub is_text : Option Text → Text → Bool
is_text none t = false
is_text (some s) t = text_eq s t

-- The parameters of CreateProviderLoginAttempt.
pub record AttemptParams : Type 0 where
  pub provider : Text
  pub attempt_token_verifier : Text
  pub state_verifier : Text
  pub code_verifier : Text
  pub nonce : Option Text
  pub callback_url : Text
  pub purpose : Text
  pub account_subject : Option Text
  pub session_id : Option ℕ

abbrev pub new_attempt : AttemptParams → ℕ → ℕ → Attempt
new_attempt p id now = record {
  id = id;
  provider = p.provider;
  attempt_token_verifier = p.attempt_token_verifier;
  state_verifier = p.state_verifier;
  code_verifier = p.code_verifier;
  nonce = p.nonce;
  callback_url = p.callback_url;
  purpose = p.purpose;
  account_subject = p.account_subject;
  session_id = p.session_id;
  expires_at = now + 10 * minute;
  state_consumed_at = none;
  provider_subject = none;
  provider_email = none;
  provider_email_verified = false;
  provider_hosted_domain = none;
  handoff_code_verifier = none;
  failed_at = none;
  session_claimed_at = none;
  reauthentication_claimed_at = none;
  handoff_failures = 0;
}

-- The keys of the table: the id and the verifiers of the token and of the state.
abbrev pub same_key : Attempt → Attempt → Bool
same_key row a =
    a.id == row.id
    || text_eq a.attempt_token_verifier row.attempt_token_verifier
    || text_eq a.state_verifier row.state_verifier

unfoldable pub insert_attempt : Attempt → Database → Reply ℕ
insert_attempt row d =
    if any (same_key row) d.attempts
    then rejected (constraint other_constraint)
    else rows row.expires_at (record d { attempts = row ∷ d.attempts })

unfoldable pub create_provider_login_attempt : AttemptParams → M ℕ
unfolding insert_attempt
create_provider_login_attempt p = statement (λ now id d. insert_attempt (new_attempt p id now) d)

abbrev pub update_attempts : (Attempt → Bool) → (Attempt → Attempt) → Database → ℕ × Database
update_attempts p f d = (count p d.attempts, record d { attempts = update p f d.attempts })

-- UPDATE … RETURNING: the first row that passes the test, as it is before the update of a column
-- that is not returned.
abbrev pub take_attempt :
    (Attempt → Bool) → (Attempt → Attempt) → Database → Option Attempt × Database
take_attempt p f d = (find p d.attempts, record d { attempts = update p f d.attempts })

abbrev pub awaits_callback : Text → Text → ℕ → Attempt → Bool
awaits_callback provider state_verifier now a =
    text_eq a.provider provider
    && text_eq a.state_verifier state_verifier
    && is_none a.state_consumed_at
    && ltb now a.expires_at

abbrev pub consume_state : ℕ → Attempt → Attempt
consume_state now a = record a { state_consumed_at = some now }

unfoldable pub consume_provider_login_state : Text → Text → M (Option Attempt)
consume_provider_login_state provider state_verifier =
    exec (λ now d. take_attempt (awaits_callback provider state_verifier now) (consume_state now) d)

abbrev pub awaits_result : ℕ → Attempt → Bool
awaits_result id a =
    a.id == id
    && is_some a.state_consumed_at
    && is_none a.failed_at
    && is_none a.handoff_code_verifier

-- The columns that RecordProviderLoginResult sets.
pub record ResultParams : Type 0 where
  pub provider_subject : Text
  pub provider_email : Option Text
  pub provider_email_verified : Bool
  pub provider_hosted_domain : Option Text
  pub handoff_code_verifier : Text

abbrev pub with_result : ResultParams → Attempt → Attempt
with_result p a = record a {
  provider_subject = some p.provider_subject;
  provider_email = p.provider_email;
  provider_email_verified = p.provider_email_verified;
  provider_hosted_domain = p.provider_hosted_domain;
  handoff_code_verifier = some p.handoff_code_verifier;
}

-- The verifier of a handoff code is a key of the table.
unfoldable pub record_result_in : ℕ → ResultParams → ℕ → Database → Reply ℕ
record_result_in id p now d =
    if any (λ a. is_text a.handoff_code_verifier p.handoff_code_verifier) d.attempts
      && any (λ a. awaits_result id a && ltb now a.expires_at) d.attempts
    then rejected (constraint other_constraint)
    else rows (count (λ a. awaits_result id a && ltb now a.expires_at) d.attempts) (record d {
      attempts =
          update (λ a. awaits_result id a && ltb now a.expires_at) (with_result p) d.attempts;
    })

unfoldable pub record_provider_login_result : ℕ → ResultParams → M ℕ
unfolding record_result_in
record_provider_login_result id p = statement (λ now fresh d. record_result_in id p now d)

unfoldable pub fail_provider_login_attempt : ℕ → M ℕ
fail_provider_login_attempt id =
    exec (λ now d. update_attempts (awaits_result id) (λ a. record a { failed_at = some now }) d)

-- What both claims ask of the attempt.
abbrev pub matches_handoff : Text → Text → ℕ → Attempt → Bool
matches_handoff attempt_verifier handoff_verifier now a =
    text_eq a.attempt_token_verifier attempt_verifier
    && is_text a.handoff_code_verifier handoff_verifier
    && ltb a.handoff_failures 5
    && ltb now a.expires_at

abbrev pub claimable_login : Text → Text → ℕ → Attempt → Bool
claimable_login attempt_verifier handoff_verifier now a =
    matches_handoff attempt_verifier handoff_verifier now a
    && text_eq a.purpose purpose_login
    && is_none a.session_claimed_at

abbrev pub claim_session : ℕ → Attempt → Attempt
claim_session now a = record a { session_claimed_at = some now }

unfoldable pub claim_provider_login_result : Text → Text → M (Option Attempt)
claim_provider_login_result attempt_verifier handoff_verifier = exec (λ now d.
    take_attempt (claimable_login attempt_verifier handoff_verifier now) (claim_session now) d)

abbrev pub claimable_reauthentication : Text → Text → Text → ℕ → ℕ → Attempt → Bool
claimable_reauthentication attempt_verifier handoff_verifier subject session now a =
    matches_handoff attempt_verifier handoff_verifier now a
    && text_eq a.purpose purpose_reauthenticate
    && is_text a.account_subject subject
    && is_value a.session_id session
    && is_none a.reauthentication_claimed_at

abbrev pub claim_reauthentication : ℕ → Attempt → Attempt
claim_reauthentication now a = record a { reauthentication_claimed_at = some now }

unfoldable pub claim_provider_reauthentication_result : Text → Text → Text → ℕ → M (Option Attempt)
claim_provider_reauthentication_result attempt_verifier handoff_verifier subject session =
    exec (λ now d.
      take_attempt
        (claimable_reauthentication attempt_verifier handoff_verifier subject session now)
        (claim_reauthentication now) d)

abbrev pub counts_failures : Text → ℕ → Attempt → Bool
counts_failures attempt_verifier now a =
    text_eq a.attempt_token_verifier attempt_verifier
    && is_none a.session_claimed_at
    && is_none a.reauthentication_claimed_at
    && ltb a.handoff_failures 5
    && ltb now a.expires_at

unfoldable pub record_provider_handoff_failure : Text → M ℕ
record_provider_handoff_failure attempt_verifier = exec (λ now d.
    update_attempts (counts_failures attempt_verifier now)
      (λ a. record a { handoff_failures = suc a.handoff_failures }) d)

unfoldable pub delete_expired_provider_login_attempts : M ℕ
delete_expired_provider_login_attempts = exec (λ now d. (
  count (λ a. leb a.expires_at now) d.attempts,
  record d { attempts = filter (λ a. not (leb a.expires_at now)) d.attempts },
))

abbrev pub is_link : Text → Text → Link → Bool
is_link provider provider_subject l =
    text_eq l.provider provider && text_eq l.provider_subject provider_subject

-- The active account that a link of the identity leads to.
unfoldable pub get_linked_account_for_update : Text → Text → M (Option Account)
get_linked_account_for_update provider provider_subject = query (λ now d.
    find
      (λ a.
        is_active a
        && any (λ l. is_link provider provider_subject l && text_eq l.account_subject a.subject)
            d.links)
      d.accounts)

abbrev pub verified_at : Bool → ℕ → Option ℕ
verified_at true now = some now
verified_at false now = none

-- ON CONFLICT on the address DO NOTHING: `false` is no row.
unfoldable pub insert_provider_account : Account → Database → Reply Bool
insert_provider_account row d =
    if any (λ a. text_eq a.subject row.subject) d.accounts
    then rejected (constraint other_constraint)
    else if any (is_active_email row.email_local row.email_domain) d.accounts
    then rows false d
    else rows true (record d { accounts = row ∷ d.accounts })

unfoldable pub create_provider_account : Text → Text → Text → Bool → M Bool
unfolding insert_provider_account
create_provider_account subject email_local email_domain email_verified = statement (λ now id d.
    insert_provider_account
      (record {
        subject = subject;
        email_local = email_local;
        email_domain = email_domain;
        password_hash = none;
        email_verified_at = verified_at email_verified now;
        retired_at = none;
      })
      d)

-- The provider and its subject are the key of the table.
unfoldable pub create_provider_link : Link → M (Unit {0})
create_provider_link link = statement (λ now id d.
    if any (is_link link.provider link.provider_subject) d.links
    then rejected (constraint other_constraint)
    else rows tt (record d { links = link ∷ d.links }))

unfoldable pub has_provider_link : Text → Text → Text → M Bool
has_provider_link provider provider_subject subject = query (λ now d.
    any (λ l. is_link provider provider_subject l && text_eq l.account_subject subject) d.links)
