-- ===== src/Identity/Statements/Deliveries.antt =====
-- services/identity/db/queries/delivery.sql.
use flowspace_api.Base.{
  ℕ, Bool, not, ◌&&◌, ◌||◌, List, ◌∷◌, Option, none, some, leb, ◌==◌, if◌then◌else◌, find, any,
  filter, count, Text, text_eq, is_none, is_some,
}
use flowspace_api.Identity.Errors.{constraint, other_constraint}
use flowspace_api.Identity.Database.{Database, Account, ChallengeRow, Delivery}
use flowspace_api.Identity.Run.{M, rows, rejected, statement, query, exec}
use flowspace_api.Identity.Domain.Challenge.{purpose_password_reset, purpose_reauthenticate}

-- DELETE FROM identity_challenge_deliveries: the number of rows and the rest.
abbrev pub delete_deliveries : (Delivery → Bool) → Database → ℕ × Database
delete_deliveries p d =
    (count p d.deliveries, record d { deliveries = filter (λ r. not (p r)) d.deliveries })

-- The challenge id is the key of the table.
unfoldable pub store_challenge_delivery : Delivery → M (Unit {0})
store_challenge_delivery delivery = statement (λ now id d.
    if any (λ r. r.challenge_id == delivery.challenge_id) d.deliveries
    then rejected (constraint other_constraint)
    else rows tt (record d { deliveries = delivery ∷ d.deliveries }))

unfoldable pub delete_challenge_delivery : ℕ → M ℕ
delete_challenge_delivery id = exec (λ now d. delete_deliveries (λ r. r.challenge_id == id) d)

-- The challenge of a delivery passes a test.
abbrev pub of_challenge : (ChallengeRow → Bool) → Database → Delivery → Bool
of_challenge p d r = any (λ c. c.id == r.challenge_id && p c) d.challenges

unfoldable pub delete_account_challenge_deliveries : Text → M ℕ
delete_account_challenge_deliveries subject =
    exec (λ now d. delete_deliveries (of_challenge (λ c. text_eq c.account_subject subject) d) d)

unfoldable pub delete_replaced_challenge_deliveries : Text → Text → M ℕ
delete_replaced_challenge_deliveries subject purpose = exec (λ now d.
    delete_deliveries
      (of_challenge
        (λ c.
          text_eq c.account_subject subject && text_eq c.purpose purpose && is_some c.replaced_at)
        d)
      d)

abbrev pub account_of : Option ChallengeRow → List Account → Option Account
account_of none accounts = none
account_of (some c) accounts = find (λ a. text_eq a.subject c.account_subject) accounts

unfoldable pub get_delivery_account_for_update : ℕ → M (Option Account)
get_delivery_account_for_update id =
    query (λ now d. account_of (find (λ c. c.id == id) d.challenges) d.accounts)

abbrev pub with_expired : ℕ → Option ChallengeRow → Option (ChallengeRow × Bool)
with_expired now none = none
with_expired now (some c) = some (c, leb c.expires_at now)

-- The challenge, and `expires_at <= statement_timestamp() AS expired`.
unfoldable pub get_delivery_challenge_for_update : ℕ → M (Option (ChallengeRow × Bool))
get_delivery_challenge_for_update id =
    query (λ now d. with_expired now (find (λ c. c.id == id) d.challenges))

unfoldable pub get_challenge_delivery : ℕ → M (Option Delivery)
get_challenge_delivery id = query (λ now d. find (λ r. r.challenge_id == id) d.deliveries)

-- `purpose IN ('password-reset', 'reauthenticate')`
unfoldable pub wants_verified : Text → Bool
wants_verified purpose =
    text_eq purpose purpose_password_reset || text_eq purpose purpose_reauthenticate

-- The WHERE clause of the common table expression `terminal`.
unfoldable pub is_terminal : ℕ → Account → ChallengeRow → Bool
unfolding wants_verified
is_terminal now a c =
    leb c.expires_at now
    || is_some c.replaced_at
    || is_some c.consumed_at
    || leb 5 c.wrong_guesses
    || not (text_eq c.email_local a.email_local)
    || not (text_eq c.email_domain a.email_domain)
    || is_some a.retired_at
    || (is_some a.email_verified_at && not (wants_verified c.purpose))
    || (is_none a.email_verified_at && wants_verified c.purpose)

unfoldable pub purge_terminal_deliveries : M ℕ
unfolding is_terminal
purge_terminal_deliveries = exec (λ now d.
    delete_deliveries
      (of_challenge
        (λ c. any (λ a. text_eq a.subject c.account_subject && is_terminal now a c) d.accounts) d)
      d)
