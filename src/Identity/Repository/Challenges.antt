-- ===== src/Identity/Repository/Challenges.antt =====
-- The challenge, delivery and outbox methods of `accountTransaction`
-- (services/identity/internal/adapter/out/postgres/account_repository.go).
use flowspace_api.Base.{ℕ, Bool, not, Option, none, some, ◌==◌, ◌∷◌, ◌++◌, length, Text}
use flowspace_api.Identity.Errors.{invalid_uuid, invalid_challenge_verifier}
use flowspace_api.Identity.Database.{ChallengeRow}
use flowspace_api.Identity.Run.{M, pure, asks, refuse_if, ◌>>=◌, ◌>>◌}
use flowspace_api.Identity.Domain.Email.{at_sign}
use flowspace_api.Identity.Domain.Challenge.{Challenge}
use flowspace_api.Identity.Statements.Challenges
use flowspace_api.Identity.Statements.Deliveries
use flowspace_api.Identity.Statements.Outbox
use flowspace_api.Identity.Repository.Transactions.{parse_uuid_or}
use flowspace_api.Identity.Repository.Accounts.{cut_email, one_row}

unfoldable pub replace_challenge : Text → Text → M (Unit {0})
replace_challenge subject purpose = do
  changed ← Challenges.replace_current_challenge subject purpose
  pure tt

unfoldable pub create_challenge : Text → Text → Text → Text → M Text
unfolding cut_email
create_challenge subject email purpose verifier = do
  (local, domain) ← cut_email email
  row ← Challenges.create_challenge subject purpose local domain verifier
  asks (λ e. e.uuid_string (row.id))

-- outbound.DeliveryMaterial
pub record DeliveryMaterial : Type 0 where
  pub key_version : ℕ
  pub nonce : Text
  pub ciphertext : Text

unfoldable pub store_delivery : Text → DeliveryMaterial → M (Unit {0})
store_delivery challenge_id material = do
  id ← parse_uuid_or invalid_uuid challenge_id
  Deliveries.store_challenge_delivery (record {
    challenge_id = id;
    key_version = material.key_version;
    nonce = material.nonce;
    ciphertext = material.ciphertext;
  })

unfoldable pub create_outbox_event : Text → M (Unit {0})
create_outbox_event challenge_id = do
  id ← parse_uuid_or invalid_uuid challenge_id
  event ← Outbox.create_outbox_event id
  pure tt

-- No row is no error.
unfoldable pub increment_challenge_wrong_guess : Text → M (Unit {0})
increment_challenge_wrong_guess challenge_id = do
  id ← parse_uuid_or invalid_uuid challenge_id
  changed ← Challenges.increment_challenge_wrong_guess id
  pure tt

unfoldable pub consume_challenge : Text → M Bool
unfolding one_row
consume_challenge challenge_id = do
  id ← parse_uuid_or invalid_uuid challenge_id
  one_row (Challenges.consume_current_challenge id)

unfoldable pub stored_challenge : Option ChallengeRow → M (Option Challenge)
stored_challenge none = pure none
stored_challenge (some c) = do
  refuse_if (not (length c.code_verifier == 32)) invalid_challenge_verifier
  asks (λ e. some (record {
    id = e.uuid_string c.id;
    email = c.email_local ++ at_sign ∷ c.email_domain;
    verifier = c.code_verifier;
    wrong_guesses = c.wrong_guesses;
    expires_at = c.expires_at;
  }))

unfoldable pub get_current_challenge : Text → Text → M (Option Challenge)
unfolding stored_challenge
get_current_challenge subject purpose = do
  found ← Challenges.get_current_challenge_for_update subject purpose
  stored_challenge found

-- `ReplacePasswordResetChallenge` and `ReplaceReauthenticationChallenge`: replaced codes lose their
-- deliveries.
unfoldable pub replace_and_delete_deliveries : Text → Text → M (Unit {0})
unfolding replace_challenge
replace_and_delete_deliveries subject purpose = do
  replace_challenge subject purpose
  deleted ← Deliveries.delete_replaced_challenge_deliveries subject purpose
  pure tt

unfoldable pub delete_challenge_delivery : Text → M (Unit {0})
delete_challenge_delivery challenge_id = do
  id ← parse_uuid_or invalid_uuid challenge_id
  deleted ← Deliveries.delete_challenge_delivery id
  pure tt
