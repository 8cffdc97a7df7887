-- ===== src/Identity/Repository/Delivery.antt =====
-- `DeliveryRepository.WithCurrentDelivery` and `PurgeTerminal`
-- (services/identity/internal/adapter/out/postgres/delivery_repository.go).
pub mod Terminal
use flowspace_api.Base.{
  ℕ, Bool, true, false, not, ◌&&◌, Option, none, some, ltb, ◌==◌, if◌then◌else◌, ◌∷◌, ◌++◌, Text,
  text_eq, is_none, is_some,
}
use flowspace_api.Identity.Errors.{sentinel, foreign, delivery_material_gone, invalid_uuid}
use flowspace_api.Identity.Database.{Account, ChallengeRow, Delivery}
use flowspace_api.Identity.Run.{M, pure, fail, refuse_if, ◌>>=◌, ◌>>◌}
use flowspace_api.Identity.Domain.Email.{at_sign}
use flowspace_api.Identity.Statements.Deliveries
use flowspace_api.Identity.Statements.Deliveries.{wants_verified}
use flowspace_api.Identity.Repository.Transactions.{parse_uuid_or, row_or, within_transaction}

-- outbound.CurrentDelivery
pub record CurrentDelivery : Type 0 where
  pub subject : Text
  pub email : Text
  pub material : Delivery

unfoldable pub is_current_delivery : Account → ChallengeRow → Bool → Bool
is_current_delivery account challenge expired =
    let email_eligible =
      if wants_verified challenge.purpose
      then is_some account.email_verified_at
      else is_none account.email_verified_at in
    is_none account.retired_at
    && email_eligible
    && is_none challenge.replaced_at
    && is_none challenge.consumed_at
    && ltb challenge.wrong_guesses 5
    && not expired
    && text_eq challenge.email_local account.email_local
    && text_eq challenge.email_domain account.email_domain

unfoldable pub send_material :
    (CurrentDelivery → M (Unit {0})) → ℕ → Account → Option Delivery → M (Unit {0})
send_material send id account none = pure tt
send_material send id account (some material) = do
  send (record {
    subject = account.subject;
    email = account.email_local ++ at_sign ∷ account.email_domain;
    material = material;
  })
  changed ← Deliveries.delete_challenge_delivery id
  refuse_if (not (changed == 1)) (sentinel delivery_material_gone)

unfoldable pub deliver_current :
    (CurrentDelivery → M (Unit {0})) → ℕ → Text → Account → ChallengeRow × Bool → M (Unit {0})
unfolding send_material is_current_delivery
deliver_current send id purpose account (challenge, expired) =
    if not (text_eq challenge.purpose purpose)
    then pure tt
    else if not (is_current_delivery account challenge expired)
    then (do deleted ← Deliveries.delete_challenge_delivery id; pure tt)
    else do material ← Deliveries.get_challenge_delivery id; send_material send id account material

-- pgx.ErrNoRows, which the code does not tell from other errors here.
unfoldable pub deliver_for :
    (CurrentDelivery → M (Unit {0})) → ℕ → Text → Option Account → M (Unit {0})
unfolding deliver_current
deliver_for send id purpose none = pure tt
deliver_for send id purpose (some account) = do
  found ← Deliveries.get_delivery_challenge_for_update id
  challenge ← row_or (foreign 5) found
  deliver_current send id purpose account challenge

unfoldable pub with_current_delivery : Text → Text → (CurrentDelivery → M (Unit {0})) → M (Unit {0})
unfolding deliver_for
with_current_delivery challenge_id purpose send = do
  id ← parse_uuid_or invalid_uuid challenge_id
  within_transaction (do
    account ← Deliveries.get_delivery_account_for_update id
    deliver_for send id purpose account)

unfoldable pub purge_terminal : M (Unit {0})
purge_terminal = do deleted ← Deliveries.purge_terminal_deliveries; pure tt
