-- ===== src/Identity/Database.antt =====
-- The tables of the Identity database (services/identity/db/migrations), one record for each.
-- A nullable column is an `Option`; times are nanoseconds since Go's zero time, which is 0.
use flowspace_api.Base.{ℕ, List, Option, Text, Bool}

-- identity_accounts
pub record Account : Type 0 where
  pub subject : Text
  pub email_local : Text
  pub email_domain : Text
  pub password_hash : Option Text
  pub email_verified_at : Option ℕ
  pub retired_at : Option ℕ

-- identity_sessions
pub record Session : Type 0 where
  pub id : ℕ
  pub account_subject : Text
  pub refresh_token_hash : Text
  pub created_at : ℕ
  pub reauthenticated_at : Option ℕ
  pub idle_expires_at : ℕ
  pub absolute_expires_at : ℕ
  pub revoked_at : Option ℕ

-- identity_challenges
pub record ChallengeRow : Type 0 where
  pub id : ℕ
  pub account_subject : Text
  pub purpose : Text
  pub email_local : Text
  pub email_domain : Text
  pub code_verifier : Text
  pub wrong_guesses : ℕ
  pub issued_at : ℕ
  pub expires_at : ℕ
  pub replaced_at : Option ℕ
  pub consumed_at : Option ℕ

-- identity_challenge_deliveries
pub record Delivery : Type 0 where
  pub challenge_id : ℕ
  pub key_version : ℕ
  pub nonce : Text
  pub ciphertext : Text

-- identity_outbox_events
pub record OutboxRow : Type 0 where
  pub id : ℕ
  pub challenge_id : ℕ
  pub created_at : ℕ
  pub next_attempt_at : ℕ
  pub attempt_count : ℕ
  pub claim_owner : Option Text
  pub claimed_until : Option ℕ
  pub published_at : Option ℕ

-- identity_password_change_notices
pub record Notice : Type 0 where
  pub id : ℕ
  pub account_subject : Text
  pub email_local : Text
  pub email_domain : Text
  pub created_at : ℕ
  pub next_attempt_at : ℕ
  pub attempt_count : ℕ
  pub delivered_at : Option ℕ

-- identity_rotated_refresh_tokens
pub record RotatedToken : Type 0 where
  pub token_hash : Text
  pub session_id : ℕ

-- identity_limit_counters
pub record LimitCounter : Type 0 where
  pub scope : Text
  pub counter_key : Text
  pub action : Text
  pub window_start : ℕ
  pub uses : ℕ

-- identity_provider_login_attempts
pub record Attempt : Type 0 where
  pub id : ℕ
  pub provider : Text
  pub attempt_token_verifier : Text
  pub state_verifier : Text
  pub code_verifier : Text
  pub nonce : Option Text
  pub callback_url : Text
  pub purpose : Text
  pub account_subject : Option Text
  pub session_id : Option ℕ
  pub expires_at : ℕ
  pub state_consumed_at : Option ℕ
  pub provider_subject : Option Text
  pub provider_email : Option Text
  pub provider_email_verified : Bool
  pub provider_hosted_domain : Option Text
  pub handoff_code_verifier : Option Text
  pub failed_at : Option ℕ
  pub session_claimed_at : Option ℕ
  pub reauthentication_claimed_at : Option ℕ
  pub handoff_failures : ℕ

-- identity_provider_links
pub record Link : Type 0 where
  pub provider : Text
  pub provider_subject : Text
  pub account_subject : Text

-- The tables that a transaction of the account repository reads and writes.
pub record Database : Type 0 where
  pub accounts : List Account
  pub sessions : List Session
  pub challenges : List ChallengeRow
  pub deliveries : List Delivery
  pub outbox : List OutboxRow
  pub notices : List Notice
  pub rotated_tokens : List RotatedToken
  pub attempts : List Attempt
  pub links : List Link
