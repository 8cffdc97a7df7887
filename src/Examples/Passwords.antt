-- ===== src/Examples/Passwords.antt =====
-- Passwords, windows, provider secrets and tokens at concrete inputs.
use flowspace_api.Base.{
  ◌+◌, ◌*◌, ◌%◌, ◌≤◌, ◌<◌, true, false, some, Text, bytes, ◌≡◌, ◌↔◌, refl, ◌⊎◌, length, any,
  is_empty, text_eq,
}
use flowspace_api.Encoding.Base64.{raw_url, encode, decode}
use flowspace_api.Encoding.Split.{split}
use flowspace_api.Encoding.Utf8.{valid_string, rune_count}
use flowspace_api.Identity.Errors.{
  Err, sentinel, is_context, invalid_refresh_token, unauthenticated_refresh, refresh_unavailable,
}
use flowspace_api.Identity.Run.{
  done, ok, err, tick, pure, ◌>>=◌, lift, asks, rand_read, map_err, check_context,
}
use flowspace_api.Identity.Domain.Email.{normalize_email}
use flowspace_api.Identity.Domain.Challenge.{minute, second}
use flowspace_api.Identity.Domain.Password.{
  is_lower, is_digit, common_passwords_v1, validate_password, hash_password, verify_password,
  stored_password, stored_parts,
}
use flowspace_api.Identity.Domain.Password.Rules.{validate_password-done}
use flowspace_api.Identity.Domain.Password.Stored.{
  stored_parts-stored_password, verify_password-hash_password,
}
use flowspace_api.Identity.Domain.Reauthentication.{ReauthenticationWindow}
use flowspace_api.Identity.Domain.ProviderLogin.{
  provider_google, has_suffix, gmail_suffix, new_provider_account_email, new_provider_handoff_code,
  valid_provider_secret,
}
use flowspace_api.Identity.Domain.ProviderLogin.Secrets.{
  valid_provider_secret-new_provider_handoff_code, new_provider_account_email-some,
}
use flowspace_api.Identity.App.Sessions.{access_expiry, canonical_secret, refresh_session}
use flowspace_api.Identity.App.Sessions.Tokens.{
  access_expiry-bounds, canonical_secret-encode, refresh_session-errors,
}
use flowspace_api.Examples.Worlds.{quiet, start, zeros}
use flowspace_api.Examples.Draws.{zeros-IsByte, quiet-MakesBytes}

abbrev long_password : Text
long_password = bytes "abcdefgh12345678"

validate_password-done_example : (validate_password quiet long_password ≡ done long_password) ↔ (
    (valid_string long_password ≡ true)
    × (long_password ≡ long_password)
    × (8 ≤ rune_count long_password)
    × (rune_count long_password ≤ 64)
    × ((15 ≤ rune_count long_password)
        ⊎ ((any is_lower long_password ≡ true) × (any is_digit long_password ≡ true)))
    × (any (text_eq long_password) common_passwords_v1 ≡ false))
validate_password-done_example = validate_password-done quiet long_password long_password

password_valid : validate_password quiet long_password ≡ done long_password
unfolding validate_password valid_string rune_count text_eq
password_valid = refl

stored_parts-stored_password_example :
    stored_parts (split b'$' (stored_password (zeros 16) (zeros 32))) ≡ some (zeros 16, zeros 32)
stored_parts-stored_password_example =
    stored_parts-stored_password (zeros 16) (zeros 32) (zeros-IsByte 16) (zeros-IsByte 32) refl refl

abbrev long_stored : Text
long_stored = stored_password (zeros 16) (zeros 32)

password_hashed :
    hash_password long_password (some (λ p. pure false)) quiet start
    ≡ ok long_stored (tick (tick start))
unfolding hash_password ◌>>=◌ lift validate_password valid_string rune_count text_eq map_err
    check_context rand_read asks
password_hashed = refl

verify_password-hash_password_example :
    verify_password long_password long_stored quiet start ≡ ok true (tick (tick start))
verify_password-hash_password_example =
    verify_password-hash_password quiet start (tick (tick start)) start long_password long_stored
      (some (λ p. pure false)) quiet-MakesBytes password_hashed refl refl

abbrev window : ReauthenticationWindow
window = record { authenticated_at = 10; idle_expires_at = 900; absolute_expires_at = 800 }

handoff_drawn : new_provider_handoff_code quiet start ≡ ok (encode raw_url (zeros 32)) (tick start)
unfolding new_provider_handoff_code ◌>>=◌ rand_read
handoff_drawn = refl

valid_provider_secret-new_provider_handoff_code_example :
    valid_provider_secret (encode raw_url (zeros 32)) ≡ true
valid_provider_secret-new_provider_handoff_code_example =
    valid_provider_secret-new_provider_handoff_code quiet start (tick start)
      (encode raw_url (zeros 32)) quiet-MakesBytes handoff_drawn

new_provider_account_email-some_example :
    (new_provider_account_email quiet provider_google (bytes "ann@b.org") true (bytes "b.org")
      ≡ some (bytes "ann@b.org", true))
    ↔ ((true ≡ true)
        × (normalize_email quiet (bytes "ann@b.org") ≡ done (bytes "ann@b.org"))
        × ((true ≡ true) ↔ (
            (provider_google ≡ provider_google)
            × ((has_suffix (bytes "ann@b.org") gmail_suffix ≡ true)
                ⊎ (is_empty (bytes "b.org") ≡ false)))))
new_provider_account_email-some_example =
    new_provider_account_email-some quiet provider_google (bytes "ann@b.org") (bytes "b.org")
      (bytes "ann@b.org") true true

access_expiry-bounds_example :
    (access_expiry 100 (3 * second + 5) % second ≡ 0)
    × (access_expiry 100 (3 * second + 5) ≤ 100 + 10 * minute)
    × (access_expiry 100 (3 * second + 5) ≤ 3 * second + 5)
    × ((3 * second + 5 < access_expiry 100 (3 * second + 5) + second)
        ⊎ (100 + 10 * minute < access_expiry 100 (3 * second + 5) + second))
access_expiry-bounds_example = access_expiry-bounds 100 (3 * second + 5)

canonical_secret-encode_example :
    (canonical_secret (encode raw_url (zeros 32)) (decode false raw_url (encode raw_url (zeros 32)))
      ≡ some (zeros 32))
    ↔ ((encode raw_url (zeros 32) ≡ encode raw_url (zeros 32)) × (length (zeros 32) ≡ 32))
canonical_secret-encode_example =
    canonical_secret-encode (encode raw_url (zeros 32)) (zeros 32) (zeros-IsByte 32)

-- A token that is no encoding of 32 bytes.
short_token :
    refresh_session (some (λ claims. pure (bytes "jwt"))) (bytes "AAAA") quiet start
    ≡ err (sentinel invalid_refresh_token) start
unfolding refresh_session decode
short_token = refl

refresh_session-errors_example :
    (◌≡◌ {A = Err} (sentinel invalid_refresh_token) (sentinel invalid_refresh_token))
    ⊎ ((◌≡◌ {A = Err} (sentinel invalid_refresh_token) (sentinel unauthenticated_refresh))
        ⊎ ((◌≡◌ {A = Err} (sentinel invalid_refresh_token) (sentinel refresh_unavailable))
            ⊎ (is_context (sentinel invalid_refresh_token) ≡ true)))
refresh_session-errors_example =
    refresh_session-errors (some (λ claims. pure (bytes "jwt"))) (bytes "AAAA") quiet start start
      (sentinel invalid_refresh_token) short_token
