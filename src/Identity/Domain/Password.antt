-- ===== src/Identity/Domain/Password.antt =====
-- services/identity/internal/domain/password.go.
pub mod Rules
pub mod Stored
use flowspace_api.Base.{
  ℕ, Bool, true, false, not, ◌&&◌, ◌||◌, List, [], ◌∷◌, ◌++◌, Option, none, some, ltb, leb, ◌==◌,
  if◌then◌else◌, any, length, Text, bytes, text_eq, is_empty,
}
use flowspace_api.Encoding.Base64.{raw_std, encode, decode}
use flowspace_api.Encoding.Utf8.{valid_string, rune_count}
use flowspace_api.Encoding.Split.{split}
use flowspace_api.Identity.Errors.{
  Err, sentinel, invalid_password, password_check_unavailable, password_hashing_unavailable,
}
use flowspace_api.Identity.Run.{
  Env, M, Result, done, refused, pure, fail, lift, asks, map_err, rand_read, check_context, ◌>>=◌,
  ◌>>◌,
}

-- The keys of `commonPasswordsV1`.
unfoldable pub common_passwords_v1 : List Text
common_passwords_v1 = bytes "password123" ∷ bytes "qwerty123" ∷ bytes "flowspace123" ∷ []

abbrev pub is_lower : ℕ → Bool
is_lower c = leb b'a' c && leb c b'z'

abbrev pub is_digit : ℕ → Bool
is_digit c = leb b'0' c && leb c b'9'

-- The rules on the text after NFC.
unfoldable pub validate_normal : Env → Text → Result Text
unfolding common_passwords_v1
validate_normal e password =
    let size = rune_count password in
    if ltb size 8 || ltb 64 size
    then refused (sentinel invalid_password)
    else if ltb size 15 && (not (any is_lower password) || not (any is_digit password))
    then refused (sentinel invalid_password)
    else if any (text_eq (e.to_lower password)) common_passwords_v1
    then refused (sentinel invalid_password)
    else done password

unfoldable pub validate_password : Env → Text → Result Text
unfolding validate_normal
validate_password e password =
    if not (valid_string password)
    then refused (sentinel invalid_password)
    else validate_normal e (e.nfc password)

unfoldable pub normalize_login_password : Env → Text → Result Text
normalize_login_password e password =
    if not (valid_string password) || is_empty password
    then refused (sentinel invalid_password)
    else if ltb 64 (rune_count (e.nfc password))
    then refused (sentinel invalid_password)
    else done (e.nfc password)

-- `argon2.Version` and the parameters, as the stored text spells them.
unfoldable pub version_part : Text
version_part = bytes "v=19"

unfoldable pub parameters_part : Text
parameters_part = bytes "m=19456,t=2,p=1"

unfoldable pub scheme_part : Text
scheme_part = bytes "argon2id"

unfoldable pub stored_password : Text → Text → Text
stored_password salt hash =
    b'$'
    ∷ (scheme_part
        ++ b'$'
          ∷ (version_part
              ++ b'$'
                ∷ (parameters_part ++ b'$' ∷ (encode raw_std salt ++ b'$' ∷ encode raw_std hash))))

-- `if blocked { return "", ErrInvalidPassword }`.
abbrev pub unless_blocked : Bool → M (Unit {0})
unless_blocked true = fail (sentinel invalid_password)
unless_blocked false = pure tt

abbrev pub compromised_check : Option (Text → M Bool) → Text → M Bool
compromised_check none password = fail (sentinel password_check_unavailable)
compromised_check (some compromised) password =
    map_err (λ x. sentinel password_check_unavailable) (compromised password)

unfoldable pub hash_password : Text → Option (Text → M Bool) → M Text
unfolding stored_password
hash_password input compromised = do
  password ← lift (λ e. validate_password e input)
  blocked ← compromised_check compromised password
  unless_blocked blocked
  check_context
  salt ← rand_read 16 (sentinel password_hashing_unavailable)
  hash ← asks (λ e. e.argon2_id_key password salt)
  pure (stored_password salt hash)

-- The salt and the hash of a stored text with the expected scheme, version and parameters.
abbrev pub decoded_parts : Option Text → Option Text → Option (Text × Text)
decoded_parts none h = none
decoded_parts (some s) none = none
decoded_parts (some s) (some h) = if length s == 16 && length h == 32 then some (s, h) else none

unfoldable pub stored_parts : List Text → Option (Text × Text)
stored_parts (p0 ∷ p1 ∷ p2 ∷ p3 ∷ p4 ∷ p5 ∷ []) =
    if is_empty p0
      && text_eq p1 scheme_part
      && text_eq p2 version_part
      && text_eq p3 parameters_part
    then decoded_parts (decode false raw_std p4) (decode false raw_std p5)
    else none
stored_parts _ = none

abbrev pub or_unavailable : {A : Type 0} → Option A → M A
or_unavailable none = fail (sentinel password_hashing_unavailable)
or_unavailable (some a) = pure a

unfoldable pub verify_password : Text → Text → M Bool
verify_password input stored = do
  password ← lift (λ e. normalize_login_password e input)
  (salt, expected) ← or_unavailable (stored_parts (split b'$' stored))
  check_context
  actual ← asks (λ e. e.argon2_id_key password salt)
  check_context
  pure (text_eq actual expected)
