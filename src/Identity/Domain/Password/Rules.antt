-- ===== src/Identity/Domain/Password/Rules.antt =====
-- Which passwords are accepted.
use flowspace_api.Base.{[], ◌∷◌, ◌≡◌, refl, ◌↔◌, ◌≤◌, true, false, arith, any, Text, text_eq, ◌⊎◌}
use flowspace_api.Encoding.Utf8.{valid_string, rune_count}
use flowspace_api.Identity.Run.{Env, done}
use flowspace_api.Identity.Domain.Password.{
  validate_password, normalize_login_password, common_passwords_v1, is_lower, is_digit,
}

-- A password is accepted exactly when it is valid UTF-8 and its NFC form has 8 to 64 runes, is no
-- common password in lower case and, below 15 runes, has an ASCII lower-case letter and a digit; the
-- result is that form.
pub validate_password-done :
    (e : Env) (input password : Text)
    → (validate_password e input ≡ done password) ↔ (
        (valid_string input ≡ true)
        × (password ≡ e.nfc input)
        × (8 ≤ rune_count password)
        × (rune_count password ≤ 64)
        × ((15 ≤ rune_count password)
            ⊎ ((any is_lower password ≡ true) × (any is_digit password ≡ true)))
        × (any (text_eq (e.to_lower password)) common_passwords_v1 ≡ false))
unfolding validate_password
validate_password-done e input password = (λ h. ground arith, λ h. ground arith)

-- When the empty text is its own NFC form, every password that can be set can be used to log in:
-- both normalize it to the same text.
pub normalize_login_password-validate_password :
    (e : Env) (input password : Text)
    → e.nfc [] ≡ []
    → validate_password e input ≡ done password
    → normalize_login_password e input ≡ done password
unfolding validate_password normalize_login_password
normalize_login_password-validate_password e [] password n h = absurd (ground (arith, none_counted))
  where
    none_counted : rune_count [] ≡ 0
    none_counted = unfold rune_count in refl
normalize_login_password-validate_password e (c ∷ input) password n h = ground arith
