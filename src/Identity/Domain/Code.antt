-- ===== src/Identity/Domain/Code.antt =====
-- services/identity/internal/domain/challenge.go: six-digit codes and the keyed verifier. The same
-- framing of fields is in ProviderSecretVerifier (services/identity/internal/domain/provider_login.go).
pub mod Framing
use flowspace_api.Base.{
  ℕ, zero, suc, ◌+◌, ◌*◌, ◌/◌, ◌%◌, ◌≡◌, Bool, true, false, ◌&&◌, ◌||◌, List, [], ◌∷◌, ◌++◌, some,
  none, Option, ltb, leb, ◌==◌, if◌then◌else◌, all, length, Text, bytes, text_eq, is_empty, not,
}
use flowspace_api.Identity.Errors.{sentinel, code_generation_unavailable}
use flowspace_api.Identity.Run.{Env, M, tick, ok, err}

abbrev pub is_digit : ℕ → Bool
is_digit c = not (ltb c b'0') && not (ltb b'9' c)

-- The checks on a code in `matchesVerifier` and in `validVerificationCode` of the services.
unfoldable pub valid_verification_code : Text → Bool
valid_verification_code code = length code == 6 && all is_digit code

-- `fmt.Sprintf("%06d", n)` below a million.
unfoldable pub six_digits : ℕ → Text
six_digits n =
    (b'0' + n / 100000 % 10)
    ∷ (b'0' + n / 10000 % 10)
    ∷ (b'0' + n / 1000 % 10)
    ∷ (b'0' + n / 100 % 10)
    ∷ (b'0' + n / 10 % 10)
    ∷ (b'0' + n % 10)
    ∷ []

unfoldable pub new_code : M Text
unfolding six_digits
new_code e w = elim (e.random_below w.step 1000000) [
  | some n ↦ ok (six_digits n) (tick w)
  | none ↦ err (sentinel code_generation_unavailable) (tick w)
]

-- The decimal digits of n in front of a text, with fuel for one round a digit.
unfoldable pub digits_from : ℕ → ℕ → Text → Text
digits_from zero n acc = acc
digits_from (suc fuel) n acc =
    let rest = digits_from fuel (n / 10) ((b'0' + n % 10) ∷ acc) in
    if n / 10 == 0 then (b'0' + n % 10) ∷ acc else rest

-- `fmt.Fprintf(mac, "%d", n)`; a number has no more digits than its successor counts.
unfoldable pub decimal : ℕ → Text
unfolding digits_from
decimal n = digits_from (suc n) n []

-- `fmt.Fprintf(mac, "%d:%s", len(field), field)` for each field.
unfoldable pub frame : List Text → Text
unfolding decimal
frame [] = []
frame (field ∷ fields) = decimal (length field) ++ b':' ∷ (field ++ frame fields)

unfoldable pub code_verifier : Env → Text → Text → Text → Text → Text → Text
unfolding frame
code_verifier e key subject email purpose code =
    e.hmac key (frame (subject ∷ email ∷ purpose ∷ code ∷ []))
