-- ===== src/Encoding/Base64/RoundTrip.antt =====
-- Decoding undoes encoding.
use flowspace_api.Base.{
  ℕ, ◌+◌, ◌*◌, ◌/◌, ◌%◌, ◌<◌, ◌≡◌, refl, Bool, false, List, [], ◌∷◌, some, All, arith, Text, ◌⊎◌,
}
use flowspace_api.Encoding.Base64.{
  Alphabet, raw_std, raw_url, letter, sextet, encode, sextets, pack, decode, is_newline, cons?,
}

-- An alphabet whose last two letters are the standard ones or those for URLs.
abbrev pub IsRaw : Alphabet → Type 0
IsRaw al = (al ≡ raw_std) ⊎ (al ≡ raw_url)

abbrev pub IsByte : ℕ → Type 0
IsByte c = c < 256

letter_lem :
    (al : Alphabet) (v : ℕ)
    → IsRaw al
    → v < 64
    → (sextet al (letter al v) ≡ some v) × (is_newline (letter al v) ≡ false)
unfolding sextet letter
letter_lem al v r h = ground arith

sextets-letter :
    (al : Alphabet) (v : ℕ) (s : Text)
    → IsRaw al
    → v < 64
    → sextets al (letter al v ∷ s) ≡ cons? (some v) (sextets al s)
unfolding sextets
sextets-letter al v s r h = ground (arith, letter_lem al v r h)

-- The sextets of three bytes, before they become letters.
unpack : Text → List ℕ
unpack [] = []
unpack (a ∷ []) = (a / 4) ∷ (a % 4 * 16) ∷ []
unpack (a ∷ b ∷ []) = (a / 4) ∷ (a % 4 * 16 + b / 16) ∷ (b % 16 * 4) ∷ []
unpack (a ∷ b ∷ c ∷ s) =
    (a / 4) ∷ (a % 4 * 16 + b / 16) ∷ (b % 16 * 4 + c / 64) ∷ (c % 64) ∷ unpack s

sextets-nil : (al : Alphabet) → sextets al [] ≡ some []
unfolding sextets
sextets-nil al = refl

sextets-encode :
    (al : Alphabet) (s : Text)
    → IsRaw al
    → All IsByte s
    → sextets al (encode al s) ≡ some (unpack s)
unfolding encode unpack
sextets-encode al [] r h = sextets-nil al
sextets-encode al (a ∷ []) r h = rw (
  sextets-letter al (a / 4) _ r (omega arith),
  sextets-letter al (a % 4 * 16) _ r (omega arith),
  sextets-nil al,
)
sextets-encode al (a ∷ b ∷ []) r h = rw (
  sextets-letter al (a / 4) _ r (omega arith),
  sextets-letter al (a % 4 * 16 + b / 16) _ r (omega arith),
  sextets-letter al (b % 16 * 4) _ r (omega arith),
  sextets-nil al,
)
sextets-encode al (a ∷ b ∷ c ∷ s) r h = rw (
  sextets-letter al (a / 4) _ r (omega arith),
  sextets-letter al (a % 4 * 16 + b / 16) _ r (omega arith),
  sextets-letter al (b % 16 * 4 + c / 64) _ r (omega arith),
  sextets-letter al (c % 64) _ r (omega arith),
  sextets-encode al s r h.1.1.1,
)

pack-unpack : (strict : Bool) (s : Text) → All IsByte s → pack strict (unpack s) ≡ some s
unfolding unpack pack
pack-unpack strict [] h = refl
pack-unpack strict (a ∷ []) h = ground arith
pack-unpack strict (a ∷ b ∷ []) h = ground arith
pack-unpack strict (a ∷ b ∷ c ∷ s) h = ground (arith, pack-unpack strict s)

-- Decoding the encoding of a text of bytes gives the text back, also with Strict.
pub decode-encode :
    (strict : Bool) (al : Alphabet) (s : Text)
    → IsRaw al
    → All IsByte s
    → decode strict al (encode al s) ≡ some s
unfolding decode
decode-encode strict al s r h = rw (sextets-encode al s r h, decode) (pack-unpack strict s h)
