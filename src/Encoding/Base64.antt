-- ===== src/Encoding/Base64.antt =====
-- `base64.RawStdEncoding` and `base64.RawURLEncoding`, with and without Strict. An alphabet is given
-- by its last two letters.
pub mod RoundTrip
use flowspace_api.Base.{
  ℕ, ◌+◌, ◌-◌, ◌*◌, ◌/◌, ◌%◌, Bool, true, false, ◌&&◌, ◌||◌, List, [], ◌∷◌, ◌++◌, Option, none,
  some, ltb, leb, ◌==◌, if◌then◌else◌, Text, not,
}

-- The last two letters of an alphabet.
pub record Alphabet : Type 0 where
  pub letter_62 : ℕ
  pub letter_63 : ℕ

abbrev pub raw_std : Alphabet
raw_std = record { letter_62 = b'+'; letter_63 = b'/' }

abbrev pub raw_url : Alphabet
raw_url = record { letter_62 = b'-'; letter_63 = b'_' }

unfoldable pub letter : Alphabet → ℕ → ℕ
letter al v =
    if ltb v 26
    then b'A' + v
    else if ltb v 52
    then b'a' + (v - 26)
    else if ltb v 62
    then b'0' + (v - 52)
    else if v == 62
    then al.letter_62
    else al.letter_63

unfoldable pub sextet : Alphabet → ℕ → Option ℕ
sextet al c =
    if leb b'A' c && leb c b'Z'
    then some (c - b'A')
    else if leb b'a' c && leb c b'z'
    then some (c - b'a' + 26)
    else if leb b'0' c && leb c b'9'
    then some (c - b'0' + 52)
    else if c == al.letter_62
    then some 62
    else if c == al.letter_63
    then some 63
    else none

unfoldable pub encode : Alphabet → Text → Text
unfolding letter
encode al [] = []
encode al (a ∷ []) = letter al (a / 4) ∷ letter al (a % 4 * 16) ∷ []
encode al (a ∷ b ∷ []) =
    letter al (a / 4) ∷ letter al (a % 4 * 16 + b / 16) ∷ letter al (b % 16 * 4) ∷ []
encode al (a ∷ b ∷ c ∷ s) =
    letter al (a / 4)
    ∷ letter al (a % 4 * 16 + b / 16)
    ∷ letter al (b % 16 * 4 + c / 64)
    ∷ letter al (c % 64)
    ∷ encode al s

abbrev pub is_newline : ℕ → Bool
is_newline c = c == 10 || c == 13

abbrev pub cons? : Option ℕ → Option (List ℕ) → Option (List ℕ)
cons? none r = none
cons? (some v) none = none
cons? (some v) (some vs) = some (v ∷ vs)

-- The values of the letters; a line break is passed over, any other character is an error.
unfoldable pub sextets : Alphabet → Text → Option (List ℕ)
unfolding sextet
sextets al [] = some []
sextets al (c ∷ s) =
    let rest = sextets al s in if is_newline c then rest else cons? (sextet al c) rest

-- Four letters make three bytes. Strict wants the unused bits of the last letter to be 0.
unfoldable pub pack : Bool → List ℕ → Option Text
pack strict [] = some []
pack strict (p ∷ []) = none
pack strict (p ∷ q ∷ []) =
    if strict && not (q % 16 == 0) then none else some ((p * 4 + q / 16) ∷ [])
pack strict (p ∷ q ∷ r ∷ []) =
    if strict && not (r % 4 == 0)
    then none
    else some ((p * 4 + q / 16) ∷ (q % 16 * 16 + r / 4) ∷ [])
pack strict (p ∷ q ∷ r ∷ s ∷ rest) =
    cons? (some (p * 4 + q / 16))
      (cons? (some (q % 16 * 16 + r / 4)) (cons? (some (r % 4 * 64 + s)) (pack strict rest)))

-- `DecodeString`.
unfoldable pub decode : Bool → Alphabet → Text → Option Text
unfolding sextets pack
decode strict al s = elim (sextets al s) [ none ↦ none | some vs ↦ pack strict vs ]
