-- ===== src/Encoding/Trim.antt =====
-- `strings.TrimSpace`: the runes of `unicode.IsSpace` at both ends, as their UTF-8 bytes.
use flowspace_api.Base.{◌≡◌, refl, ℕ, Bool, ◌&&◌, ◌||◌, [], ◌∷◌, leb, ◌==◌, if◌then◌else◌, Text}

-- Tab to carriage return, and the space.
abbrev pub is_space_1 : ℕ → Bool
is_space_1 c = (leb 9 c && leb c 13) || c == 32

-- U+0085 and U+00A0.
abbrev pub is_space_2 : ℕ → ℕ → Bool
is_space_2 c d = c == 0xc2 && (d == 0x85 || d == 0xa0)

-- U+1680, U+2000 to U+200A, U+2028, U+2029, U+202F, U+205F and U+3000.
abbrev pub is_space_3 : ℕ → ℕ → ℕ → Bool
is_space_3 c d e =
    (c == 0xe1 && d == 0x9a && e == 0x80)
    || (c == 0xe2
        && d == 0x80
        && ((leb 0x80 e && leb e 0x8a) || e == 0xa8 || e == 0xa9 || e == 0xaf))
    || (c == 0xe2 && d == 0x81 && e == 0x9f)
    || (c == 0xe3 && d == 0x80 && e == 0x80)

unfoldable pub trim_left : Text → Text
trim_left [] = []
trim_left (c ∷ []) = if is_space_1 c then [] else c ∷ []
trim_left (c ∷ d ∷ []) =
    let one = trim_left (d ∷ []) in
    if is_space_1 c then one else if is_space_2 c d then [] else c ∷ d ∷ []
trim_left (c ∷ d ∷ e ∷ s) =
    let one = trim_left (d ∷ e ∷ s) in
    let two = trim_left (e ∷ s) in
    let three = trim_left s in
    if is_space_1 c
    then one
    else if is_space_2 c d
    then two
    else if is_space_3 c d e
    then three
    else c ∷ d ∷ e ∷ s

unfoldable pub reverse_onto : Text → Text → Text
reverse_onto [] t = t
reverse_onto (c ∷ s) t = reverse_onto s (c ∷ t)

-- The same from the end, on a reversed text, where the bytes of a rune stand in reverse.
unfoldable pub trim_reversed : Text → Text
trim_reversed [] = []
trim_reversed (c ∷ []) = if is_space_1 c then [] else c ∷ []
trim_reversed (d ∷ c ∷ []) =
    let one = trim_reversed (c ∷ []) in
    if is_space_1 d then one else if is_space_2 c d then [] else d ∷ c ∷ []
trim_reversed (e ∷ d ∷ c ∷ s) =
    let one = trim_reversed (d ∷ c ∷ s) in
    let two = trim_reversed (c ∷ s) in
    let three = trim_reversed s in
    if is_space_1 e
    then one
    else if is_space_2 d e
    then two
    else if is_space_3 c d e
    then three
    else e ∷ d ∷ c ∷ s

unfoldable pub trim_space : Text → Text
unfolding trim_left reverse_onto trim_reversed
trim_space s = reverse_onto (trim_reversed (reverse_onto (trim_left s) [])) []

trim_space_test : trim_space (32 ∷ 9 ∷ 65 ∷ 32 ∷ 66 ∷ 0xc2 ∷ 0xa0 ∷ 32 ∷ []) ≡ 65 ∷ 32 ∷ 66 ∷ []
unfolding trim_space
trim_space_test = refl
