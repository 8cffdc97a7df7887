-- ===== src/Encoding/Fields.antt =====
-- `strings.Fields`, and `strings.EqualFold` with an ASCII text whose letters fold to no other rune.
use flowspace_api.Base.{
  ◌≡◌, refl, ℕ, ◌+◌, Bool, not, ◌&&◌, List, [], ◌∷◌, Option, none, some, leb, if◌then◌else◌, filter,
  Text, text_eq, is_empty, map, bytes,
}
use flowspace_api.Encoding.Split.{extend}
use flowspace_api.Encoding.Trim.{is_space_1, is_space_2, is_space_3}

-- The bytes, with `none` for each space.
unfoldable pub mark_spaces : Text → List (Option ℕ)
mark_spaces [] = []
mark_spaces (c ∷ []) = if is_space_1 c then none ∷ [] else some c ∷ []
mark_spaces (c ∷ d ∷ []) =
    let one = mark_spaces (d ∷ []) in
    if is_space_1 c then none ∷ one else if is_space_2 c d then none ∷ [] else some c ∷ one
mark_spaces (c ∷ d ∷ e ∷ s) =
    let one = mark_spaces (d ∷ e ∷ s) in
    let two = mark_spaces (e ∷ s) in
    let three = mark_spaces s in
    if is_space_1 c
    then none ∷ one
    else if is_space_2 c d
    then none ∷ two
    else if is_space_3 c d e
    then none ∷ three
    else some c ∷ one

unfoldable pub words : List (Option ℕ) → List Text
words [] = [] ∷ []
words (none ∷ s) = [] ∷ words s
words (some c ∷ s) = extend c (words s)

unfoldable pub fields : Text → List Text
unfolding mark_spaces words
fields s = filter (λ word. not (is_empty word)) (words (mark_spaces s))

abbrev pub lower_ascii : ℕ → ℕ
lower_ascii c = if leb 65 c && leb c 90 then c + 32 else c

unfoldable pub equal_fold_ascii : Text → Text → Bool
equal_fold_ascii s t = text_eq (map lower_ascii s) (map lower_ascii t)

fields_test : fields (bytes " Bearer  x ") ≡ bytes "Bearer" ∷ bytes "x" ∷ []
unfolding fields
fields_test = refl
