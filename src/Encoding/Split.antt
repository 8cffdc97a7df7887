-- ===== src/Encoding/Split.antt =====
-- `strings.Split` at one byte.
use flowspace_api.Base.{ℕ, List, [], ◌∷◌, ◌==◌, if◌then◌else◌, Text}

abbrev pub extend : ℕ → List Text → List Text
extend c [] = (c ∷ []) ∷ []
extend c (part ∷ parts) = (c ∷ part) ∷ parts

unfoldable pub split : ℕ → Text → List Text
split sep [] = [] ∷ []
split sep (c ∷ s) = let rest = split sep s in if c == sep then [] ∷ rest else extend c rest
