-- ===== src/Identity/Domain/Email.antt =====
-- services/identity/internal/domain/email.go, and `strings.Cut(email, "@")` of the repository.
pub mod Normal
use flowspace_api.Base.{
  ℕ, ◌+◌, ◌≡◌, Bool, true, false, not, ◌&&◌, ◌||◌, List, [], ◌∷◌, ◌++◌, map, Option, none, some,
  ltb, leb, ◌==◌, if◌then◌else◌, all, any, Text, text_eq, is_empty,
}
use flowspace_api.Identity.Errors.{sentinel, invalid_email}
use flowspace_api.Identity.Run.{Env, Result, done, refused}

-- '@'
abbrev pub at_sign : ℕ
at_sign = 64

-- `strings.ToLower` on a byte of an ASCII text.
unfoldable pub lower : ℕ → ℕ
lower c = if leb 65 c && leb c 90 then c + 32 else c

-- The parts before and after the last '@' (`strings.LastIndexByte`), if there is one.
unfoldable pub cut_last : Text → Option (Text × Text)
cut_last [] = none
cut_last (c ∷ s) = elim (cut_last s) [
  | some (local, domain) ↦ some (c ∷ local, domain)
  | none ↦ if c == at_sign then some ([], s) else none
]

-- The parts before and after the first '@' (`strings.Cut`).
unfoldable pub cut : Text → Option (Text × Text)
cut [] = none
cut (c ∷ s) =
    if c == at_sign
    then some ([], s)
    else elim (cut s) [ some (local, domain) ↦ some (c ∷ local, domain) | none ↦ none ]

-- An address is one that `mail.ParseAddress` reads back with no name and unchanged.
unfoldable pub is_bare_address : Env → Text → Bool
is_bare_address e address = elim (e.parse_address address) [
  | none ↦ false
  | some (name, parsed) ↦ is_empty name && text_eq parsed address
]

-- The domain of the address in lower case; both parts are not empty.
unfoldable pub lower_domain : Option (Text × Text) → Result Text
unfolding lower
lower_domain none = refused (sentinel invalid_email)
lower_domain (some (local, domain)) =
    if is_empty local || is_empty domain
    then refused (sentinel invalid_email)
    else done (local ++ at_sign ∷ map lower domain)

unfoldable pub normalize_email : Env → Text → Result Text
unfolding is_bare_address lower_domain cut_last
normalize_email e address =
    if any (ltb 127) address
    then refused (sentinel invalid_email)
    else if not (is_bare_address e address)
    then refused (sentinel invalid_email)
    else lower_domain (cut_last address)
