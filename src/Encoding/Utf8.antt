-- ===== src/Encoding/Utf8.antt =====
-- `utf8.ValidString` and `utf8.RuneCountInString`.
use flowspace_api.Base.{
  ℕ, zero, suc, Bool, true, false, ◌&&◌, [], ◌∷◌, leb, ltb, if◌then◌else◌, Text, count, not, ◌==◌,
}

-- A byte that starts a rune: how many bytes follow it, and the range of the first of them.
pub record Lead : Type 0 where
  pub follow : ℕ
  pub low : ℕ
  pub high : ℕ
  pub valid : Bool

unfoldable pub lead : ℕ → Lead
lead c =
    if leb c 0x7f
    then record { follow = 0; low = 0; high = 0; valid = true }
    else if ltb c 0xc2
    then record { follow = 0; low = 0; high = 0; valid = false }
    else if leb c 0xdf
    then record { follow = 1; low = 0x80; high = 0xbf; valid = true }
    else if c == 0xe0
    then record { follow = 2; low = 0xa0; high = 0xbf; valid = true }
    else if c == 0xed
    then record { follow = 2; low = 0x80; high = 0x9f; valid = true }
    else if leb c 0xef
    then record { follow = 2; low = 0x80; high = 0xbf; valid = true }
    else if c == 0xf0
    then record { follow = 3; low = 0x90; high = 0xbf; valid = true }
    else if leb c 0xf3
    then record { follow = 3; low = 0x80; high = 0xbf; valid = true }
    else if c == 0xf4
    then record { follow = 3; low = 0x80; high = 0x8f; valid = true }
    else record { follow = 0; low = 0; high = 0; valid = false }

-- The rest of a text in which so many bytes of a rune are still to come, the next one in a range.
unfoldable pub valid_from : ℕ → ℕ → ℕ → Text → Bool
unfolding lead
valid_from zero low high [] = true
valid_from (suc k) low high [] = false
valid_from zero low high (c ∷ s) =
    (lead c).valid && valid_from (lead c).follow (lead c).low (lead c).high s
valid_from (suc k) low high (c ∷ s) = (leb low c && leb c high) && valid_from k 0x80 0xbf s

unfoldable pub valid_string : Text → Bool
unfolding valid_from
valid_string s = valid_from 0 0 0 s

-- The number of runes of a valid text, the only ones it is asked of: bytes that do not continue one.
unfoldable pub rune_count : Text → ℕ
rune_count s = count (λ c. not (leb 0x80 c && leb c 0xbf)) s
