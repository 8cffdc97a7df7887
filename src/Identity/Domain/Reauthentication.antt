-- ===== src/Identity/Domain/Reauthentication.antt =====
-- services/identity/internal/domain/reauthentication.go. The zero time is 0; Go's times stand before
-- the year 292 billion, so a sum does not wrap.
pub mod Window
use flowspace_api.Base.{ℕ, ◌+◌, ◌*◌, Bool, true, false, not, ◌&&◌, ltb, ◌==◌, if◌then◌else◌}
use flowspace_api.Identity.Domain.Challenge.{minute}

pub record ReauthenticationWindow : Type 0 where
  pub authenticated_at : ℕ
  pub idle_expires_at : ℕ
  pub absolute_expires_at : ℕ

abbrev pub is_zero : ℕ → Bool
is_zero t = t == 0

-- `if a.Before(end) { end = a }`.
abbrev pub earlier : ℕ → ℕ → ℕ
earlier a end' = if ltb a end' then a else end'

unfoldable pub expires_at : ReauthenticationWindow → ℕ
expires_at w =
    if is_zero w.authenticated_at
    then 0
    else earlier w.absolute_expires_at
        (earlier w.idle_expires_at (w.authenticated_at + 10 * minute))

unfoldable pub is_open : ReauthenticationWindow → ℕ → Bool
unfolding expires_at
is_open w now =
    not (is_zero w.authenticated_at) && not (ltb now w.authenticated_at) && ltb now (expires_at w)
