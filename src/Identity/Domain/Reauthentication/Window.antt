-- ===== src/Identity/Domain/Reauthentication/Window.antt =====
-- When a window is open.
use flowspace_api.Base.{ℕ, ◌+◌, ◌*◌, ◌≡◌, ◌≢◌, ◌<◌, ◌≤◌, ◌↔◌, true, arith}
use flowspace_api.Identity.Domain.Challenge.{minute}
use flowspace_api.Identity.Domain.Reauthentication.{ReauthenticationWindow, is_open}

-- A window is open exactly from the authentication on, for less than 10 minutes and before both
-- expiries of the session; a session that never authenticated has no open window.
is_open_iff :
    (w : ReauthenticationWindow) (now : ℕ)
    → (is_open w now ≡ true) ↔ (
        (w.authenticated_at ≢ 0)
        × (w.authenticated_at ≤ now)
        × (now < w.authenticated_at + 10 * minute)
        × (now < w.idle_expires_at)
        × (now < w.absolute_expires_at))
unfolding is_open
is_open_iff w now = (λ h. ground arith, λ h. ground arith)
