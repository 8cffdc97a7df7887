-- ===== src/Identity/App/Sessions/Tokens.antt =====
-- The tokens of a session (services/identity/internal/app/session_service.go and
-- session_refresh_service.go).
use flowspace_api.Base.{
  ℕ, ◌+◌, ◌*◌, ◌%◌, ◌≤◌, ◌<◌, true, false, ◌≡◌, refl, ◌↔◌, ◌⊎◌, inl, inr, Option, none, some, ◌==◌,
  ◌&&◌, All, length, Text, text_eq, text_eq_refl, text_eq→eq, arith, Option-cases, Bool-cases,
  &&_parts, ==_iff, ap, sym, ◌∙◌,
}
use flowspace_api.Encoding.Base64.{raw_url, encode, decode}
use flowspace_api.Encoding.Base64.RoundTrip.{IsByte, decode-encode}
use flowspace_api.Identity.Errors.{
  Err, sentinel, unauthenticated, is, is_context, unauthenticated_refresh, refresh_unavailable,
  invalid_refresh_token,
}
use flowspace_api.Identity.Run.{Env, World, err}
use flowspace_api.Identity.Run.Failures.{
  FailsIn, bind-FailsIn, pure-FailsIn, fail-FailsIn, map_err-FailsIn, asks-FailsIn,
  rand_read-FailsIn,
}
use flowspace_api.Identity.Domain.Challenge.{second, minute}
use flowspace_api.Identity.App.Ports.{keep_or, is_one_of, Signer}
use flowspace_api.Identity.App.Sessions.{
  access_expiry, canonical_secret, refresh_error, refresh_session, refresh_with, unless_replayed,
}

-- An access token ends at a whole second, within ten minutes of its issue and not after the end of
-- its session, and less than a second before the earlier of the two.
pub access_expiry-bounds :
    (issued_at absolute_expires_at : ℕ)
    → (access_expiry issued_at absolute_expires_at % second ≡ 0)
      × (access_expiry issued_at absolute_expires_at ≤ issued_at + 10 * minute)
      × (access_expiry issued_at absolute_expires_at ≤ absolute_expires_at)
      × ((absolute_expires_at < access_expiry issued_at absolute_expires_at + second)
          ⊎ (issued_at + 10 * minute < access_expiry issued_at absolute_expires_at + second))
unfolding access_expiry
access_expiry-bounds issued_at absolute_expires_at = ground arith

canonical_parts :
    (raw secret : Text) (decoded : Option Text)
    → canonical_secret raw decoded ≡ some secret
    → (raw ≡ encode raw_url secret) × (length secret ≡ 32)
unfolding canonical_secret
canonical_parts raw secret none h = absurd (ground arith)
canonical_parts raw secret (some t) h =
    elim (Bool-cases (length t == 32 && text_eq (encode raw_url t) raw)) [
      | inl b ↦
          let (l, q) = &&_parts (length t == 32) (text_eq (encode raw_url t) raw) b in
          let same = ap (λ o. elim o [ some x ↦ x | none ↦ t ]) (rw (b) at h) in
          (
            sym (text_eq→eq (encode raw_url t) raw q) ∙ ap (encode raw_url) same,
            sym (ap length same) ∙ (==_iff (length t) 32).0 l,
          )
      | inr b ↦ absurd (ground arith)
    ]

-- A refresh token holds a secret exactly when it is the encoding of those 32 bytes.
pub canonical_secret-encode :
    (raw secret : Text)
    → All IsByte secret
    → (canonical_secret raw (decode false raw_url raw) ≡ some secret)
      ↔ ((raw ≡ encode raw_url secret) × (length secret ≡ 32))
unfolding canonical_secret
canonical_secret-encode raw secret b = (
  canonical_parts raw secret (decode false raw_url raw),
  λ (h, l).
      rw
        (
          h,
          decode-encode false raw_url secret (inr refl) b,
          l,
          text_eq_refl (encode raw_url secret),
        )
        refl,
)

-- The errors of a refresh.
abbrev IsRefreshError : Err → Type 0
IsRefreshError x =
    (x ≡ sentinel invalid_refresh_token)
    ⊎ ((x ≡ sentinel unauthenticated_refresh)
        ⊎ ((x ≡ sentinel refresh_unavailable) ⊎ (is_context x ≡ true)))

refresh_error-IsRefreshError : (x : Err) → IsRefreshError (refresh_error x)
unfolding refresh_error keep_or is_one_of
refresh_error-IsRefreshError x = elim (Bool-cases (is x unauthenticated)) [
  | inl a ↦ rw (a) (inr (inl refl))
  | inr a ↦ rw (a) (elim (Bool-cases (is_context x)) [
    | inl c ↦ rw (c) (inr (inr (inr c)))
    | inr c ↦ rw (c) (inr (inr (inl refl)))
  ])
]

refresh_with-FailsIn :
    (sign : Signer) (secret : Option Text) → FailsIn IsRefreshError (refresh_with sign secret)
unfolding refresh_with unless_replayed
refresh_with-FailsIn sign none = fail-FailsIn IsRefreshError _ (inl refl)
refresh_with-FailsIn sign (some secret) =
    bind-FailsIn IsRefreshError _ _ (asks-FailsIn IsRefreshError _) λ old_hash.
      bind-FailsIn IsRefreshError _ _ (rand_read-FailsIn IsRefreshError 32 _ (inr (inr (inl refl))))
        λ next. bind-FailsIn IsRefreshError _ _ (asks-FailsIn IsRefreshError _) λ new_hash.
          bind-FailsIn IsRefreshError _ _
            (map_err-FailsIn IsRefreshError refresh_error _ refresh_error-IsRefreshError)
            (λ result. elim (Option-cases result) [
              | inl a ↦ rw (a) (fail-FailsIn IsRefreshError _ (inr (inl refl)))
              | inr (t, a) ↦ rw (a) (pure-FailsIn IsRefreshError t)
            ])

-- Every error of a refresh is one of the three that the service knows, or an error of the context
-- that the repository or the signer returned.
pub refresh_session-errors :
    (sign : Option Signer) (raw : Text) (e : Env) (w v : World) (x : Err)
    → refresh_session sign raw e w ≡ err x v
    → (x ≡ sentinel invalid_refresh_token)
      ⊎ ((x ≡ sentinel unauthenticated_refresh)
          ⊎ ((x ≡ sentinel refresh_unavailable) ⊎ (is_context x ≡ true)))
unfolding refresh_session
refresh_session-errors none raw e w v x h = inr (inr (inl (ground arith)))
refresh_session-errors (some sign) raw e w v x h =
    refresh_with-FailsIn sign (canonical_secret raw (decode false raw_url raw)) e w x v h
