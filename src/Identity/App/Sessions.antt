-- ===== src/Identity/App/Sessions.antt =====
-- services/identity/internal/app/session_service.go, session_refresh_service.go,
-- session_check_service.go, current_session_logout_service.go and all_session_logout_service.go.
pub mod Tokens
use flowspace_api.Base.{
  ℕ, ◌+◌, ◌-◌, ◌*◌, ◌%◌, Bool, true, false, not, ◌&&◌, ◌||◌, Option, none, some, ltb, ◌==◌,
  if◌then◌else◌, [], ◌∷◌, length, Text, text_eq, is_empty, is_none,
}
use flowspace_api.Encoding.Base64.{raw_url, encode, decode}
use flowspace_api.Identity.Errors.{
  Err, Sentinel, sentinel, is, is_context, session_issue, unauthenticated, refresh_unavailable,
  invalid_refresh_token, unauthenticated_refresh, session_check_unavailable,
  current_logout_unavailable, all_logout_unavailable,
}
use flowspace_api.Identity.Run.{M, pure, fail, refuse_if, asks, map_err, rand_read, ◌>>=◌, ◌>>◌}
use flowspace_api.Identity.Domain.Challenge.{second, minute}
use flowspace_api.Identity.Repository.Sessions
use flowspace_api.Identity.Repository.Refresh.{RefreshSessionRecord, rotate}
use flowspace_api.Identity.Repository.Accounts.{revoke_all}
use flowspace_api.Identity.App.Ports.{AccessTokenClaims, Signer, keep_or}

pub record SessionTokens : Type 0 where
  pub access_token : Text
  pub refresh_token : Text
  pub access_token_expires_at : ℕ
  pub refresh_token_expires_at : ℕ
  pub session_expires_at : ℕ

-- Ten minutes from the issue, at most to the end of the session, in whole seconds.
unfoldable pub access_expiry : ℕ → ℕ → ℕ
access_expiry issued_at absolute_expires_at =
    let expires =
      if ltb absolute_expires_at (issued_at + 10 * minute)
      then absolute_expires_at
      else issued_at + 10 * minute in
    expires - expires % second

-- Any error becomes this one.
unfoldable pub becomes : Sentinel → Err → Err
becomes s x = sentinel s

unfoldable pub issue : Signer → Text → M SessionTokens
unfolding access_expiry becomes
issue sign subject = do
  refuse_if (is_empty subject) (sentinel session_issue)
  secret ← rand_read 32 (sentinel session_issue)
  hash ← asks (λ e. e.sha256 secret)
  session ← map_err (becomes session_issue) (Sessions.create subject hash)
  jti ← rand_read 16 (sentinel session_issue)
  access ← map_err (becomes session_issue) (
      sign (record {
        subject = subject;
        session_id = session.id;
        id = encode raw_url jti;
        issued_at = session.created_at;
        expires_at = access_expiry session.created_at session.absolute_expires_at;
      }))
  pure (record {
    access_token = access;
    refresh_token = encode raw_url secret;
    access_token_expires_at = access_expiry session.created_at session.absolute_expires_at;
    refresh_token_expires_at = session.idle_expires_at;
    session_expires_at = session.absolute_expires_at;
  })

-- The secret of a refresh token: 32 bytes, in the one encoding of them.
unfoldable pub canonical_secret : Text → Option Text → Option Text
canonical_secret raw none = none
canonical_secret raw (some secret) =
    if length secret == 32 && text_eq (encode raw_url secret) raw then some secret else none

unfoldable pub refresh_error : Err → Err
refresh_error x =
    if is x unauthenticated
    then sentinel unauthenticated_refresh
    else keep_or [] refresh_unavailable x

unfoldable pub sign_refreshed : Signer → Text → RefreshSessionRecord → M SessionTokens
unfolding access_expiry
sign_refreshed sign next session = do
  jti ← rand_read 16 (sentinel refresh_unavailable)
  access ← sign (record {
    subject = session.subject;
    session_id = session.id;
    id = encode raw_url jti;
    issued_at = session.issued_at;
    expires_at = access_expiry session.issued_at session.absolute_expires_at;
  })
  pure (record {
    access_token = access;
    refresh_token = encode raw_url next;
    access_token_expires_at = access_expiry session.issued_at session.absolute_expires_at;
    refresh_token_expires_at = session.idle_expires_at;
    session_expires_at = session.absolute_expires_at;
  })

-- A replay is answered as a token that is not known.
unfoldable pub unless_replayed : Option SessionTokens → M SessionTokens
unless_replayed none = fail (sentinel unauthenticated_refresh)
unless_replayed (some tokens) = pure tokens

unfoldable pub refresh_with : Signer → Option Text → M SessionTokens
unfolding refresh_error sign_refreshed unless_replayed
refresh_with sign none = fail (sentinel invalid_refresh_token)
refresh_with sign (some secret) = do
  old_hash ← asks (λ e. e.sha256 secret)
  next ← rand_read 32 (sentinel refresh_unavailable)
  new_hash ← asks (λ e. e.sha256 next)
  result ← map_err refresh_error (rotate old_hash new_hash (sign_refreshed sign next))
  unless_replayed result

-- `repository == nil || signer == nil` is a service that is not configured.
unfoldable pub refresh_session : Option Signer → Text → M SessionTokens
unfolding refresh_with canonical_secret
refresh_session none raw = fail (sentinel refresh_unavailable)
refresh_session (some sign) raw =
    refresh_with sign (canonical_secret raw (decode false raw_url raw))

-- The repository is given unless it is nil.
unfoldable pub check_session : Bool → Text → Text → M Bool
check_session has_repository subject session_id = do
  refuse_if (is_empty subject || is_empty session_id) (sentinel unauthenticated)
  refuse_if (not has_repository) (sentinel session_check_unavailable)
  map_err (keep_or (unauthenticated ∷ []) session_check_unavailable)
      (Sessions.check subject session_id)

unfoldable pub revoke_by :
    Text → Text → Sentinel → Option (Text → Text → M (Unit {0})) → M (Unit {0})
revoke_by subject session_id unavailable none = fail (sentinel unavailable)
revoke_by subject session_id unavailable (some revoke) =
    map_err (keep_or (unauthenticated ∷ []) unavailable) (revoke subject session_id)

unfoldable pub revoke_sessions :
    Text → Text → Option (Text → Text → M (Unit {0})) → Sentinel → M (Unit {0})
unfolding revoke_by
revoke_sessions subject session_id revoke unavailable = do
  refuse_if (is_empty subject || is_empty session_id) (sentinel unauthenticated)
  revoke_by subject session_id unavailable revoke

unfoldable pub logout_current_session : Bool → Text → Text → M (Unit {0})
unfolding revoke_sessions
logout_current_session has_repository subject session_id =
    revoke_sessions subject session_id
      (if has_repository then some Sessions.revoke_current else none) current_logout_unavailable

unfoldable pub logout_all_sessions : Bool → Text → Text → M (Unit {0})
unfolding revoke_sessions
logout_all_sessions has_repository subject session_id =
    revoke_sessions subject session_id (if has_repository then some revoke_all else none)
      all_logout_unavailable
