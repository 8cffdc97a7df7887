-- ===== src/Authn.antt =====
-- internal/authn: the verification of access tokens and the check of their session. The types and
-- functions of go-jose are the fields of a record.
use flowspace_api.Base.{
  ℕ, Bool, false, not, ◌||◌, List, [], ◌∷◌, Option, none, some, ◌==◌, if◌then◌else◌, Text, bytes,
  is_empty, text_eq, is_none,
}
use flowspace_api.Identity.Http.Status.{Code, unauthenticated_code}

-- A value, ErrUnauthenticated or ErrUnavailable.
pub data Checked (A : Type 0) : Type 0 where
  checked : A → Checked A
  unauthenticated unavailable : Checked A

pub record TokenHeader : Type 0 where
  pub key_id : Text
  pub typ : Option Text

-- `jwt.ParseSigned` for EdDSA, the headers, the claims that a key decodes with the "sid" claim, their
-- fields, and `ValidateWithLeeway` for an issuer and an audience, without leeway.
pub record Jose : Type 1 where
  pub Token : Type 0
  pub Key : Type 0
  pub Standard : Type 0
  pub parse_signed : Text → Option Token
  pub headers : Token → List TokenHeader
  pub key_size : Key → ℕ
  pub decode : Token → Key → Option (Standard × Text)
  pub subject : Standard → Text
  pub token_id : Standard → Text
  pub issued_at : Standard → Option ℕ
  pub expiry : Standard → Option ℕ
  pub is_expected : Standard → Text → Text → Bool

pub record Claims : Type 0 where
  pub subject : Text
  pub session_id : Text

abbrev pub public_key_size : ℕ
public_key_size = 32

abbrev pub is_access_token : Option Text → Bool
is_access_token none = false
is_access_token (some typ) = text_eq typ (bytes "at+jwt")

module _ (jose : Jose) (issuer audience : Text) where
  unfoldable pub validated : Option (jose.Standard × Text) → Checked Claims
  validated none = unauthenticated
  validated (some (standard, session_id)) =
      if is_empty (jose.subject standard)
        || is_empty session_id
        || is_empty (jose.token_id standard)
        || is_none (jose.issued_at standard)
        || is_none (jose.expiry standard)
        || not (jose.is_expected standard issuer audience)
      then unauthenticated
      else checked (record { subject = jose.subject standard; session_id = session_id })

  unfoldable pub with_key : jose.Token → Checked jose.Key → Checked Claims
  unfolding validated
  with_key token unauthenticated = unauthenticated
  with_key token unavailable = unavailable
  with_key token (checked key) =
      if jose.key_size key == public_key_size
      then validated (jose.decode token key)
      else unauthenticated

  unfoldable pub with_headers :
      jose.Token → List TokenHeader → (Text → Checked jose.Key) → Checked Claims
  unfolding with_key
  with_headers token [] key_for = unauthenticated
  with_headers token (header ∷ other ∷ rest) key_for = unauthenticated
  with_headers token (header ∷ []) key_for =
      if is_empty header.key_id || not (is_access_token header.typ)
      then unauthenticated
      else with_key token (key_for header.key_id)

  unfoldable pub verify_access_token : Text → (Text → Checked jose.Key) → Checked Claims
  unfolding with_headers
  verify_access_token raw key_for = elim (jose.parse_signed raw) [
    | none ↦ unauthenticated
    | some token ↦ with_headers token (jose.headers token) key_for
  ]

-- What a call of CheckSession returns: a response, which may be nil, or a status.
pub data SessionReply : Type 0 where
  response : Option Bool → SessionReply
  failure : Code → SessionReply

unfoldable pub session_verdict : SessionReply → Checked Bool
session_verdict (failure unauthenticated_code) = unauthenticated
session_verdict (failure code) = unavailable
session_verdict (response none) = unavailable
session_verdict (response (some verified)) = checked verified

unfoldable pub check_session : Claims → (Text → Text → SessionReply) → Checked Bool
unfolding session_verdict
check_session claims check =
    if is_empty claims.subject || is_empty claims.session_id
    then unauthenticated
    else session_verdict (check claims.subject claims.session_id)
