-- ===== src/Workspace/Tokens.antt =====
-- `VerifyToken` and `publicKey` of services/workspace/internal/adapter/out/identity/token_verifier.go.
-- The HTTP client and the decoder of a key set are arguments.
pub mod Sessions
use flowspace_api.Base.{
  ℕ, Bool, true, false, not, ◌&&◌, ◌||◌, List, [], ◌∷◌, Option, none, some, ltb, ◌==◌,
  if◌then◌else◌, Text, bytes, is_empty, text_eq, length,
}
use flowspace_api.Authn.{
  Checked, checked, unauthenticated, unavailable, Claims, Jose, SessionReply, check_session,
  verify_access_token,
}

-- An answer of the key server: its status and its body, of which reading may fail. The body is read
-- up to its first 65537 bytes.
pub record HttpResponse : Type 0 where
  pub status_code : ℕ
  pub body : Option Text

-- A member of a key set; the key is given if it is an Ed25519 public key.
pub record JsonWebKey (Key : Type 0) : Type 0 where
  pub key_id : Text
  pub algorithm : Text
  pub use_of : Text
  pub key : Option Key

-- `VerifyToken` returns the subject, or one of the errors of services/workspace/internal/port/out.
pub data Verdict : Type 0 where
  accepted : Text → Verdict
  token_unauthenticated identity_unavailable email_unverified : Verdict

module _ (jose : Jose) where
  abbrev pub sized : Option jose.Key → Option jose.Key
  sized none = none
  sized (some key) = if jose.key_size key == 32 then some key else none

  abbrev pub is_candidate : Text → JsonWebKey jose.Key → Bool
  is_candidate key_id k =
      text_eq k.key_id key_id
      && text_eq k.algorithm (bytes "EdDSA")
      && text_eq k.use_of (bytes "sig")

  unfoldable pub find_key : Text → List (JsonWebKey jose.Key) → Checked jose.Key
  find_key key_id [] = unauthenticated
  find_key key_id (k ∷ keys) =
      let rest = find_key key_id keys in
      if is_candidate key_id k
      then (elim (sized k.key) [ some key ↦ checked key | none ↦ rest ])
      else rest

  unfoldable pub keys_of :
      (Text → Option (List (JsonWebKey jose.Key))) → Text → Option Text → Checked jose.Key
  unfolding find_key
  keys_of parse key_id none = unavailable
  keys_of parse key_id (some body) =
      if ltb 65536 (length body)
      then unavailable
      else (elim (parse body) [ some keys ↦ find_key key_id keys | none ↦ unavailable ])

  -- The first argument is what the request got, if an answer came.
  unfoldable pub public_key :
      Option HttpResponse → (Text → Option (List (JsonWebKey jose.Key))) → Text → Checked jose.Key
  unfolding keys_of
  public_key none parse key_id = if is_empty key_id then unauthenticated else unavailable
  public_key (some r) parse key_id =
      if is_empty key_id
      then unauthenticated
      else if not (r.status_code == 200)
      then unavailable
      else keys_of parse key_id r.body

abbrev pub accept_if_verified : Text → Checked Bool → Verdict
accept_if_verified subject unauthenticated = token_unauthenticated
accept_if_verified subject unavailable = identity_unavailable
accept_if_verified subject (checked false) = email_unverified
accept_if_verified subject (checked true) = accepted subject

unfoldable pub check_claims : Checked Claims → (Text → Text → SessionReply) → Verdict
check_claims unavailable check = identity_unavailable
check_claims unauthenticated check = token_unauthenticated
check_claims (checked claims) check = accept_if_verified claims.subject (check_session claims check)

unfoldable pub verify_token :
    (jose : Jose)
    → Text
    → Text
    → (Text → Checked jose.Key)
    → (Text → Text → SessionReply)
    → Text
    → Verdict
unfolding check_claims
verify_token jose issuer audience key_for check raw =
    if is_empty raw || ltb 8192 (length raw)
    then token_unauthenticated
    else check_claims (verify_access_token jose issuer audience raw key_for) check
