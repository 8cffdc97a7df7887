-- ===== src/Identity/Http/Handler.antt =====
-- What the handlers of services/identity/internal/adapter/in/http share (identity_handler.go and
-- `createSession` of password_session_handler.go). The deadline of five seconds that a handler sets
-- is one of the errors of the context in the environment.
use flowspace_api.Base.{
  Bool, true, false, ◌||◌, List, [], ◌∷◌, Option, none, some, if◌then◌else◌, Text, bytes, is_empty,
}
use flowspace_api.Encoding.Fields.{fields, equal_fold_ascii}
use flowspace_api.Identity.Errors.{Err}
use flowspace_api.Identity.Run
use flowspace_api.Identity.Run.{Env, World, Result, done, refused, ok, err}
use flowspace_api.Identity.Http.Source.{Net, SourceHeaders, source_address}
use flowspace_api.Identity.Http.Status.{
  Status, status, invalid_field, invalid_argument_code, unavailable_code, authentication_required,
}

-- A response, or the status of an error.
pub data Answer (A : Type 0) : Type 0 where
  replied : A → World → Answer A
  failed : Status → World → Answer A

abbrev pub H : Type 0 → Type 0
H A = Env → World → Answer A

abbrev pub reply : {A : Type 0} → A → H A
reply a e w = replied a w

abbrev pub deny : {A : Type 0} → Status → H A
deny s e w = failed s w

infixl 5 ◌>>=◌ ◌>>◌
unfoldable pub ◌>>=◌ : {A B : Type 0} → H A → (A → H B) → H B
◌>>=◌ h f e w = elim (h e w) [ replied a v ↦ f a e v | failed s v ↦ failed s v ]

abbrev pub ◌>>◌ : {B : Type 0} → H (Unit {0}) → H B → H B
h >> k = h >>= λ _. k

unfoldable pub deny_if : Bool → Status → H (Unit {0})
deny_if true s e w = failed s w
deny_if false s e w = replied tt w

-- A call of a service, whose error becomes a status.
unfoldable pub call : {A : Type 0} → (Err → Status) → Run.M A → H A
call rpc_error m e w = elim (m e w) [ ok a v ↦ replied a v | err x v ↦ failed (rpc_error x) v ]

-- A service that may be nil.
unfoldable pub available : {A : Type 0} → Status → Option A → H A
available s none = deny s
available s (some service) = reply service

-- What a handler reads of the context of a call: metadata, the source that IdentityRequestHandler
-- stored, and the address of the peer.
pub record RequestContext : Type 0 where
  pub idempotency_keys : List Text
  pub authorization : List Text
  pub stored_source : Option Text
  pub peer_address : Option Text
  pub headers : SourceHeaders

-- outbound.AccessTokenIdentity
pub record AccessTokenIdentity : Type 0 where
  pub subject : Text
  pub session_id : Text

-- `AccessTokenVerifier.Verify`; every error is answered in the same way.
abbrev pub Verifier : Type 0
Verifier = Text → Option AccessTokenIdentity

unfoldable pub verified : Option AccessTokenIdentity → H AccessTokenIdentity
verified none = deny authentication_required
verified (some identity) =
    if is_empty identity.subject || is_empty identity.session_id
    then deny authentication_required
    else reply identity

unfoldable pub verify_parts : Option Verifier → List Text → H AccessTokenIdentity
unfolding verified
verify_parts (some verify) (scheme ∷ token ∷ []) =
    if equal_fold_ascii scheme (bytes "Bearer")
    then verified (verify token)
    else deny authentication_required
verify_parts (some verify) (scheme ∷ token ∷ other ∷ rest) = deny authentication_required
verify_parts (some verify) (scheme ∷ []) = deny authentication_required
verify_parts (some verify) [] = deny authentication_required
verify_parts none parts = deny authentication_required

unfoldable pub authenticate : Option Verifier → List Text → H AccessTokenIdentity
unfolding verify_parts
authenticate verifier [] = deny authentication_required
authenticate verifier (value ∷ []) = verify_parts verifier (fields value)
authenticate verifier (value ∷ other ∷ rest) = deny authentication_required

abbrev pub source_result : Result Text → H Text
source_result (refused x) = deny (status invalid_argument_code (bytes "invalid source address"))
source_result (done source) = reply source

abbrev pub has_key : List Text → Bool
has_key [] = false
has_key (key ∷ keys) = true

unfoldable pub no_idempotency_key : RequestContext → H (Unit {0})
no_idempotency_key ctx =
    deny_if (has_key ctx.idempotency_keys)
      (invalid_field (bytes "idempotency_key") (bytes "is not supported"))

-- A pointer that may be nil.
unfoldable pub required : {A : Type 0} → Option A → H A
required none = deny (invalid_field (bytes "request") (bytes "is required"))
required (some request) = reply request

module _ (net : Net) (trusted : List net.Prefix) where
  unfoldable pub peer_source : Option Text → SourceHeaders → H Text
  peer_source none headers =
      deny (status invalid_argument_code (bytes "source address is required"))
  peer_source (some address) headers = source_result (source_address net address headers trusted)

  unfoldable pub source_of_request : RequestContext → H Text
  unfolding peer_source
  source_of_request ctx = elim (ctx.stored_source) [
    | some source ↦ reply source
    | none ↦ peer_source ctx.peer_address ctx.headers
  ]

  -- The shared checks of a call that creates a session. The service is given unless it is nil.
  unfoldable pub create_session :
      {R S A : Type 0}
      → RequestContext
      → Option R
      → Option S
      → Text
      → (S → R → Text → Run.M A)
      → (Err → Status)
      → H A
  unfolding no_idempotency_key required source_of_request available call
  create_session ctx request service unavailable create rpc_error = do
    no_idempotency_key ctx
    r ← required request
    source ← source_of_request ctx
    s ← available (status unavailable_code unavailable) service
    call rpc_error (create s r source)
