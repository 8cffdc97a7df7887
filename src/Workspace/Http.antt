-- ===== src/Workspace/Http.antt =====
-- services/workspace/internal/adapter/in/http/workspace_handler.go, without its log.
use flowspace_api.Base.{
  ℕ, Bool, true, false, not, ◌&&◌, List, [], ◌∷◌, Option, none, some, ltb, leb, all, if◌then◌else◌,
  Text, bytes, is_empty, length,
}
use flowspace_api.Encoding.Trim.{trim_space}
use flowspace_api.Encoding.Fields.{fields, equal_fold_ascii}
use flowspace_api.Workspace.Errors.{
  Err, Field, Reason, idempotency_key_field, workspace_id_field, name_field, is_required,
  too_many_bytes, not_visible_ascii, not_utf8, too_many_characters, create_in_progress,
  idempotency_conflict, not_found, unauthenticated, invalid_argument, constraint_violation,
  database,
}
use flowspace_api.Workspace.Run.{Env, World, W, ok, err}
use flowspace_api.Workspace.Domain.{Workspace, new_workspace}
use flowspace_api.Workspace.App
use flowspace_api.Workspace.Tokens.{
  Verdict, accepted, token_unauthenticated, identity_unavailable, email_unverified,
}

pub data Code : Type 0 where
  unauthenticated_code permission_denied_code invalid_argument_code not_found_code
        already_exists_code aborted_code deadline_exceeded_code canceled_code unavailable_code
        internal_code :
      Code

-- A status with its message, or one for a field of the request with its reason.
pub data Status : Type 0 where
  status : Code → Text → Status
  invalid_field : Text → Text → Status

pub data Answer (A : Type 0) : Type 0 where
  replied : A → World → Answer A
  failed : Status → World → Answer A

abbrev pub H : Type 0 → Type 0
H A = Env → World → Answer A

abbrev pub reply : {A : Type 0} → A → H A
reply a e w = replied a w

abbrev pub deny : {A : Type 0} → Status → H A
deny s e w = failed s w

infixl 5 ◌>>=◌ ◌>>◌
unfoldable pub ◌>>=◌ : {A B : Type 0} → H A → (A → H B) → H B
◌>>=◌ h f e w = elim (h e w) [ replied a v ↦ f a e v | failed s v ↦ failed s v ]

abbrev pub ◌>>◌ : {B : Type 0} → H (Unit {0}) → H B → H B
h >> k = h >>= λ _. k

unfoldable pub deny_if : Bool → Status → H (Unit {0})
deny_if true s e w = failed s w
deny_if false s e w = replied tt w

-- context.DeadlineExceeded and context.Canceled.
pub data ContextError : Type 0 where
  deadline_exceeded canceled : ContextError

unfoldable pub context_status : ContextError → Status
context_status deadline_exceeded = status deadline_exceeded_code (bytes "request deadline exceeded")
context_status canceled = status canceled_code (bytes "request canceled")

unfoldable pub field_text : Field → Text
field_text idempotency_key_field = bytes "idempotency_key"
field_text workspace_id_field = bytes "workspace_id"
field_text name_field = bytes "name"

abbrev pub internal : Status
internal = status internal_code (bytes "internal error")

abbrev pub authentication_required : Status
authentication_required = status unauthenticated_code (bytes "authentication required")

-- The reason of an error that NewWorkspace or the service makes.
unfoldable pub reason_text : Reason → Text
reason_text is_required = bytes "is required"
reason_text too_many_bytes = bytes "must be at most 255 bytes"
reason_text not_visible_ascii = bytes "must contain only visible ASCII characters"
reason_text not_utf8 = bytes "must be valid UTF-8"
reason_text too_many_characters = bytes "must be at most 100 characters"

-- Which database errors are errors of the context is an argument.
unfoldable pub rpc_error : (ℕ → Option ContextError) → Err → Status
unfolding context_status field_text reason_text
rpc_error of_context unauthenticated = authentication_required
rpc_error of_context (invalid_argument field reason) =
    invalid_field (field_text field) (reason_text reason)
rpc_error of_context not_found = status not_found_code (bytes "workspace not found")
rpc_error of_context idempotency_conflict =
    status already_exists_code (bytes "idempotency key conflicts with an earlier request")
rpc_error of_context create_in_progress =
    status aborted_code (bytes "workspace creation is in progress")
rpc_error of_context constraint_violation = internal
rpc_error of_context (database n) = elim (of_context n) [
  | some x ↦ context_status x
  | none ↦ internal
]

-- `none` is the error "must be provided once".
unfoldable pub required_metadata : List Text → Option Text
required_metadata [] = none
required_metadata (value ∷ other ∷ rest) = none
required_metadata (value ∷ []) = if is_empty (trim_space value) then none else some value

-- What a handler reads of a call: metadata, and the error of the context after the token was
-- verified.
pub record RequestContext : Type 0 where
  pub authorization : List Text
  pub idempotency_keys : List Text
  pub context_error : Option ContextError

unfoldable pub denied_token : Option ContextError → Status → H Text
unfolding context_status
denied_token (some x) s = deny (context_status x)
denied_token none s = deny s

unfoldable pub subject_of : Option ContextError → Verdict → H Text
unfolding denied_token
subject_of context_error (accepted subject) =
    if is_empty subject then deny authentication_required else reply subject
subject_of context_error identity_unavailable =
    denied_token context_error (status unavailable_code (bytes "identity unavailable"))
subject_of context_error email_unverified =
    denied_token context_error (status permission_denied_code (bytes "email verification required"))
subject_of context_error token_unauthenticated = denied_token context_error authentication_required

unfoldable pub verify_parts : (Text → Verdict) → Option ContextError → List Text → H Text
unfolding subject_of
verify_parts verify context_error (scheme ∷ token ∷ []) =
    if equal_fold_ascii scheme (bytes "Bearer")
    then subject_of context_error (verify token)
    else deny authentication_required
verify_parts verify context_error (scheme ∷ token ∷ other ∷ rest) = deny authentication_required
verify_parts verify context_error (scheme ∷ []) = deny authentication_required
verify_parts verify context_error [] = deny authentication_required

unfoldable pub authenticate : (Text → Verdict) → RequestContext → H Text
unfolding required_metadata verify_parts
authenticate verify ctx = elim (required_metadata ctx.authorization) [
  | none ↦ deny authentication_required
  | some value ↦ verify_parts verify ctx.context_error (fields value)
]

unfoldable pub call : {A : Type 0} → (ℕ → Option ContextError) → W A → H A
unfolding rpc_error
call of_context m e w = elim (m e w) [
  | ok a v ↦ replied a v
  | err x v ↦ failed (rpc_error of_context x) v
]

unfoldable pub idempotency_key_of : Option Text → H Text
idempotency_key_of none =
    deny (invalid_field (bytes "idempotency_key") (bytes "must be provided once"))
idempotency_key_of (some key) = reply key

unfoldable pub required : {A : Type 0} → Option A → H A
required none = deny (invalid_field (bytes "request") (bytes "is required"))
required (some request) = reply request

-- The request of CreateWorkspace is its name, and of GetWorkspace its workspace ID.
unfoldable pub create_workspace :
    (Text → Verdict) → (ℕ → Option ContextError) → RequestContext → Option Text → H Workspace
unfolding authenticate required_metadata idempotency_key_of deny_if required call
create_workspace verify of_context ctx request = do
  subject ← authenticate verify ctx
  key ← idempotency_key_of (required_metadata ctx.idempotency_keys)
  deny_if (ltb 255 (length key))
      (invalid_field (bytes "idempotency_key") (bytes "must be at most 255 bytes"))
  deny_if (not (all (λ c. leb 0x21 c && leb c 0x7e) key))
      (invalid_field (bytes "idempotency_key") (bytes "must contain only visible ASCII characters"))
  requested ← required request
  name ← call of_context (new_workspace requested)
  call of_context
      (App.create_workspace (record { subject = subject; idempotency_key = key; name = name }))

unfoldable pub workspace_id_of : Option Text → H Text
workspace_id_of none = deny (invalid_field (bytes "workspace_id") (bytes "is required"))
workspace_id_of (some id) =
    if is_empty id
    then deny (invalid_field (bytes "workspace_id") (bytes "is required"))
    else reply id

unfoldable pub get_workspace :
    (Text → Verdict) → (ℕ → Option ContextError) → RequestContext → Option Text → H Workspace
unfolding authenticate workspace_id_of call
get_workspace verify of_context ctx request = do
  subject ← authenticate verify ctx
  id ← workspace_id_of request
  call of_context (App.get_workspace (record { subject = subject; workspace_id = id }))
