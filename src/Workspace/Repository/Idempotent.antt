-- ===== src/Workspace/Repository/Idempotent.antt =====
-- What the repository promises of idempotency keys
-- (services/workspace/internal/adapter/out/postgres/workspace_repository.go): a map from a subject
-- and a key to the request that used it and its workspace, for a day.
pub mod Steps
pub mod Stored
pub mod Refinement
use flowspace_api.Base.{
  ℕ, suc, ◌+◌, ◌≤◌, ◌≡◌, refl, Bool, true, false, not, ◌&&◌, ◌||◌, List, [], ◌∷◌, Option, none,
  some, leb, find, filter, find-filter, if◌then◌else◌, Text, text_eq, arith, sym, ap, subst, ◌∙◌,
  Bool-cases, inl, inr,
}
use flowspace_api.Workspace.Errors.{Err, create_in_progress}
use flowspace_api.Workspace.Run.{
  Env, World, Store, WorkspaceRow, Creation, ok, err, W, Reply, rows, refuse_if, asks,
}
use flowspace_api.Workspace.Run.Laws.{bind-ok, pure-ok, asks-ok, refuse_if-ok, statement-ok}
use flowspace_api.Workspace.Domain.{Workspace}
use flowspace_api.Workspace.Statements
use flowspace_api.Workspace.Statements.{
  day, is_for, is_expired, without_expired, insert_workspace, insert_owner, insert_creation,
  try_create_workspace_lock, delete_expired_workspace_creation, get_workspace_creation,
  create_workspace_owner, record_workspace_creation,
}
use flowspace_api.Workspace.Repository.{
  of_creation, of_row, same_request, scan_uuid_or, create_fresh, create_unless_known,
  create_workspace, create_workspace_lock_id,
}

-- The abstract state: the hash of the request that used a key, and its workspace.
abbrev pub Uses : Type 0
Uses = Text → Text → Option (Text × Workspace)

-- A key that is new is used for the fresh workspace; one that was used gives the workspace again,
-- and only for the same request.
abbrev pub idempotent_use :
    Option (Text × Workspace) → Uses → Text → Text → Text → Workspace → Option (Workspace × Uses)
idempotent_use none uses subject key hash fresh =
    some (fresh, λ s k. if text_eq subject s && text_eq key k then some (hash, fresh) else uses s k)
idempotent_use (some (used, known)) uses subject key hash fresh =
    if text_eq used hash then some (known, uses) else none

abbrev pub idempotent_create : Uses → Text → Text → Text → Workspace → Option (Workspace × Uses)
idempotent_create uses subject key hash fresh =
    idempotent_use (uses subject key) uses subject key hash fresh

abbrev pub use_of : Env → Option Creation → Option (Text × Workspace)
use_of e none = none
use_of e (some c) = some (c.request_hash, of_creation e c)

-- The creation of a key that has not expired.
abbrev pub live : ℕ → Store → Text → Text → Option Creation
live now d subject key = find (λ c. is_for subject key c && not (is_expired now c)) d.creations

-- The abstract state that the tables hold at a time.
abbrev pub uses_at : Env → ℕ → Store → Uses
uses_at e now d subject key = use_of e (live now d subject key)

pub live-without_expired :
    (s k : Text) (now : ℕ) (d : Store) (subject key : Text)
    → live now (without_expired s k now d) subject key ≡ live now d subject key
live-without_expired s k now d subject key = find-filter _ _ _ d.creations (λ c. ground arith)

pub find-without_expired :
    (now : ℕ) (d : Store) (subject key : Text)
    → find (is_for subject key) ((without_expired subject key now d).creations)
      ≡ live now d subject key
find-without_expired now d subject key = find-filter _ _ _ d.creations (λ c. ground arith)

abbrev pub creation_of : Text → Text → Text → WorkspaceRow → ℕ → Creation
creation_of subject key hash row now = record {
  subject = subject;
  idempotency_key = key;
  request_hash = hash;
  workspace_id = row.id;
  workspace_name = row.name;
  workspace_created_at = row.created_at;
  completed_at = now;
  expires_at = now + day;
}

still_live : (now later : ℕ) → now ≤ later → not (leb (later + day) now) ≡ true
still_live now later ordered = ground arith

first_live :
    (b unexpired : Bool) (e : Env) (c : Creation) (o : Option Creation)
    → unexpired ≡ true
    → use_of e (if b && unexpired then some c else o)
      ≡ (if b then some (c.request_hash, of_creation e c) else use_of e o)
first_live true unexpired e c o h = rw (h) refl
first_live false unexpired e c o h = refl

-- The new creation is the use of its key, and no other use changes.
pub uses-created :
    (e : Env) (now later : ℕ) (subject key hash : Text) (row : WorkspaceRow) (before d : Store)
    (s k : Text)
    → now ≤ later
    → d.creations ≡ creation_of subject key hash row later ∷ before.creations
    → uses_at e now d s k ≡ (
        if text_eq subject s && text_eq key k
        then some (hash, of_row e row)
        else uses_at e now before s k)
uses-created e now later subject key hash row before d s k ordered same =
    ap (λ cs. use_of e (find (λ c. is_for s k c && not (is_expired now c)) cs)) same
    ∙ first_live (text_eq subject s && text_eq key k) (not (leb (later + day) now)) e
        (creation_of subject key hash row later) (live now before s k)
        (still_live now later ordered)
