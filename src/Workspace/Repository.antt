-- ===== src/Workspace/Repository.antt =====
-- services/workspace/internal/adapter/out/postgres/workspace_repository.go.
pub mod Idempotent
use flowspace_api.Base.{
  ℕ, zero, suc, ◌+◌, ◌*◌, Bool, not, [], ◌∷◌, ◌++◌, Option, none, some, if◌then◌else◌, Text,
  text_eq, bytes,
}
use flowspace_api.Workspace.Errors.{
  Err, create_in_progress, idempotency_conflict, not_found, database,
}
use flowspace_api.Workspace.Run.{
  Env, World, WorkspaceRow, Creation, Outcome, ok, err, W, pure, fail, refuse_if, asks, Reply, rows,
  statement, ◌>>=◌, ◌>>◌,
}
use flowspace_api.Workspace.Domain.{Workspace}
use flowspace_api.Workspace.Statements

-- BEGIN and COMMIT.
unfoldable pub plain_statement : W (Unit {0})
plain_statement = statement (λ e n d. rows tt d)

abbrev pub roll_back : {A : Type 0} → World → Outcome A → Outcome A
roll_back w (ok a v) = ok a v
roll_back w (err x v) = err x (record v { db = w.db })

unfoldable pub within_transaction : {A : Type 0} → W A → W A
unfolding plain_statement
within_transaction body e w =
    roll_back w ((do plain_statement; a ← body; plain_statement; pure a) e w)

-- `binary.BigEndian.Uint64` of the first eight bytes.
unfoldable pub big_endian : ℕ → ℕ → Text → ℕ
big_endian zero n s = n
big_endian (suc k) n [] = n
big_endian (suc k) n (c ∷ s) = big_endian k (n * 256 + c) s

unfoldable pub create_workspace_lock_id : Env → Text → Text → ℕ
unfolding big_endian
create_workspace_lock_id e subject key = big_endian 8 0 (
    e.sha256
      (bytes "flowspace.workspace.v1.WorkspaceService/CreateWorkspace" ++ 0 ∷ (subject ++ 0 ∷ key)))

abbrev pub of_creation : Env → Creation → Workspace
of_creation e c = record {
  id = e.uuid_text c.workspace_id;
  name = c.workspace_name;
  created_at = c.workspace_created_at;
}

abbrev pub of_row : Env → WorkspaceRow → Workspace
of_row e r = record { id = e.uuid_text r.id; name = r.name; created_at = r.created_at }

-- The creation that the key was used for, if it was of this request.
unfoldable pub same_request : Text → Creation → W Workspace
same_request request_hash c = do
  refuse_if (not (text_eq c.request_hash request_hash)) idempotency_conflict
  asks (λ e. of_creation e c)

-- `parseUUID`, with the error that the caller returns.
unfoldable pub scan_uuid_or : Err → Text → W ℕ
scan_uuid_or x value e w = elim (e.scan_uuid value) [ some id ↦ ok id w | none ↦ err x w ]

unfoldable pub create_fresh : Text → Text → Text → Text → W Workspace
unfolding scan_uuid_or
create_fresh subject key name request_hash = do
  created ← Statements.create_workspace name
  text ← asks (λ e. e.uuid_text created.id)
  id ← scan_uuid_or (database 0) text
  Statements.create_workspace_owner id subject
  Statements.record_workspace_creation subject key request_hash (record created { id = id })
  asks (λ e. of_row e created)

unfoldable pub create_unless_known : Text → Text → Text → Text → Option Creation → W Workspace
unfolding same_request create_fresh
create_unless_known subject key name request_hash (some c) = same_request request_hash c
create_unless_known subject key name request_hash none = create_fresh subject key name request_hash

-- `workspaceTransaction.CreateWorkspace`
unfoldable pub create_workspace : Text → Text → Text → W Workspace
unfolding create_workspace_lock_id create_unless_known
create_workspace subject key name = do
  lock_id ← asks (λ e. create_workspace_lock_id e subject key)
  locked ← Statements.try_create_workspace_lock lock_id
  refuse_if (not locked) create_in_progress
  deleted ← Statements.delete_expired_workspace_creation subject key
  request_hash ← asks (λ e. e.sha256 name)
  creation ← Statements.get_workspace_creation subject key
  create_unless_known subject key name request_hash creation

unfoldable pub found_workspace : Option WorkspaceRow → W Workspace
found_workspace none = fail not_found
found_workspace (some row) = asks (λ e. of_row e row)

unfoldable pub get_workspace : Text → Text → W Workspace
unfolding scan_uuid_or found_workspace
get_workspace subject workspace_id = do
  id ← scan_uuid_or not_found workspace_id
  row ← Statements.get_workspace_for_subject id subject
  found_workspace row
