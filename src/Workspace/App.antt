-- ===== src/Workspace/App.antt =====
-- services/workspace/internal/app/workspace_service.go.
use flowspace_api.Base.{ℕ, not, ◌&&◌, ltb, leb, all, length, Text, is_empty}
use flowspace_api.Workspace.Errors.{
  unauthenticated, invalid_argument, idempotency_key_field, workspace_id_field, is_required,
  too_many_bytes, not_visible_ascii,
}
use flowspace_api.Workspace.Run.{W, refuse_if, ◌>>=◌, ◌>>◌}
use flowspace_api.Workspace.Domain.{Workspace, new_workspace}
use flowspace_api.Workspace.Repository
use flowspace_api.Workspace.Repository.{within_transaction}

abbrev pub max_idempotency_key_bytes : ℕ
max_idempotency_key_bytes = 255

-- inbound.CreateWorkspaceInput
pub record CreateWorkspaceInput : Type 0 where
  pub subject : Text
  pub idempotency_key : Text
  pub name : Text

-- inbound.GetWorkspaceInput
pub record GetWorkspaceInput : Type 0 where
  pub subject : Text
  pub workspace_id : Text

unfoldable pub create_workspace : CreateWorkspaceInput → W Workspace
create_workspace input = do
  refuse_if (is_empty input.subject) unauthenticated
  refuse_if (is_empty input.idempotency_key) (invalid_argument idempotency_key_field is_required)
  refuse_if (ltb max_idempotency_key_bytes (length input.idempotency_key))
      (invalid_argument idempotency_key_field too_many_bytes)
  refuse_if (not (all (λ c. leb 0x21 c && leb c 0x7e) input.idempotency_key))
      (invalid_argument idempotency_key_field not_visible_ascii)
  name ← new_workspace input.name
  within_transaction (Repository.create_workspace input.subject input.idempotency_key name)

unfoldable pub get_workspace : GetWorkspaceInput → W Workspace
get_workspace input = do
  refuse_if (is_empty input.subject) unauthenticated
  refuse_if (is_empty input.workspace_id) (invalid_argument workspace_id_field is_required)
  Repository.get_workspace input.subject input.workspace_id
