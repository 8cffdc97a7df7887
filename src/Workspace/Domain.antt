-- ===== src/Workspace/Domain.antt =====
-- services/workspace/internal/domain/workspace.go.
use flowspace_api.Base.{ℕ, not, ltb, if◌then◌else◌, Text, is_empty}
use flowspace_api.Encoding.Utf8.{valid_string, rune_count}
use flowspace_api.Encoding.Trim.{trim_space}
use flowspace_api.Workspace.Errors.{
  invalid_argument, name_field, is_required, not_utf8, too_many_characters,
}
use flowspace_api.Workspace.Run.{W, pure, fail}

pub record Workspace : Type 0 where
  pub id : Text
  pub name : Text
  pub created_at : ℕ

abbrev pub max_workspace_name_runes : ℕ
max_workspace_name_runes = 100

unfoldable pub checked_name : Text → W Text
checked_name name =
    if is_empty name
    then fail (invalid_argument name_field is_required)
    else if not (valid_string name)
    then fail (invalid_argument name_field not_utf8)
    else if ltb max_workspace_name_runes (rune_count name)
    then fail (invalid_argument name_field too_many_characters)
    else pure name

-- The name of the new workspace, its only field that is set.
unfoldable pub new_workspace : Text → W Text
unfolding checked_name
new_workspace name = checked_name (trim_space name)
