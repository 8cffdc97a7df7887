-- ===== src/Workspace/Errors.antt =====
-- Errors of the Workspace service (services/workspace/internal/domain/errors.go). An error that
-- `fmt.Errorf` wraps with %w is the error itself for `errors.Is`, so it stands for both.
use flowspace_api.Base.{ℕ}

pub data Field : Type 0 where
  idempotency_key_field workspace_id_field name_field : Field

pub data Reason : Type 0 where
  is_required too_many_bytes not_visible_ascii not_utf8 too_many_characters : Reason

-- A database error is one of a broken constraint, or another.
pub data Err : Type 0 where
  create_in_progress idempotency_conflict not_found unauthenticated : Err
  invalid_argument : Field → Reason → Err
  constraint_violation : Err
  database : ℕ → Err
