-- ===== src/Workspace/Statements.antt =====
-- services/workspace/db/queries/create_workspace.sql and workspaces.sql, with the constraints of
-- services/workspace/db/migrations.
use flowspace_api.Base.{
  ℕ, ◌+◌, ◌*◌, Bool, false, not, ◌&&◌, ◌||◌, [], ◌∷◌, Option, leb, ◌==◌, if◌then◌else◌, find, any,
  filter, count, length, Text, text_eq, bytes, is_empty,
}
use flowspace_api.Encoding.Utf8.{rune_count}
use flowspace_api.Workspace.Errors.{constraint_violation}
use flowspace_api.Workspace.Run.{
  Store, WorkspaceRow, Membership, Creation, W, Reply, rows, rejected, statement,
}

-- A nanosecond is 1.
abbrev pub day : ℕ
day = 24 * 3600 * 1000000000

-- `pg_try_advisory_xact_lock`
unfoldable pub try_create_workspace_lock : ℕ → W Bool
try_create_workspace_lock lock_id = statement (λ e n d. rows (e.lock_is_free n lock_id) d)

abbrev pub is_for : Text → Text → Creation → Bool
is_for subject key c = text_eq c.subject subject && text_eq c.idempotency_key key

abbrev pub is_expired : ℕ → Creation → Bool
is_expired now c = leb c.expires_at now

abbrev pub without_expired : Text → Text → ℕ → Store → Store
without_expired subject key now d = record d {
  creations = filter (λ c. not (is_for subject key c && is_expired now c)) d.creations;
}

unfoldable pub delete_expired_workspace_creation : Text → Text → W ℕ
delete_expired_workspace_creation subject key = statement (λ e n d.
    rows (count (λ c. is_for subject key c && is_expired (e.statement_timestamp n) c) d.creations)
      (without_expired subject key (e.statement_timestamp n) d))

unfoldable pub get_workspace_creation : Text → Text → W (Option Creation)
get_workspace_creation subject key =
    statement (λ e n d. rows (find (is_for subject key) d.creations) d)

-- A text ends with a space.
unfoldable pub ends_with_space : Text → Bool
ends_with_space [] = false
ends_with_space (c ∷ []) = c == 32
ends_with_space (c ∷ d ∷ s) = ends_with_space (d ∷ s)

abbrev pub starts_with_space : Text → Bool
starts_with_space [] = false
starts_with_space (c ∷ s) = c == 32

-- `name = btrim(name) AND char_length(name) BETWEEN 1 AND 100`
unfoldable pub is_name : Text → Bool
unfolding ends_with_space
is_name name =
    not (starts_with_space name)
    && not (ends_with_space name)
    && leb 1 (rune_count name)
    && leb (rune_count name) 100

abbrev pub with_workspace : WorkspaceRow → Store → Store
with_workspace row d = record d { workspaces = row ∷ d.workspaces }

unfoldable pub insert_workspace : WorkspaceRow → Store → Reply WorkspaceRow
unfolding is_name
insert_workspace row d =
    if any (λ r. r.id == row.id) d.workspaces || not (is_name row.name)
    then rejected constraint_violation
    else rows row (with_workspace row d)

unfoldable pub create_workspace : Text → W WorkspaceRow
unfolding insert_workspace
create_workspace name = statement (λ e n d.
    insert_workspace
      (record { id = e.gen_random_uuid n; name = name; created_at = e.transaction_timestamp n }) d)

unfoldable pub owner : Text
owner = bytes "owner"

abbrev pub with_membership : Membership → Store → Store
with_membership m d = record d { memberships = m ∷ d.memberships }

-- The reference, the keys of the table, the one owner and the non-empty subject.
unfoldable pub insert_owner : ℕ → Text → Store → Reply (Unit {0})
unfolding owner
insert_owner workspace_id subject d =
    if not (any (λ r. r.id == workspace_id) d.workspaces)
      || any
          (λ m.
            m.workspace_id == workspace_id && (text_eq m.subject subject || text_eq m.role owner))
          d.memberships
      || is_empty subject
    then rejected constraint_violation
    else rows tt (
        with_membership (record { workspace_id = workspace_id; subject = subject; role = owner }) d)

unfoldable pub create_workspace_owner : ℕ → Text → W (Unit {0})
unfolding insert_owner
create_workspace_owner workspace_id subject =
    statement (λ e n d. insert_owner workspace_id subject d)

abbrev pub with_creation : Creation → Store → Store
with_creation c d = record d { creations = c ∷ d.creations }

unfoldable pub insert_creation : Creation → Store → Reply (Unit {0})
insert_creation c d =
    if not (any (λ r. r.id == c.workspace_id) d.workspaces)
      || any (is_for c.subject c.idempotency_key) d.creations
      || is_empty c.subject
      || not (leb 1 (rune_count c.idempotency_key) && leb (rune_count c.idempotency_key) 255)
      || not (length c.request_hash == 32)
    then rejected constraint_violation
    else rows tt (with_creation c d)

-- RecordWorkspaceCreationParams: subject, key, hash and the workspace.
unfoldable pub record_workspace_creation : Text → Text → Text → WorkspaceRow → W (Unit {0})
unfolding insert_creation
record_workspace_creation subject key request_hash row = statement (λ e n d.
    insert_creation
      (record {
        subject = subject;
        idempotency_key = key;
        request_hash = request_hash;
        workspace_id = row.id;
        workspace_name = row.name;
        workspace_created_at = row.created_at;
        completed_at = e.statement_timestamp n;
        expires_at = e.statement_timestamp n + day;
      })
      d)

unfoldable pub get_workspace_for_subject : ℕ → Text → W (Option WorkspaceRow)
get_workspace_for_subject id subject = statement (λ e n d.
    rows
      (find
        (λ r.
          r.id == id
          && any (λ m. m.workspace_id == r.id && text_eq m.subject subject) d.memberships)
        d.workspaces)
      d)
