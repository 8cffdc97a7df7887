-- ===== src/Identity/Statements/Sessions.antt =====
-- services/identity/db/queries/sessions.sql.
pub mod Endings
use flowspace_api.Base.{
  ℕ, ◌+◌, ◌*◌, Bool, not, ◌&&◌, ◌||◌, List, ◌∷◌, Option, none, some, ltb, ◌==◌, if◌then◌else◌, find,
  any, update, count, Text, text_eq, is_none,
}
use flowspace_api.Identity.Errors.{constraint, other_constraint, reauthentication_deadline}
use flowspace_api.Identity.Database.{Database, Account, Session, RotatedToken}
use flowspace_api.Identity.Run.{M, Reply, rows, rejected, statement, query, exec, ok, err}
use flowspace_api.Identity.Statements.Challenges.{hour}
use flowspace_api.Identity.Statements.Accounts.{is_active_subject}

abbrev pub day : ℕ
day = 24 * hour

-- Not revoked, and before both expiries.
abbrev pub is_live : ℕ → Session → Bool
is_live now s = is_none s.revoked_at && ltb now s.idle_expires_at && ltb now s.absolute_expires_at

abbrev pub is_live_session : Text → ℕ → ℕ → Session → Bool
is_live_session subject id now s = text_eq s.account_subject subject && s.id == id && is_live now s

abbrev pub update_sessions : (Session → Bool) → (Session → Session) → Database → ℕ × Database
update_sessions p f d = (count p d.sessions, record d { sessions = update p f d.sessions })

abbrev pub revoke : ℕ → Session → Session
revoke now s = record s { revoked_at = some now }

-- The active account of a live session: the join of accounts and sessions.
unfoldable pub find_session_account : Text → ℕ → ℕ → Database → Option Account
find_session_account subject id now d =
    if any (is_live_session subject id now) d.sessions
    then find (is_active_subject subject) d.accounts
    else none

unfoldable pub get_active_account_for_session_for_update : Text → ℕ → M (Option Account)
unfolding find_session_account
get_active_account_for_session_for_update subject id =
    query (λ now d. find_session_account subject id now d)

unfoldable pub get_active_session_state : Text → ℕ → M (Option Account)
unfolding find_session_account
get_active_session_state subject id = query (λ now d. find_session_account subject id now d)

-- The keys of the table: the id and the hash of the refresh token.
unfoldable pub insert_session : Session → Database → Reply Session
insert_session row d =
    if any (λ s. s.id == row.id || text_eq s.refresh_token_hash row.refresh_token_hash) d.sessions
    then rejected (constraint other_constraint)
    else rows row (record d { sessions = row ∷ d.sessions })

unfoldable pub create_session : Text → Text → M Session
unfolding insert_session
create_session subject refresh_token_hash = statement (λ now id d.
    insert_session
      (record {
        id = id;
        account_subject = subject;
        refresh_token_hash = refresh_token_hash;
        created_at = now;
        reauthenticated_at = some now;
        idle_expires_at = now + 30 * day;
        absolute_expires_at = now + 90 * day;
        revoked_at = none;
      })
      d)

abbrev pub with_time : ℕ → Option Session → Option (Session × ℕ)
with_time now none = none
with_time now (some s) = some (s, now)

-- The session with the time of the clock, which here is the time that the statement reads.
unfoldable pub get_session_reauthentication : Text → ℕ → M (Option (Session × ℕ))
get_session_reauthentication subject id = query (λ now d.
    if any (is_active_subject subject) d.accounts
    then with_time now (find (is_live_session subject id now) d.sessions)
    else none)

abbrev pub session_or_rotated : Option Session → Option RotatedToken → Option ℕ
session_or_rotated (some s) t = some s.id
session_or_rotated none (some t) = some t.session_id
session_or_rotated none none = none

-- The session that has the token now, or else the one that had it before.
unfoldable pub find_refresh_session : Text → M (Option ℕ)
find_refresh_session token_hash = query (λ now d.
    session_or_rotated (find (λ s. text_eq s.refresh_token_hash token_hash) d.sessions)
      (find (λ t. text_eq t.token_hash token_hash) d.rotated_tokens))

abbrev pub subject_of : Option Session → Option Text
subject_of none = none
subject_of (some s) = some s.account_subject

unfoldable pub get_refresh_session_subject : ℕ → M (Option Text)
get_refresh_session_subject id = query (λ now d. subject_of (find (λ s. s.id == id) d.sessions))

-- The account subject, the token hash and whether the session is active.
pub record RefreshRow : Type 0 where
  pub account_subject : Text
  pub refresh_token_hash : Text
  pub active : Bool

abbrev pub refresh_row : ℕ → List Account → Option Session → Option RefreshRow
refresh_row now accounts none = none
refresh_row now accounts (some s) =
    if any (λ a. text_eq a.subject s.account_subject) accounts
    then some (record {
      account_subject = s.account_subject;
      refresh_token_hash = s.refresh_token_hash;
      active = any (is_active_subject s.account_subject) accounts && is_live now s;
    })
    else none

unfoldable pub get_refresh_session_for_update : ℕ → M (Option RefreshRow)
get_refresh_session_for_update id =
    query (λ now d. refresh_row now d.accounts (find (λ s. s.id == id) d.sessions))

-- The token hash is the key of the table.
unfoldable pub record_rotated_refresh_token : Text → ℕ → M (Unit {0})
record_rotated_refresh_token token_hash id = statement (λ now fresh d.
    if any (λ t. text_eq t.token_hash token_hash) d.rotated_tokens
    then rejected (constraint other_constraint)
    else rows tt (record d {
      rotated_tokens = record { token_hash = token_hash; session_id = id } ∷ d.rotated_tokens;
    }))

abbrev pub is_rotatable : ℕ → Text → ℕ → Session → Bool
is_rotatable id old_hash now s =
    s.id == id && text_eq s.refresh_token_hash old_hash && is_live now s

abbrev pub rotated : Text → ℕ → Session → Session
rotated new_hash now s = record s {
  refresh_token_hash = new_hash;
  idle_expires_at =
      if ltb (now + 30 * day) s.absolute_expires_at then now + 30 * day else s.absolute_expires_at;
}

-- The session as it is after the update, with the time of the statement.
unfoldable pub rotate_in : ℕ → Text → Text → ℕ → Database → Reply (Option (Session × ℕ))
rotate_in id old_hash new_hash now d = elim (find (is_rotatable id old_hash now) d.sessions) [
  | none ↦ rows none d
  | some s ↦
      if any (λ t. text_eq t.refresh_token_hash new_hash && not (t.id == id)) d.sessions
      then rejected (constraint other_constraint)
      else rows (some (rotated new_hash now s, now)) (record d {
        sessions = update (is_rotatable id old_hash now) (rotated new_hash now) d.sessions;
      })
]

unfoldable pub rotate_current_refresh_token : Text → ℕ → Text → M (Option (Session × ℕ))
unfolding rotate_in
rotate_current_refresh_token new_hash id old_hash =
    statement (λ now fresh d. rotate_in id old_hash new_hash now d)

unfoldable pub revoke_refresh_session : ℕ → M ℕ
revoke_refresh_session id =
    exec (λ now d. update_sessions (λ s. s.id == id && is_none s.revoked_at) (revoke now) d)

unfoldable pub revoke_account_sessions : Text → M ℕ
revoke_account_sessions subject = exec (λ now d.
    update_sessions (λ s. text_eq s.account_subject subject && is_none s.revoked_at) (revoke now) d)

unfoldable pub revoke_current_session : ℕ → Text → M ℕ
revoke_current_session id subject = exec (λ now d.
    update_sessions
      (λ s. is_live_session subject id now s && any (is_active_subject subject) d.accounts)
      (revoke now) d)

-- The setting that `set_config` keeps for the transaction.
unfoldable pub request_session_reauthentication : ℕ → M (Unit {0})
request_session_reauthentication id e w = elim (query (λ now d. tt) e w) [
  | ok u v ↦
      ok tt (record v { transaction = record (v.transaction) { requested_session = some id } })
  | err x v ↦ err x v
]

-- `set_config` for the transaction.
unfoldable pub set_reauthentication_deadline : ℕ → M (Unit {0})
set_reauthentication_deadline deadline e w = elim (query (λ now d. tt) e w) [
  | ok u v ↦
      ok tt (record v { transaction = record (v.transaction) { deadline_setting = some deadline } })
  | err x v ↦ err x v
]

unfoldable pub queue_session_reauthentication_check : ℕ → M ℕ
queue_session_reauthentication_check id = query (λ now d. count (λ s. s.id == id) d.sessions)

-- The deferred trigger identity_check_reauthentication_deadline
-- (services/identity/db/migrations/00010_add_session_reauthentication_time.sql).
-- A setting that was not set is NULL, and refuses nothing.
unfoldable pub check_setting : Option ℕ → M (Unit {0})
check_setting none = query (λ now d. tt)
check_setting (some deadline) = statement (λ now fresh d.
    if ltb now deadline then rows tt d else rejected (constraint reauthentication_deadline))

unfoldable pub check_reauthentication_deadline : M (Unit {0})
unfolding check_setting
check_reauthentication_deadline e w = check_setting w.transaction.deadline_setting e w

-- The deferred trigger identity_stamp_session_reauthentication
-- (services/identity/db/migrations/00011_set_reauthentication_time_at_commit.sql).
unfoldable pub stamp_session_reauthentication : ℕ → Option ℕ → M (Unit {0})
stamp_session_reauthentication id none = query (λ now d. tt)
stamp_session_reauthentication id (some requested) = exec (λ now d. (
  tt,
  record d {
    sessions =
        update (λ s. s.id == id && requested == id)
          (λ s. record s { reauthenticated_at = some now }) d.sessions;
  },
))
