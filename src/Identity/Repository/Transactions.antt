-- ===== src/Identity/Repository/Transactions.antt =====
-- `withinTransaction` and the re-authentication deadline of a transaction
-- (services/identity/internal/adapter/out/postgres/account_repository.go). Row locks are not
-- modelled: a transaction runs with no other one in between.
pub mod Atomic
pub mod Deadline
pub mod Keeps
use flowspace_api.Base.{
  ℕ, Bool, true, false, not, ◌||◌, Option, none, some, ltb, ◌==◌, if◌then◌else◌, [], Text,
}
use flowspace_api.Identity.Errors.{
  Err, sentinel, constraint, reauthentication_deadline, unauthenticated, reauthentication_required,
  invalid_uuid,
}
use flowspace_api.Identity.Database.{Session}
use flowspace_api.Identity.Run.{
  Env, World, Transaction, Outcome, ok, err, M, pure, fail, refuse_if, map_err, query, ◌>>=◌, ◌>>◌,
}
use flowspace_api.Identity.Domain.Reauthentication.{ReauthenticationWindow, is_zero}
use flowspace_api.Identity.Statements.Limits.{plain_statement}
use flowspace_api.Identity.Statements.Sessions.{
  set_reauthentication_deadline, queue_session_reauthentication_check,
  check_reauthentication_deadline, stamp_session_reauthentication, get_session_reauthentication,
}

abbrev pub new_transaction : Transaction
new_transaction = record {
  reauthentication_session = none;
  reauthentication_subject = [];
  reauthentication_deadline = 0;
  requested_session = none;
  deadline_setting = none;
}

-- `&accountTransaction{…}`.
unfoldable pub open_transaction : M (Unit {0})
open_transaction e w = ok tt (record w { transaction = new_transaction })

unfoldable pub get_transaction : M Transaction
get_transaction e w = ok w.transaction w

-- The session's id as a parameter; a UUID that was never set is no row.
abbrev pub queue_check : Option ℕ → M ℕ
queue_check none = query (λ now d. 0)
queue_check (some id) = queue_session_reauthentication_check id

-- The triggers that COMMIT fires for the queued check: the deadline, the proof time, and the
-- deadline again for the row that the proof time changed.
abbrev pub fire_triggers : Transaction → Option ℕ → M (Unit {0})
fire_triggers t none = pure tt
fire_triggers t (some id) = do
  check_reauthentication_deadline
  stamp_session_reauthentication id t.requested_session
  check_reauthentication_deadline

-- The error of COMMIT as `withinTransaction` returns it.
unfoldable pub commit_error : Err → Err
commit_error (constraint reauthentication_deadline) = sentinel reauthentication_required
commit_error x = x

unfoldable pub commit_checked : Transaction → M (Unit {0})
unfolding commit_error
commit_checked t = do
  set_reauthentication_deadline t.reauthentication_deadline
  queued ← queue_check t.reauthentication_session
  refuse_if (not (queued == 1)) (sentinel unauthenticated)
  map_err commit_error (plain_statement >> fire_triggers t t.reauthentication_session)

unfoldable pub commit_transaction : Transaction → M (Unit {0})
unfolding commit_checked
commit_transaction t =
    if is_zero t.reauthentication_deadline
    then map_err commit_error plain_statement
    else commit_checked t

-- The tables after an error are those before the transaction.
abbrev pub roll_back : {A : Type 0} → World → Outcome A → Outcome A
roll_back w (ok a v) = ok a v
roll_back w (err x v) = err x (record v { db = w.db })

unfoldable pub transact : {A : Type 0} → M A → M A
unfolding commit_transaction
transact body = do
  plain_statement
  open_transaction
  a ← body
  t ← get_transaction
  commit_transaction t
  pure a

unfoldable pub within_transaction : {A : Type 0} → M A → M A
unfolding transact
within_transaction body e w = roll_back w (transact body e w)

-- `if deadline.IsZero() || deadline.Before(t.deadline) { t.deadline = deadline }`
unfoldable pub sooner : ℕ → ℕ → ℕ
sooner held deadline = if is_zero held || ltb deadline held then deadline else held

unfoldable pub require_commit_before : ℕ → M (Unit {0})
unfolding sooner
require_commit_before deadline e w = ok tt (record w {
  transaction = record (w.transaction) {
    reauthentication_deadline = sooner (w.transaction.reauthentication_deadline) deadline;
  };
})

-- `parseUUID`, with the error that the caller returns.
unfoldable pub parse_uuid_or : Err → Text → M ℕ
parse_uuid_or x value e w = elim (e.parse_uuid value) [ some id ↦ ok id w | none ↦ err x w ]

abbrev pub time_of : Option ℕ → ℕ
time_of none = 0
time_of (some t) = t

abbrev pub window_of : Session → ReauthenticationWindow
window_of s = record {
  authenticated_at = time_of s.reauthenticated_at;
  idle_expires_at = s.idle_expires_at;
  absolute_expires_at = s.absolute_expires_at;
}

-- A row, or the error for no rows.
unfoldable pub row_or : {A : Type 0} → Err → Option A → M A
row_or x none = fail x
row_or x (some a) = pure a

abbrev pub session_window : Option ℕ → Text → M (Option (Session × ℕ))
session_window none subject = query (λ now d. none)
session_window (some id) subject = get_session_reauthentication subject id

unfoldable pub read_window : Transaction → M ReauthenticationWindow
read_window t = do
  found ← session_window t.reauthentication_session t.reauthentication_subject
  row ← row_or (sentinel unauthenticated) found
  pure (window_of (row.0))

-- The window is read after the commit, whose trigger sets the proof time.
unfoldable pub within_reauthentication_transaction :
    {A : Type 0} → M A → M (A × ReauthenticationWindow)
unfolding read_window
within_reauthentication_transaction body = do
  a ← within_transaction body
  t ← get_transaction
  window ← read_window t
  pure (a, window)
