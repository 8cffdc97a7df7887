-- ===== src/Examples/Sessions.antt =====
-- Sessions, transactions and deliveries run at concrete inputs.
use flowspace_api.Identity.Repository.Refresh.{RefreshSessionRecord, rotate_work, rotate}
use flowspace_api.Identity.Repository.Refresh.Once.{IsUsed, rotate-once}
use flowspace_api.Identity.Run.{pure}
use flowspace_api.Identity.Run.Laws.{world_of}
use flowspace_api.Base.{
  ℕ, suc, ◌<◌, none, some, Option, [], ◌∷◌, bytes, ◌≡◌, ◌≢◌, refl, arith, text_eq, leb, not,
}
use flowspace_api.Identity.Errors.{sentinel, reauthentication_required}
use flowspace_api.Identity.Database.{Account}
use flowspace_api.Identity.Run.{
  World, Transaction, M, ok, err, exec, query, statement, ◌>>=◌, refuse_if, map_err,
}
use flowspace_api.Identity.Statements.Limits.{plain_statement}
use flowspace_api.Identity.Statements.Sessions.{
  revoke, rotated, revoke_account_sessions, get_active_session_state, rotate_current_refresh_token,
  set_reauthentication_deadline, queue_session_reauthentication_check,
  check_reauthentication_deadline, stamp_session_reauthentication,
}
use flowspace_api.Identity.Statements.Sessions.Endings.{revoke_account_sessions-final}
use flowspace_api.Identity.Repository.Transactions.{
  commit_transaction, within_transaction, open_transaction,
}
use flowspace_api.Identity.Repository.Transactions.Atomic.{within_transaction-rolls_back}
use flowspace_api.Identity.Repository.Transactions.Deadline.{commit_transaction-before}
use flowspace_api.Identity.Repository.Delivery.{is_current_delivery}
use flowspace_api.Identity.Repository.Delivery.Terminal.{is_current_delivery-is_terminal}
use flowspace_api.Identity.Statements.Deliveries.{is_terminal}
use flowspace_api.Examples.Worlds.{quiet, start, tables, ann, ann_session, ann_challenge}

abbrev sessions_ended : World
sessions_ended = record start {
  db = record tables { sessions = revoke 100 ann_session ∷ [] };
  step = 1;
}

all_revoked : revoke_account_sessions (bytes "ann") quiet start ≡ ok 1 sessions_ended
unfolding revoke_account_sessions exec statement text_eq
all_revoked = refl

no_state :
    get_active_session_state (bytes "ann") 2 quiet sessions_ended
    ≡ ok none (record sessions_ended { step = 2 })
unfolding get_active_session_state query statement text_eq
no_state = refl

revoke_account_sessions-final_example : ◌≡◌ {A = Option Account} none none
revoke_account_sessions-final_example =
    revoke_account_sessions-final quiet start sessions_ended (record sessions_ended { step = 2 })
      (bytes "ann") 2 1 none all_revoked no_state

abbrev no_tokens : RefreshSessionRecord → M (Unit {0})
no_tokens session = pure tt

-- The token is replaced, and the session gets it again later.
abbrev token_replaced : World
token_replaced = world_of (rotate_work (bytes "t1") (bytes "t2") no_tokens quiet start)

abbrev token_back : World
token_back = world_of (rotate_work (bytes "t2") (bytes "t1") no_tokens quiet token_replaced)

first_rotation :
    rotate_work (bytes "t1") (bytes "t2") no_tokens quiet start ≡ ok (some tt) token_replaced
unfolding rotate_work ◌>>=◌ flowspace_api.Identity.Statements.Sessions.find_refresh_session query
    flowspace_api.Identity.Repository.Transactions.row_or text_eq
    flowspace_api.Identity.Statements.Sessions.get_refresh_session_subject
    flowspace_api.Identity.Statements.Accounts.get_active_account_for_update
    flowspace_api.Identity.Statements.Sessions.get_refresh_session_for_update refuse_if
    flowspace_api.Identity.Statements.Sessions.record_rotated_refresh_token
    rotate_current_refresh_token flowspace_api.Identity.Run.asks
first_rotation = refl

back_again :
    rotate_work (bytes "t2") (bytes "t1") no_tokens quiet token_replaced ≡ ok (some tt) token_back
unfolding rotate_work ◌>>=◌ flowspace_api.Identity.Statements.Sessions.find_refresh_session query
    flowspace_api.Identity.Repository.Transactions.row_or text_eq
    flowspace_api.Identity.Statements.Sessions.get_refresh_session_subject
    flowspace_api.Identity.Statements.Accounts.get_active_account_for_update
    flowspace_api.Identity.Statements.Sessions.get_refresh_session_for_update refuse_if
    flowspace_api.Identity.Statements.Sessions.record_rotated_refresh_token
    rotate_current_refresh_token flowspace_api.Identity.Run.asks
back_again = refl

token_back-IsUsed : IsUsed (bytes "t1") token_back.db
unfolding rotate_work ◌>>=◌ flowspace_api.Identity.Statements.Sessions.find_refresh_session query
    flowspace_api.Identity.Repository.Transactions.row_or text_eq
    flowspace_api.Identity.Statements.Sessions.get_refresh_session_subject
    flowspace_api.Identity.Statements.Accounts.get_active_account_for_update
    flowspace_api.Identity.Statements.Sessions.get_refresh_session_for_update refuse_if
    flowspace_api.Identity.Statements.Sessions.record_rotated_refresh_token
    rotate_current_refresh_token flowspace_api.Identity.Run.asks
token_back-IsUsed = refl

rotate-once_example :
    rotate (bytes "t1") (bytes "t3") no_tokens quiet token_back ≢ ok (some tt) start
rotate-once_example =
    rotate-once (bytes "t1") (bytes "t2") (bytes "t3") no_tokens no_tokens quiet quiet start
      token_replaced token_back start tt tt (λ r e w used. used) first_rotation
      (λ used. token_back-IsUsed)

abbrev deadline_set : Transaction
deadline_set = record {
  reauthentication_session = some 2;
  reauthentication_subject = bytes "ann";
  reauthentication_deadline = 500;
  requested_session = none;
  deadline_setting = none;
}

abbrev committed_world : World
committed_world = record start {
  transaction = record (start.transaction) { deadline_setting = some 500 };
  step = 6;
}

committed : commit_transaction deadline_set quiet start ≡ ok tt committed_world
unfolding commit_transaction ◌>>=◌ set_reauthentication_deadline query
    queue_session_reauthentication_check refuse_if map_err plain_statement
    check_reauthentication_deadline stamp_session_reauthentication
committed = refl

commit_transaction-before_example :
    (id : ℕ) × (last : ℕ) × (some 2 ≡ some id)
    × (6 ≡ suc last)
    × (quiet.statement_timestamp last < 500)
commit_transaction-before_example =
    commit_transaction-before deadline_set quiet start committed_world tt (λ h. ground arith)
      committed

-- A transaction that ends the sessions and then fails.
abbrev failing : M (Unit {0})
failing e w = elim (revoke_account_sessions (bytes "ann") e w) [
  | ok n v ↦ err (sentinel reauthentication_required) v
  | err x v ↦ err x v
]

rolled_back :
    within_transaction failing quiet start
    ≡ err (sentinel reauthentication_required) (record start { step = 2 })
unfolding within_transaction revoke_account_sessions exec statement text_eq ◌>>=◌ plain_statement
    query open_transaction
rolled_back = refl

within_transaction-rolls_back_example : tables ≡ tables
within_transaction-rolls_back_example =
    within_transaction-rolls_back failing quiet start (record start { step = 2 })
      (sentinel reauthentication_required) rolled_back

is_current_delivery-is_terminal_example :
    is_current_delivery ann ann_challenge (leb 4000 100) ≡ not (is_terminal 100 ann ann_challenge)
is_current_delivery-is_terminal_example = is_current_delivery-is_terminal ann ann_challenge 100
