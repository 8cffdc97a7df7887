-- ===== src/Identity/Statements/Outbox/Notices.antt =====
-- The statements of services/identity/db/queries/outbox.sql on notices that wait to be sent.
use flowspace_api.Base.{
  ℕ, suc, ◌+◌, ◌*◌, Bool, not, ◌&&◌, ◌||◌, List, [], ◌∷◌, Option, none, some, ltb, leb, ◌==◌,
  if◌then◌else◌, update, filter, count, is_none,
}
use flowspace_api.Identity.Database.{Notice}
use flowspace_api.Identity.Run.{M, query, exec}
use flowspace_api.Identity.Domain.Challenge.{second}

abbrev pub is_due_notice : ℕ → Notice → Bool
is_due_notice now n = is_none n.delivered_at && leb n.next_attempt_at now

-- `ORDER BY next_attempt_at, created_at`
abbrev pub notice_goes_before : Notice → Notice → Bool
notice_goes_before n m =
    ltb n.next_attempt_at m.next_attempt_at
    || (n.next_attempt_at == m.next_attempt_at && ltb n.created_at m.created_at)

abbrev pub first_of_notices : Notice → Option Notice → Option Notice
first_of_notices n none = some n
first_of_notices n (some m) = if notice_goes_before m n then some m else some n

unfoldable pub first_due_notice : ℕ → List Notice → Option Notice
first_due_notice now [] = none
first_due_notice now (n ∷ ns) =
    let rest = first_due_notice now ns in
    if is_due_notice now n then first_of_notices n rest else rest

unfoldable pub lock_next_password_change_notice : M (Option Notice)
unfolding first_due_notice
lock_next_password_change_notice = query (λ now d. first_due_notice now d.notices)

unfoldable pub delete_password_change_notice : ℕ → M ℕ
delete_password_change_notice id = exec (λ now d. (
  count (λ n. n.id == id) d.notices,
  record d { notices = filter (λ n. not (n.id == id)) d.notices },
))

abbrev pub put_off : ℕ → Notice → Notice
put_off now n = record n {
  attempt_count = suc n.attempt_count;
  next_attempt_at = now + 30 * second;
}

unfoldable pub defer_password_change_notice : ℕ → M ℕ
defer_password_change_notice id = exec (λ now d. (
  count (λ n. n.id == id && is_none n.delivered_at) d.notices,
  record d { notices = update (λ n. n.id == id && is_none n.delivered_at) (put_off now) d.notices },
))
