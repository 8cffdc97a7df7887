-- ===== src/Identity/Repository/Transactions/Deadline.antt =====
-- The re-authentication deadline of a transaction (`RequireCommitBefore` and the commit of
-- `withinTransaction` in services/identity/internal/adapter/out/postgres/account_repository.go).
use flowspace_api.Base.{
  ℕ, suc, ◌≤◌, ◌<◌, ◌≡◌, refl, false, not, Option, none, some, ◌==◌, arith, ◌⊎◌, ◌≢◌, ap, subst,
  ◌∙◌,
}
use flowspace_api.Identity.Errors.{sentinel, unauthenticated}
use flowspace_api.Identity.Run.{
  Env, World, Transaction, M, ok, map_err, ◌>>◌, statement, query, ◌>>=◌, refuse_if,
}
use flowspace_api.Identity.Run.Laws.{map_err-ok, bind-ok, refuse_if-ok, query-ok, exec-ok}
use flowspace_api.Identity.Statements.Limits.{plain_statement}
use flowspace_api.Identity.Statements.Sessions.{
  set_reauthentication_deadline, check_setting, check_reauthentication_deadline,
  queue_session_reauthentication_check, stamp_session_reauthentication,
}
use flowspace_api.Identity.Domain.Reauthentication.{is_zero}
use flowspace_api.Identity.Repository.Transactions.{
  sooner, commit_transaction, commit_checked, fire_triggers, queue_check, commit_error,
}

-- Of two deadlines that are set, the sooner one holds.
pub sooner-least :
    (held deadline : ℕ)
    → held ≢ 0
    → deadline ≢ 0
    → (sooner held deadline ≤ held)
      × (sooner held deadline ≤ deadline)
      × ((sooner held deadline ≡ held) ⊎ (sooner held deadline ≡ deadline))
unfolding sooner
sooner-least held deadline h d = ground arith

is_zero-false : (t : ℕ) → t ≢ 0 → is_zero t ≡ false
is_zero-false t d = ground (arith, d)

-- The setting of the deadline in a world.
abbrev HasSetting : ℕ → World → Type 0
HasSetting deadline w = w.transaction.deadline_setting ≡ some deadline

set_reauthentication_deadline-HasSetting :
    (deadline : ℕ) (e : Env) (w v : World) (u : Unit {0})
    → set_reauthentication_deadline deadline e w ≡ ok u v
    → HasSetting deadline v
unfolding set_reauthentication_deadline query statement
set_reauthentication_deadline-HasSetting deadline e w v u h = ground arith

check_setting-ok :
    (deadline : ℕ) (e : Env) (w v : World) {u : Unit {0}}
    → check_setting (some deadline) e w ≡ ok u v
    → (e.statement_timestamp w.step < deadline)
      × (v.step ≡ suc w.step)
      × (v.transaction ≡ w.transaction)
unfolding check_setting statement
check_setting-ok deadline e w v h = ground arith

check_reauthentication_deadline-ok :
    (deadline : ℕ) (e : Env) (w v : World) {u : Unit {0}}
    → HasSetting deadline w
    → check_reauthentication_deadline e w ≡ ok u v
    → (e.statement_timestamp w.step < deadline)
      × (v.step ≡ suc w.step)
      × (v.transaction ≡ w.transaction)
unfolding check_reauthentication_deadline
check_reauthentication_deadline-ok deadline e w v {u} set h =
    check_setting-ok deadline e w v (subst (λ o. check_setting o e w ≡ ok u v) set h)

stamp_session_reauthentication-transaction :
    (id : ℕ) (requested : Option ℕ) (e : Env) (w v : World) {u : Unit {0}}
    → stamp_session_reauthentication id requested e w ≡ ok u v
    → v.transaction ≡ w.transaction
unfolding stamp_session_reauthentication
stamp_session_reauthentication-transaction id none e w v h =
    ap (λ x. x.transaction) (query-ok _ e w h).1
stamp_session_reauthentication-transaction id (some requested) e w v h =
    ap (λ x. x.transaction) (exec-ok _ e w h).1

-- The last statement of the triggers is the second check.
fire_triggers-before :
    (t : Transaction) (id deadline : ℕ) (e : Env) (w v : World) (u : Unit {0})
    → HasSetting deadline w
    → fire_triggers t (some id) e w ≡ ok u v
    → (last : ℕ) × (v.step ≡ suc last) × (e.statement_timestamp last < deadline)
fire_triggers-before t id deadline e w v u set h =
    let (a, w1, r1, h1) = bind-ok _ _ e w h in
    let (b, w2, r2, h2) = bind-ok _ _ e w1 h1 in
    let (early, step, kept1) = check_reauthentication_deadline-ok deadline e w w1 set r1 in
    let kept2 = stamp_session_reauthentication-transaction id t.requested_session e w1 w2 r2 in
    let (before, last, kept3) =
      check_reauthentication_deadline-ok deadline e w2 v
        (ap (λ x. x.deadline_setting) (kept2 ∙ kept1) ∙ set) h2 in
    (w2.step, last, before)

queue_check-transaction :
    (session : Option ℕ) (e : Env) (w v : World) {n : ℕ}
    → queue_check session e w ≡ ok n v
    → v.transaction ≡ w.transaction
unfolding queue_session_reauthentication_check
queue_check-transaction none e w v h = ap (λ x. x.transaction) (query-ok _ e w h).1
queue_check-transaction (some id) e w v h = ap (λ x. x.transaction) (query-ok _ e w h).1

plain_statement-transaction :
    (e : Env) (w v : World) {u : Unit {0}}
    → plain_statement e w ≡ ok u v
    → v.transaction ≡ w.transaction
unfolding plain_statement
plain_statement-transaction e w v h = ap (λ x. x.transaction) (query-ok _ e w h).1

-- What follows the setting of the deadline.
abbrev rest_of_commit : Transaction → Option ℕ → M (Unit {0})
rest_of_commit t session = do
  queued ← queue_check session
  refuse_if (not (queued == 1)) (sentinel unauthenticated)
  map_err commit_error (plain_statement >> fire_triggers t session)

rest_of_commit-before :
    (t : Transaction) (session : Option ℕ) (deadline : ℕ) (e : Env) (w v : World) (u : Unit {0})
    → HasSetting deadline w
    → rest_of_commit t session e w ≡ ok u v
    → (id : ℕ) × (last : ℕ) × (session ≡ some id)
      × (v.step ≡ suc last)
      × (e.statement_timestamp last < deadline)
rest_of_commit-before t none deadline e w v u set h =
    let (n, w2, r2, h2) = bind-ok _ _ e w h in
    let (c, w3, r3, h3) = bind-ok _ _ e w2 h2 in
    absurd (refused n (query-ok _ e w r2).0 (refuse_if-ok _ _ e w2 r3).0)
  where
    refused : (n : ℕ) → n ≡ 0 → not (n == 1) ≢ false
    refused n z f = ground arith
rest_of_commit-before t (some id) deadline e w v u set h =
    let (n, w2, r2, h2) = bind-ok _ _ e w h in
    let (c, w3, r3, h3) = bind-ok _ _ e w2 h2 in
    let (b, w4, r4, h4) = bind-ok _ _ e w3 (map_err-ok commit_error _ e w3 h3) in
    let kept =
      plain_statement-transaction e w3 w4 r4
      ∙ (ap (λ x. x.transaction) (refuse_if-ok _ _ e w2 r3).1
          ∙ queue_check-transaction (some id) e w w2 r2) in
    let (last, s, before) =
      fire_triggers-before t id deadline e w4 v u (ap (λ x. x.deadline_setting) kept ∙ set) h4 in
    (id, last, refl, s, before)

-- A transaction with a deadline commits only if it locked a session, and the last statement that it
-- ran came before the deadline.
pub commit_transaction-before :
    (t : Transaction) (e : Env) (w v : World) (u : Unit {0})
    → t.reauthentication_deadline ≢ 0
    → commit_transaction t e w ≡ ok u v
    → (id : ℕ) × (last : ℕ) × (t.reauthentication_session ≡ some id)
      × (v.step ≡ suc last)
      × (e.statement_timestamp last < t.reauthentication_deadline)
unfolding commit_transaction commit_checked
commit_transaction-before t e w v u d h =
    let (a, w1, r1, h1) =
      bind-ok (set_reauthentication_deadline t.reauthentication_deadline)
        (λ u. rest_of_commit t t.reauthentication_session) e w
        (rw (is_zero-false t.reauthentication_deadline d) at h) in
    rest_of_commit-before t t.reauthentication_session t.reauthentication_deadline e w1 v u
      (set_reauthentication_deadline-HasSetting t.reauthentication_deadline e w w1 a r1) h1
