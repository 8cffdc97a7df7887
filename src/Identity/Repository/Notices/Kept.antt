-- ===== src/Identity/Repository/Notices/Kept.antt =====
-- A notice stays in its table until it is sent
-- (services/identity/internal/adapter/out/postgres/delivery_repository.go).
use flowspace_api.Base.{
  ap, subst, ℕ, List, ◌≡◌, refl, ◌∙◌, sym, map, map-update, Option, none, some, Text,
}
use flowspace_api.Identity.Errors.{Err}
use flowspace_api.Identity.Database.{Database, Notice}
use flowspace_api.Identity.Run.{err, Env, World, M, Attempted, value, error, ◌>>=◌}
use flowspace_api.Identity.Run.Laws.{world_of}
use flowspace_api.Identity.Run.Keeps.{
  Keeps, Fails, bind-Keeps, attempt-Keeps, attempt_failing-Keeps, exec-Keeps, query-Keeps,
}
use flowspace_api.Identity.Statements.Limits.{plain_statement}
use flowspace_api.Identity.Statements.Outbox.Notices.{
  lock_next_password_change_notice, defer_password_change_notice, put_off,
}
use flowspace_api.Identity.Repository.Notices.{
  tables, after_commit, after_change, after_send, send_locked, lock_and_send,
  with_next_password_change_notice,
}

abbrev notice_ids : Database → List ℕ
notice_ids d = map (λ n. n.id) d.notices

-- The table has the notices with these ids.
abbrev HasIds : List ℕ → Database → Type 0
HasIds ids d = notice_ids d ≡ ids

-- What is read first is the state to go back to.
tables-Keeps :
    (P : Database → Type 0) {B : Type 0} (f : Database → M B)
    → ((d : Database) → P d → Keeps P (f d))
    → Keeps P (tables >>= f)
unfolding tables ◌>>=◌
tables-Keeps P f h e w p = h w.db p e w p

plain-HasIds : (ids : List ℕ) → Keeps (HasIds ids) plain_statement
unfolding plain_statement
plain-HasIds ids = query-Keeps (HasIds ids) (λ now d. tt)

defer-HasIds : (ids : List ℕ) (id : ℕ) → Keeps (HasIds ids) (defer_password_change_notice id)
unfolding defer_password_change_notice
defer-HasIds ids id =
    exec-Keeps (HasIds ids) _
      (λ now d h. map-update (λ n. n.id) _ (put_off now) d.notices (λ n. refl) ∙ h)

after_commit-HasIds :
    (ids : List ℕ) (before : Database) (sent : Option Err) (committed : Attempted (Unit {0}))
    → HasIds ids before
    → Keeps (HasIds ids) (after_commit before sent committed)
unfolding after_commit
after_commit-HasIds ids before sent (value u) b e w p = p
after_commit-HasIds ids before sent (error x) b e w p = b

after_change-HasIds :
    (ids : List ℕ) (before : Database) (sent : Option Err) (changed : Attempted ℕ)
    → HasIds ids before
    → Keeps (HasIds ids) (after_change before sent changed)
unfolding after_change
after_change-HasIds ids before sent (error x) b = λ e w p. b
after_change-HasIds ids before sent (value n) b =
    bind-Keeps (HasIds ids) _ _ (attempt-Keeps (HasIds ids) _ (plain-HasIds ids))
      (λ committed. after_commit-HasIds ids before sent committed b)

module _ (send : Text → M (Unit {0})) where
  send_locked-HasIds :
      (ids : List ℕ) (before : Database) (locked : Attempted (Option Notice))
      → ((email : Text) → Fails (send email))
      → ((email : Text) → Keeps (HasIds ids) (send email))
      → HasIds ids before
      → Keeps (HasIds ids) (send_locked send before locked)
  unfolding send_locked after_send
  send_locked-HasIds ids before (error x) never keeps b = λ e w p. b
  send_locked-HasIds ids before (value none) never keeps b = λ e w p. b
  send_locked-HasIds ids before (value (some n)) never keeps b =
      attempt_failing-Keeps (HasIds ids) (send _) (after_send before n.id) (never _) (keeps _) (λ x.
        bind-Keeps (HasIds ids) _ _ (attempt-Keeps (HasIds ids) _ (defer-HasIds ids n.id))
          (λ deferred. after_change-HasIds ids before (some x) deferred b))

  lock_and_send-HasIds :
      (ids : List ℕ) (begun : Attempted (Unit {0}))
      → ((email : Text) → Fails (send email))
      → ((email : Text) → Keeps (HasIds ids) (send email))
      → Keeps (HasIds ids) (lock_and_send send begun)
  unfolding lock_and_send lock_next_password_change_notice
  lock_and_send-HasIds ids (error x) never keeps = λ e w p. p
  lock_and_send-HasIds ids (value u) never keeps = tables-Keeps (HasIds ids) _ (λ before b.
      bind-Keeps (HasIds ids) _ _ (attempt-Keeps (HasIds ids) _ (query-Keeps (HasIds ids) _))
        (λ locked. send_locked-HasIds ids before locked never keeps b))

-- While every send fails and leaves the notices, the table has the same notices after a try as
-- before, whichever of the statements fail.
pub with_next_password_change_notice-keeps :
    (send : Text → M (Unit {0})) (e : Env) (w : World)
    → ((email : Text) (e : Env) (w : World)
        → (x : Err) × (v : World) × (send email e w ≡ err x v) × (v.db.notices ≡ w.db.notices))
    → map (λ n. n.id) ((world_of (with_next_password_change_notice send e w)).db.notices)
      ≡ map (λ n. n.id) w.db.notices
unfolding with_next_password_change_notice
with_next_password_change_notice-keeps send e w failing =
    let ids = notice_ids w.db in
    bind-Keeps (HasIds ids) _ _ (attempt-Keeps (HasIds ids) _ (plain-HasIds ids))
      (λ begun.
        lock_and_send-HasIds send ids begun
          (λ email e w. let (x, v, r, n) = failing email e w in (x, v, r))
          (λ email e w p.
            let (x, v, r, n) = failing email e w in
            subst (λ o. HasIds ids ((world_of o).db)) (sym r) (ap (map (λ n. n.id)) n ∙ p)))
      e w refl
