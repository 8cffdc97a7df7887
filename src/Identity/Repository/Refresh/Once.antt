-- ===== src/Identity/Repository/Refresh/Once.antt =====
-- Used refresh tokens
-- (services/identity/internal/adapter/out/postgres/session_refresh_repository.go).
use flowspace_api.Base.{
  ℕ, ◌≡◌, ◌≢◌, refl, Bool, true, false, not, Option, none, some, ◌∷◌, any, Text, text_eq,
  text_eq_refl, arith, sym, ap, subst, ◌∙◌, if◌then◌else◌,
}
use flowspace_api.Identity.Errors.{Err}
use flowspace_api.Identity.Database.{Database, Session}
use flowspace_api.Identity.Run.{Env, World, M, ok, statement}
use flowspace_api.Identity.Run.Laws.{bind-ok, asks-ok, pure-ok, query-ok, refuse_if-ok, world_of}
use flowspace_api.Identity.Run.Keeps.{Keeps}
use flowspace_api.Identity.Statements.Accounts
use flowspace_api.Identity.Statements.Sessions
use flowspace_api.Identity.Statements.Sessions.{RefreshRow, rotate_in}
use flowspace_api.Identity.Repository.Transactions.{row_or}
use flowspace_api.Identity.Repository.Transactions.Atomic.{begun, within_transaction-ok}
use flowspace_api.Identity.Repository.Refresh.{
  RefreshSessionRecord, lock_refresh_account, end_replayed, rotate_current, rotate_work, rotate,
}

-- The hash is recorded as that of a token that was rotated.
abbrev pub IsUsed : Text → Database → Type 0
IsUsed token_hash d = any (λ t. text_eq t.token_hash token_hash) d.rotated_tokens ≡ true

record_rotated_refresh_token-ok :
    (token_hash : Text) (id : ℕ) (e : Env) (w v : World) (u : Unit {0})
    → Sessions.record_rotated_refresh_token token_hash id e w ≡ ok u v
    → (any (λ t. text_eq t.token_hash token_hash) w.db.rotated_tokens ≡ false)
      × (v.db.rotated_tokens
          ≡ record { token_hash = token_hash; session_id = id } ∷ w.db.rotated_tokens)
unfolding Sessions.record_rotated_refresh_token statement
record_rotated_refresh_token-ok token_hash id e w v u h = ground arith

record_rotated_refresh_token-IsUsed :
    (token_hash : Text) (id : ℕ) (e : Env) (w v : World) (u : Unit {0})
    → Sessions.record_rotated_refresh_token token_hash id e w ≡ ok u v
    → IsUsed token_hash v.db
record_rotated_refresh_token-IsUsed token_hash id e w v u h =
    ap (any (λ t. text_eq t.token_hash token_hash))
      (record_rotated_refresh_token-ok token_hash id e w v u h).1
    ∙ rw (text_eq_refl token_hash) refl

record_rotated_refresh_token-new :
    (token_hash : Text) (id : ℕ) (e : Env) (w v : World) (u : Unit {0})
    → IsUsed token_hash w.db
    → Sessions.record_rotated_refresh_token token_hash id e w ≢ ok u v
record_rotated_refresh_token-new token_hash id e w v u used h =
    true_not_false (sym used ∙ (record_rotated_refresh_token-ok token_hash id e w v u h).0)
  where
    true_not_false : true ≢ false
    true_not_false k = ground arith

rotate_current_refresh_token-tokens :
    (new_hash old_hash : Text) (id : ℕ) (e : Env) (w v : World) (found : Option (Session × ℕ))
    → Sessions.rotate_current_refresh_token new_hash id old_hash e w ≡ ok found v
    → v.db.rotated_tokens ≡ w.db.rotated_tokens
unfolding Sessions.rotate_current_refresh_token rotate_in statement
rotate_current_refresh_token-tokens new_hash old_hash id e w v found h = ground arith

row_or-world :
    {A : Type 0} (x : Err) (o : Option A) (e : Env) (w v : World) (a : A)
    → row_or x o e w ≡ ok a v
    → v ≡ w
unfolding row_or
row_or-world x none e w v a h = absurd (ground arith)
row_or-world x (some b) e w v a h = sym (pure-ok h).1

module _ {A : Type 0} (old_hash new_hash : Text) (issue : RefreshSessionRecord → M A)
    (e : Env) where
  rotate_current-IsUsed :
      (session : RefreshRow) (id : ℕ) (w v : World) (a : Option A)
      → ((r : RefreshSessionRecord) → Keeps (IsUsed old_hash) (issue r))
      → rotate_current session id old_hash new_hash issue e w ≡ ok a v
      → IsUsed old_hash v.db
  unfolding rotate_current
  rotate_current-IsUsed session id w v a kept h =
      let (u, w1, r1, h1) = bind-ok _ _ e w h in
      let (found, w2, r2, h2) = bind-ok _ _ e w1 h1 in
      let (row, w3, r3, h3) = bind-ok _ _ e w2 h2 in
      let (text, w4, r4, h4) = bind-ok _ _ e w3 h3 in
      let (issued, w5, r5, h5) = bind-ok _ _ e w4 h4 in
      let used1 = record_rotated_refresh_token-IsUsed old_hash id e w w1 u r1 in
      let same =
        ap (λ x. x.db.rotated_tokens) (asks-ok _ e w3 r4).1
        ∙ (ap (λ x. x.db.rotated_tokens) (row_or-world _ found e w2 w3 row r3)
            ∙ rotate_current_refresh_token-tokens new_hash old_hash id e w1 w2 found r2) in
      let used4 = ap (any (λ t. text_eq t.token_hash old_hash)) same ∙ used1 in
      let used5 = subst (λ o. IsUsed old_hash (world_of o).db) r5 (kept _ e w4 used4) in
      subst (λ x. IsUsed old_hash x.db) (pure-ok h5).1 used5

  rotate_current-new :
      (session : RefreshRow) (id : ℕ) (w v : World) (a : Option A)
      → IsUsed old_hash w.db
      → rotate_current session id old_hash new_hash issue e w ≢ ok a v
  unfolding rotate_current
  rotate_current-new session id w v a used h =
      let (u, w1, r1, h1) = bind-ok _ _ e w h in
      record_rotated_refresh_token-new old_hash id e w w1 u used r1

  -- What is done with the session that is found.
  abbrev settle_found : RefreshRow → ℕ → Bool → M (Option A)
  settle_found session id replayed =
      if replayed then end_replayed id else rotate_current session id old_hash new_hash issue

  settle_found-some :
      (session : RefreshRow) (id : ℕ) (replayed : Bool) (w v : World) (a : A)
      → settle_found session id replayed e w ≡ ok (some a) v
      → rotate_current session id old_hash new_hash issue e w ≡ ok (some a) v
  unfolding end_replayed
  settle_found-some session id true w v a h =
      let (n, w1, r1, h1) = bind-ok _ _ e w h in absurd (none_found (pure-ok h1).0)
    where
      none_found : ◌≡◌ {A = Option A} none (some a) → ⊥
      none_found k = ground arith
  settle_found-some session id false w v a h = h

  lock_refresh_account-db :
      (id : ℕ) (w v : World) (u : Unit {0}) → lock_refresh_account id e w ≡ ok u v → v.db ≡ w.db
  unfolding lock_refresh_account Sessions.get_refresh_session_subject
      Accounts.get_active_account_for_update
  lock_refresh_account-db id w v u h =
      let (found, w1, r1, h1) = bind-ok _ _ e w h in
      let (subject, w2, r2, h2) = bind-ok _ _ e w1 h1 in
      let (account, w3, r3, h3) = bind-ok _ _ e w2 h2 in
      let (locked, w4, r4, h4) = bind-ok _ _ e w3 h3 in
      ap (λ x. x.db) (sym (pure-ok h4).1)
      ∙ (ap (λ x. x.db) (row_or-world _ account e w3 w4 locked r4)
          ∙ (ap (λ x. x.db) (query-ok _ e w2 r3).1
              ∙ (ap (λ x. x.db) (row_or-world _ found e w1 w2 subject r2)
                  ∙ ap (λ x. x.db) (query-ok _ e w r1).1)))

  -- A rotation that ends well ran `rotate_current` on the tables that it found.
  rotate_work-rotates :
      (w v : World) (a : A)
      → rotate_work old_hash new_hash issue e w ≡ ok (some a) v
      → (session : RefreshRow) × (id : ℕ) × (u : World) × (u.db ≡ w.db)
        × (rotate_current session id old_hash new_hash issue e u ≡ ok (some a) v)
  unfolding rotate_work Sessions.find_refresh_session Sessions.get_refresh_session_for_update
  rotate_work-rotates w v a h =
      let (found, w1, r1, h1) = bind-ok _ _ e w h in
      let (id, w2, r2, h2) = bind-ok _ _ e w1 h1 in
      let (u, w3, r3, h3) = bind-ok _ _ e w2 h2 in
      let (row, w4, r4, h4) = bind-ok _ _ e w3 h3 in
      let (session, w5, r5, h5) = bind-ok _ _ e w4 h4 in
      let (active, w6, r6, h6) = bind-ok _ _ e w5 h5 in
      (
        session,
        id,
        w6,
        ap (λ x. x.db) (refuse_if-ok _ _ e w5 r6).1
            ∙ (ap (λ x. x.db) (row_or-world _ row e w4 w5 session r5)
                ∙ (ap (λ x. x.db) (query-ok _ e w3 r4).1
                    ∙ (lock_refresh_account-db id w2 w3 u r3
                        ∙ (ap (λ x. x.db) (row_or-world _ found e w1 w2 id r2)
                            ∙ ap (λ x. x.db) (query-ok _ e w r1).1)))),
        settle_found-some session id (not (text_eq session.refresh_token_hash old_hash)) w6 v a h6,
      )

-- A refresh token is rotated once. When a rotation of it ended well, whose `issue` leaves the used
-- tokens, no rotation of the same token ends well in any later world whose tables still have that
-- token among the used ones, whatever token it had or gets by then.
pub rotate-once :
    {A B : Type 0} (old_hash new_hash other_hash : Text) (issue : RefreshSessionRecord → M A)
    (reissue : RefreshSessionRecord → M B) (e e' : Env) (w v later last : World) (a : A) (b : B)
    → ((r : RefreshSessionRecord) → Keeps (IsUsed old_hash) (issue r))
    → rotate_work old_hash new_hash issue e w ≡ ok (some a) v
    → (IsUsed old_hash v.db → IsUsed old_hash later.db)
    → rotate old_hash other_hash reissue e' later ≢ ok (some b) last
unfolding rotate
rotate-once old_hash new_hash other_hash issue reissue e e' w v later last a b kept h still k =
    let (session, id, w1, same, run) = rotate_work-rotates old_hash new_hash issue e w v a h in
    let used = rotate_current-IsUsed old_hash new_hash issue e session id w1 v (some a) kept run in
    let (after, work) =
      within_transaction-ok (rotate_work old_hash other_hash reissue) e' later last k in
    let (session', id', w2, same', run') =
      rotate_work-rotates old_hash other_hash reissue e' (begun later) after b work in
    rotate_current-new old_hash other_hash reissue e' session' id' w2 after (some b)
      (subst (IsUsed old_hash) (sym same') (still used)) run'
