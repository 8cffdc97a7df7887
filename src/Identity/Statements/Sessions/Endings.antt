-- ===== src/Identity/Statements/Sessions/Endings.antt =====
-- Sessions that end and tokens that were used (services/identity/db/queries/sessions.sql).
use flowspace_api.Base.{
  ℕ, ◌≤◌, false, ◌≡◌, ◌≢◌, refl, ◌&&◌, Option, none, some, update, find, any, Text, text_eq,
  is_none, arith, ap, ◌∙◌, count-update_zero, count_zero→find, count_zero→any, text_eq-false,
}
use flowspace_api.Identity.Database.{Database, Session, Account}
use flowspace_api.Identity.Run.{Env, World, ok, statement}
use flowspace_api.Identity.Run.Laws.{exec-ok, query-ok}
use flowspace_api.Identity.Statements.Sessions.{
  is_live_session, revoke, find_session_account, get_active_session_state, revoke_account_sessions,
  is_rotatable, rotated, rotate_in, rotate_current_refresh_token,
}

find_session_account_ended :
    (subject : Text) (id now : ℕ) (d : Database)
    → any (is_live_session subject id now) d.sessions ≡ false
    → find_session_account subject id now d ≡ none
unfolding find_session_account
find_session_account_ended subject id now d h = rw (h, find_session_account) refl

-- When all sessions of an account end, no session of it answers for the account, whatever its id
-- and whatever the time of the check.
pub revoke_account_sessions-final :
    (e : Env) (w v u : World) (subject : Text) (id n : ℕ) (found : Option Account)
    → revoke_account_sessions subject e w ≡ ok n v
    → get_active_session_state subject id e v ≡ ok found u
    → found ≡ none
unfolding revoke_account_sessions get_active_session_state find_session_account
revoke_account_sessions-final e w v u subject id n found h k =
    let (a, b) = exec-ok _ e w h in
    let (c, d) = query-ok _ e v k in
    let gone = count_zero→any (is_live_session subject id (e.statement_timestamp v.step)) _ (
      count-update_zero (is_live_session subject id (e.statement_timestamp v.step))
        (λ s. text_eq s.account_subject subject && is_none s.revoked_at)
        (revoke (e.statement_timestamp w.step)) (w.db.sessions) (λ x g. ground arith)
        (λ x g. ground (arith))) in
    c
    ∙ find_session_account_ended subject id (e.statement_timestamp v.step) v.db (
        ap (λ x. any (is_live_session subject id (e.statement_timestamp v.step)) x.db.sessions) b
        ∙ gone)

sessions_after :
    (e : Env) (w v : World) (id : ℕ) (old new : Text) (first : Session × ℕ)
    → rotate_current_refresh_token new id old e w ≡ ok (some first) v
    → v.db.sessions
      ≡ update
          (is_rotatable id old (e.statement_timestamp w.step))
          (rotated new (e.statement_timestamp w.step))
          w.db.sessions
unfolding rotate_current_refresh_token rotate_in statement
sessions_after e w v id old new first h = ground arith

no_session_rotates :
    (e : Env) (w v : World) (id : ℕ) (old new : Text) (found : Option (Session × ℕ))
    → find (is_rotatable id old (e.statement_timestamp w.step)) w.db.sessions ≡ none
    → rotate_current_refresh_token new id old e w ≡ ok found v
    → found ≡ none
unfolding rotate_current_refresh_token rotate_in statement
no_session_rotates e w v id old new found n h = ground arith

-- A rotation to another token ends the use of the old one: the statement that runs next on the same
-- session with the old token, at a time that is not earlier, finds none to rotate.
rotate_current_refresh_token-once :
    (e : Env) (w v u : World) (id : ℕ) (old new other : Text) (first : Session × ℕ)
    (second : Option (Session × ℕ))
    → new ≢ old
    → rotate_current_refresh_token new id old e w ≡ ok (some first) v
    → e.statement_timestamp w.step ≤ e.statement_timestamp v.step
    → rotate_current_refresh_token other id old e v ≡ ok second u
    → second ≡ none
unfolding rotate_current_refresh_token rotate_in statement
rotate_current_refresh_token-once e w v u id old new other first second ne h t k =
    let gone = count_zero→find (is_rotatable id old (e.statement_timestamp v.step)) _ (
      count-update_zero (is_rotatable id old (e.statement_timestamp v.step))
        (is_rotatable id old (e.statement_timestamp w.step))
        (rotated new (e.statement_timestamp w.step)) (w.db.sessions)
        (λ x g. ground (arith, text_eq-false new old ne)) (λ x g. ground (arith, t))) in
    no_session_rotates e v u id old other second
      (ap (find (is_rotatable id old (e.statement_timestamp v.step)))
          (sessions_after e w v id old new first h)
        ∙ gone)
      k
