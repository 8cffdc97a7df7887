-- ===== src/Identity/App/Reauthentication/Proofs.antt =====
-- What a proof of identity and the guard ask for
-- (services/identity/internal/app/password_reauthentication_service.go and
-- reauthentication_guard.go).
use flowspace_api.Base.{
  ℕ, Bool, true, false, not, ◌≡◌, refl, Option, none, some, Text, arith, sym, ap, ◌∙◌, subst,
  if◌then◌else◌,
}
use flowspace_api.Identity.Run.{Env, World, M, ok, pure, fail, Attempted, value, error}
use flowspace_api.Identity.Run.Laws.{bind-ok, refuse_if-ok, map_err-ok, attempt-value}
use flowspace_api.Identity.Domain.Password.{verify_password}
use flowspace_api.Identity.Domain.Reauthentication.{ReauthenticationWindow, expires_at, is_open}
use flowspace_api.Identity.Repository.Transactions.{sooner, require_commit_before}
use flowspace_api.Identity.Repository.Accounts.{
  AccountState, PasswordAccount, get_active_account_for_session, lock_password_account,
}
use flowspace_api.Identity.Repository.Sessions.{lock_session_for_reauthentication}
use flowspace_api.Identity.App.Ports.{take_hash_slot}
use flowspace_api.Identity.Errors.{is, unauthenticated}
use flowspace_api.Identity.App.Reauthentication.{
  reauthenticate_unless, credentials_or, require_reauthentication, prove_password, check_password,
  refuse_unmatched, ReauthenticateWithPasswordInput, stored_hash, session_reauthentication_deadline,
}

pub require_commit_before-ok :
    (deadline : ℕ) (e : Env) (w v : World) {u : Unit {0}}
    → require_commit_before deadline e w ≡ ok u v
    → v.transaction.reauthentication_deadline
      ≡ sooner w.transaction.reauthentication_deadline deadline
unfolding require_commit_before
require_commit_before-ok deadline e w v h = ground arith

not-false : (b : Bool) → not b ≡ false → b ≡ true
not-false b h = ground arith

-- The guard lets a transaction go on only if the window that it read of the live session was open at
-- the time that was read with it, and then the transaction's deadline is the sooner of the one that
-- it had after that and the end of that window.
pub require_reauthentication-is_open :
    (has_transaction : Bool) (subject session_id : Text) (e : Env) (w v : World) (u : Unit {0})
    → require_reauthentication has_transaction subject session_id e w ≡ ok u v
    → (window : ReauthenticationWindow) × (now : ℕ) × (read : World)
      × (lock_session_for_reauthentication subject session_id e w ≡ ok (window, now) read)
      × (is_open window now ≡ true)
      × (v.transaction.reauthentication_deadline
          ≡ sooner read.transaction.reauthentication_deadline (expires_at window))
unfolding require_reauthentication
require_reauthentication-is_open has_transaction subject session_id e w v u h =
    let (a, w1, r1, h1) = bind-ok _ _ e w h in
    let (b, w2, r2, h2) = bind-ok _ _ e w1 h1 in
    let ((window, now), w3, r3, h3) = bind-ok _ _ e w2 h2 in
    let (c, w4, r4, h4) = bind-ok _ _ e w3 h3 in
    let same = (refuse_if-ok _ _ e w1 r2).1 ∙ (refuse_if-ok _ _ e w r1).1 in
    let (open_now, kept) = refuse_if-ok _ _ e w3 r4 in
    (
      window,
      now,
      w3,
      subst (λ x. lock_session_for_reauthentication subject session_id e x ≡ ok (window, now) w3)
          same (map_err-ok _ _ e w2 r3),
      not-false (is_open window now) open_now,
      subst
          (λ x.
            v.transaction.reauthentication_deadline
            ≡ sooner x.transaction.reauthentication_deadline (expires_at window))
          kept (require_commit_before-ok (expires_at window) e w4 v h4),
    )

refuse_unmatched-ok :
    (credentials : Option PasswordAccount) (matched : Bool) (e : Env) (w v : World) (u : Unit {0})
    → refuse_unmatched credentials matched e w ≡ ok u v
    → (account : PasswordAccount) × (credentials ≡ some account) × (matched ≡ true) × (v ≡ w)
unfolding refuse_unmatched
refuse_unmatched-ok none matched e w v u h = absurd (ground arith)
refuse_unmatched-ok (some account) matched e w v u h =
    let (refused, same) = refuse_if-ok _ _ e w h in (account, refl, not-false matched refused, same)

credentials_or-some :
    (attempted : Attempted PasswordAccount) (account : PasswordAccount) (e : Env) (w v : World)
    → credentials_or attempted e w ≡ ok (some account) v
    → (attempted ≡ value account) × (v ≡ w)
unfolding credentials_or
credentials_or-some (value found) account e w v h = (ground arith, ground arith)
credentials_or-some (error x) account e w v h = absurd (none_found (is x unauthenticated) h)
  where
    none_found : (b : Bool) → (if b then pure none else fail x) e w ≡ ok (some account) v → ⊥
    none_found true k = ground arith
    none_found false k = ground arith

-- The stored hash of the subject's account, read first, accepted the password.
abbrev pub Matches : Text → Text → Env → World → World → Type 0
Matches subject password e w v =
    (account : PasswordAccount) × (read slot : World) × (lock_password_account subject e w
      ≡ ok account read)
    × (take_hash_slot e read ≡ ok tt slot)
    × (verify_password password account.password_hash e slot ≡ ok true v)

check_password-matched :
    (subject password : Text) (e : Env) (w v : World) (u : Unit {0})
    → check_password subject password e w ≡ ok u v
    → Matches subject password e w v
unfolding check_password
check_password-matched subject password e w v u h =
    let (attempted, w1, r1, h1) = bind-ok _ _ e w h in
    let (credentials, w2, r2, h2) = bind-ok _ _ e w1 h1 in
    let (slot, w3, r3, h3) = bind-ok _ _ e w2 h2 in
    let (matched, w4, r4, h4) = bind-ok _ _ e w3 h3 in
    let (account, same, true_match, last) = refuse_unmatched-ok credentials matched e w4 v u h4 in
    let (given, kept) =
      credentials_or-some attempted account e w1 w2 (r2 ∙ ap (λ o. ok o w2) same) in
    (
      account,
      w1,
      w3,
      attempt-value (lock_password_account subject) e w (r1 ∙ ap (λ x. ok x w1) given),
      subst (λ x. take_hash_slot e x ≡ ok tt w3) kept r3,
      ap (λ o. verify_password password (stored_hash o) e w3) (sym same)
          ∙ (r4 ∙ (ap (λ b. ok b w4) true_match ∙ ap (ok true) (sym last))),
    )

-- A proof by password ends well only if, after the session and its account were read and the limit
-- was passed, the password matched the stored hash of the subject's account as it was read then;
-- the window is read next, a closed one is marked for a new proof time, and the deadline of the
-- transaction is the sooner of the one that it had then and the end of the session.
pub prove_password-matched :
    (limit : Text → Text → M (Unit {0})) (input : ReauthenticateWithPasswordInput) (password : Text)
    (e : Env) (w v : World) (u : Unit {0})
    → prove_password limit input password e w ≡ ok u v
    → (locked window : ReauthenticationWindow) × (before now : ℕ) × (account : AccountState) × (w1
        w2 w3 w4 w5 w6 : World)
      × (lock_session_for_reauthentication input.subject input.session_id e w
          ≡ ok (locked, before) w1)
      × (get_active_account_for_session input.subject input.session_id e w1 ≡ ok account w2)
      × (limit input.source account.email e w2 ≡ ok tt w3)
      × Matches input.subject password e w3 w4
      × (lock_session_for_reauthentication input.subject input.session_id e w4
          ≡ ok (window, now) w5)
      × (reauthenticate_unless (is_open window now) input.subject input.session_id e w5 ≡ ok tt w6)
      × (v.transaction.reauthentication_deadline
          ≡ sooner w6.transaction.reauthentication_deadline
              (session_reauthentication_deadline window))
unfolding prove_password
prove_password-matched limit input password e w v u h =
    let ((locked, before), w1, r1, h1) = bind-ok _ _ e w h in
    let (account, w2, r2, h2) = bind-ok _ _ e w1 h1 in
    let (limited, w3, r3, h3) = bind-ok _ _ e w2 h2 in
    let (checked, w4, r4, h4) = bind-ok _ _ e w3 h3 in
    let ((window, now), w5, r5, h5) = bind-ok _ _ e w4 h4 in
    let (opened, w6, r6, h6) = bind-ok _ _ e w5 h5 in
    (
      locked,
      window,
      before,
      now,
      account,
      w1,
      w2,
      w3,
      w4,
      w5,
      w6,
      r1,
      r2,
      r3,
      check_password-matched input.subject password e w3 w4 checked r4,
      r5,
      r6,
      require_commit_before-ok (session_reauthentication_deadline window) e w6 v h6,
    )
