-- ===== src/Identity/App/CodeReauthentication/Accepted.antt =====
-- What a proof by code asks for (services/identity/internal/app/code_reauthentication_service.go).
use flowspace_api.Base.{
  ℕ, suc, ◌<◌, ◌≤◌, Bool, true, false, not, ◌||◌, ◌≡◌, ◌≢◌, refl, Option, none, some, Text, arith,
  sym, ap, ◌∙◌, if◌then◌else◌, subst, is_none,
}
use flowspace_api.Identity.Run.{Env, World, M, ok, pure, ◌>>=◌}
use flowspace_api.Identity.Run.Laws.{bind-ok, pure-ok, asks-ok, map_err-ok, refuse_if-ok}
use flowspace_api.Identity.Domain.Challenge.{
  Challenge, CodeCheck, code_accepted, code_wrong_guess, code_rejected, check,
  purpose_reauthenticate,
}
use flowspace_api.Identity.Domain.Challenge.Rules.{check-accepted}
use flowspace_api.Identity.Domain.Code.{valid_verification_code}
use flowspace_api.Identity.Domain.Reauthentication.{ReauthenticationWindow, is_open}
use flowspace_api.Identity.Repository.Transactions.{sooner, commit_transaction}
use flowspace_api.Identity.Repository.Transactions.Atomic.{
  begun, within_reauthentication_transaction-commits,
}
use flowspace_api.Identity.Repository.Transactions.Deadline.{commit_transaction-before}
use flowspace_api.Identity.Repository.Challenges.{get_current_challenge, consume_challenge}
use flowspace_api.Identity.App.Reauthentication.{
  open_window, session_reauthentication_deadline, reauthenticate_unless,
}
use flowspace_api.Identity.App.Ports.{limit_by}
use flowspace_api.Identity.Repository.Sessions.{lock_session_for_reauthentication}
use flowspace_api.Identity.Repository.Accounts.{AccountState, get_active_account_for_session}
use flowspace_api.Identity.App.CodeReauthentication.{
  CodeReauthenticationService, ReauthenticateWithCodeInput, apply_code_check, verify_code,
  check_code, open_with_consumed, open_with_challenge, prove_code, prove_code_in_transaction,
  reauthenticate_with_code,
}
use flowspace_api.Identity.App.Reauthentication.Proofs.{require_commit_before-ok}

some_inj : {A : Type 0} {a b : A} → some a ≡ some b → a ≡ b
some_inj h = ground arith

-- The session and its account were read, the two limits were passed, and the current challenge, read
-- next, accepted the code for the account's address at the time read with the session.
abbrev pub Accepts :
    CodeReauthenticationService
    → ReauthenticateWithCodeInput
    → Env
    → World
    → Challenge
    → World
    → Type 0
Accepts s input e w c v =
    (locked : ReauthenticationWindow) × (now : ℕ) × (account : AccountState) × (w1 w2 w3 w4 : World)
    × (lock_session_for_reauthentication input.subject input.session_id e w ≡ ok (locked, now) w1)
    × (get_active_account_for_session input.subject input.session_id e w1 ≡ ok account w2)
    × (limit_by s.guess_source_limit input.source e w2 ≡ ok tt w3)
    × (limit_by s.guess_account_limit input.subject e w3 ≡ ok tt w4)
    × (get_current_challenge input.subject purpose_reauthenticate e w4 ≡ ok (some c) v)
    × (check e c s.verifier_key input.subject account.email purpose_reauthenticate input.code now
        ≡ code_accepted)

apply_code_check-some :
    (c d : Challenge) (checked : CodeCheck) (e : Env) (w v : World)
    → apply_code_check c checked e w ≡ ok (some d) v
    → (checked ≡ code_accepted) × (c ≡ d) × (w ≡ v)
unfolding apply_code_check
apply_code_check-some c d code_accepted e w v h = (refl, some_inj (pure-ok h).0, (pure-ok h).1)
apply_code_check-some c d code_rejected e w v h = absurd (ground arith)
apply_code_check-some c d code_wrong_guess e w v h =
    let (u, w1, r1, h1) = bind-ok _ _ e w h in let same = (pure-ok h1).0 in absurd (ground arith)

verify_code-some :
    (key : Text) (input : ReauthenticateWithCodeInput) (email : Text) (found : Option Challenge)
    (now : ℕ) (d : Challenge) (e : Env) (w v : World)
    → verify_code key input email found now e w ≡ ok (some d) v
    → (found ≡ some d)
      × (w ≡ v)
      × (check e d key input.subject email purpose_reauthenticate input.code now ≡ code_accepted)
unfolding verify_code
verify_code-some key input email none now d e w v h = absurd (ground arith)
verify_code-some key input email (some c) now d e w v h =
    let (checked, w1, r1, h1) = bind-ok _ _ e w h in
    let (accepted, same, last) = apply_code_check-some c d checked e w1 v h1 in
    let (gives, kept) = asks-ok _ e w r1 in
    (
      ap some same,
      sym kept ∙ last,
      subst
          (λ x.
            check e x key input.subject email purpose_reauthenticate input.code now ≡ code_accepted)
          same (sym gives ∙ accepted),
    )

-- What `check_code` does after its limits.
abbrev rest_of_check :
    CodeReauthenticationService
    → ReauthenticateWithCodeInput
    → Text
    → ℕ
    → Bool
    → M (Option Challenge)
rest_of_check s input email now refused = if refused then pure none else do
  found ← get_current_challenge input.subject purpose_reauthenticate
  verify_code s.verifier_key input email found now

rest_of_check-some :
    (s : CodeReauthenticationService) (input : ReauthenticateWithCodeInput) (email : Text) (now : ℕ)
    (refused : Bool) (d : Challenge) (e : Env) (w v : World)
    → rest_of_check s input email now refused e w ≡ ok (some d) v
    → (get_current_challenge input.subject purpose_reauthenticate e w ≡ ok (some d) v)
      × (check e d s.verifier_key input.subject email purpose_reauthenticate input.code now
          ≡ code_accepted)
rest_of_check-some s input email now true d e w v h = absurd (ground arith)
rest_of_check-some s input email now false d e w v h =
    let (found, w1, r1, h1) = bind-ok _ _ e w h in
    let (same, last, accepted) =
      verify_code-some s.verifier_key input email found now d e w1 v h1 in
    (r1 ∙ (ap (λ o. ok o w1) same ∙ ap (ok (some d)) last), accepted)

check_code-some :
    (s : CodeReauthenticationService) (input : ReauthenticateWithCodeInput) (d : Challenge)
    (e : Env) (w v : World)
    → check_code s input e w ≡ ok (some d) v
    → Accepts s input e w d v
unfolding check_code
check_code-some s input d e w v h =
    let ((window, now), w1, r1, h1) = bind-ok _ _ e w h in
    let (account, w2, r2, h2) = bind-ok _ _ e w1 h1 in
    let (source, w3, r3, h3) = bind-ok _ _ e w2 h2 in
    let (limited, w4, r4, h4) = bind-ok _ _ e w3 h3 in
    let (current, accepted) =
      rest_of_check-some s input account.email now
        (not account.email_verified || not (valid_verification_code input.code)) d e w4 v h4 in
    (window, now, account, w1, w2, w3, w4, r1, r2, r3, r4, current, accepted)

-- The window was read, a closed one was marked for a new proof time, and the deadline of the
-- transaction became the sooner of the one that it had then and the end of the session.
abbrev pub Opened : Text → Text → Env → World → ReauthenticationWindow → World → World → Type 0
Opened subject session_id e w window marked v =
    (now : ℕ) × (read : World) × (lock_session_for_reauthentication subject session_id e w
      ≡ ok (window, now) read)
    × (reauthenticate_unless (is_open window now) subject session_id e read ≡ ok tt marked)
    × (v.transaction.reauthentication_deadline
        ≡ sooner marked.transaction.reauthentication_deadline
            (session_reauthentication_deadline window))

pub open_window-Opened :
    (subject session_id : Text) (e : Env) (w v : World) (t : ℕ)
    → open_window subject session_id e w ≡ ok t v
    → (window : ReauthenticationWindow) × (marked : World) × (t
        ≡ session_reauthentication_deadline window)
      × Opened subject session_id e w window marked v
unfolding open_window
open_window-Opened subject session_id e w v t h =
    let ((window, now), w1, r1, h1) = bind-ok _ _ e w h in
    let (opened, w2, r2, h2) = bind-ok _ _ e w1 h1 in
    let (set, w3, r3, h3) = bind-ok _ _ e w2 h2 in
    let (same, last) = pure-ok h3 in
    (
      window,
      w2,
      sym same,
      (
        now,
        w1,
        r1,
        r2,
        subst
            (λ x.
              x.transaction.reauthentication_deadline
              ≡ sooner w2.transaction.reauthentication_deadline
                  (session_reauthentication_deadline window))
            last (require_commit_before-ok _ e w2 w3 r3),
      ),
    )

-- The work that opens the window: the challenge that accepted the code was consumed, the window was
-- opened, and the expiry of the challenge is the last deadline.
abbrev pub Opens :
    CodeReauthenticationService
    → ReauthenticateWithCodeInput
    → Env
    → World
    → World
    → Challenge
    → ReauthenticationWindow
    → World
    → Type 0
Opens s input e w v c window marked =
    (w1 w2 w3 : World) × Accepts s input e w c w1
    × (consume_challenge c.id e w1 ≡ ok true w2)
    × Opened input.subject input.session_id e w2 window marked w3
    × (v.transaction.reauthentication_deadline
        ≡ sooner
            (sooner marked.transaction.reauthentication_deadline
              (session_reauthentication_deadline window))
            c.expires_at)

open_with_consumed-some :
    (s : CodeReauthenticationService) (input : ReauthenticateWithCodeInput) (c : Challenge)
    (consumed : Bool) (e : Env) (before w1 w v : World) (expiries : ℕ × ℕ)
    → Accepts s input e before c w1
    → consume_challenge c.id e w1 ≡ ok consumed w
    → open_with_consumed input c consumed e w ≡ ok (some expiries) v
    → (window : ReauthenticationWindow) × (marked : World) × Opens s input e before v c window
        marked
unfolding open_with_consumed
open_with_consumed-some s input c false e before w1 w v expiries a r h = absurd (ground arith)
open_with_consumed-some s input c true e before w1 w v expiries a r h =
    let (t, w2, r2, h2) = bind-ok _ _ e w h in
    let (set, w3, r3, h3) = bind-ok _ _ e w2 h2 in
    let (window, marked, ends, (now, read, lock, mark, held)) =
      open_window-Opened input.subject input.session_id e w w2 t r2 in
    (
      window,
      marked,
      (
        w1,
        w,
        w2,
        a,
        r,
        (now, read, lock, mark, held),
        ap (λ x. x.transaction.reauthentication_deadline) (sym (pure-ok h3).1)
            ∙ (require_commit_before-ok c.expires_at e w2 w3 r3
                ∙ ap (λ x. sooner x c.expires_at) held),
      ),
    )

prove_code-some :
    (s : CodeReauthenticationService) (input : ReauthenticateWithCodeInput) (e : Env) (w v : World)
    (expiries : ℕ × ℕ)
    → prove_code s input e w ≡ ok (some expiries) v
    → (c : Challenge) × (window : ReauthenticationWindow) × (marked : World) × Opens s input e w v c
        window marked
unfolding prove_code open_with_challenge
prove_code-some s input e w v expiries h =
    let (found, w1, r1, h1) = bind-ok _ _ e w h in with_found found w1 r1 h1
  where
    with_found :
        (found : Option Challenge) (w1 : World)
        → check_code s input e w ≡ ok found w1
        → open_with_challenge input found e w1 ≡ ok (some expiries) v
        → (c : Challenge) × (window : ReauthenticationWindow) × (marked : World) × Opens s input e w
            v c window marked
    with_found none w1 r k = absurd (ground arith)
    with_found (some c) w1 r k =
        let (consumed, w2, r2, h2) = bind-ok _ _ e w1 k in
        let (window, marked, opens) =
          open_with_consumed-some s input c consumed e w w1 w2 v expiries
            (check_code-some s input c e w w1 r) r2 h2 in
        (c, window, marked, opens)

-- A deadline that is set last is kept, or a sooner one.
sooner-within :
    (held deadline : ℕ)
    → deadline ≢ 0
    → (sooner held deadline ≢ 0) × (sooner held deadline ≤ deadline)
unfolding sooner
sooner-within held deadline d = ground (arith, d)

lt_of_lt_of_le : {a b c : ℕ} → a < b → b ≤ c → a < c
lt_of_lt_of_le h k = omega arith

accepted-later :
    (e : Env) (c : Challenge) (key subject email purpose code : Text) (now : ℕ)
    → check e c key subject email purpose code now ≡ code_accepted
    → c.expires_at ≢ 0
accepted-later e c key subject email purpose code now h =
    let before = ((check-accepted e c key subject email purpose code now).0 h).2 in
    λ z. absurd (omega arith)

-- The work of the transaction, which starts in the first world and ends in the second, opened the
-- window, and the last statement of its commit ran in time.
abbrev pub InTime :
    CodeReauthenticationService → ReauthenticateWithCodeInput → Env → World → World → World → Type 0
InTime s input e w after last =
    (c : Challenge) × (window : ReauthenticationWindow) × (marked : World) × Opens s input e w after
      c window marked
    × (step : ℕ) × (last.step ≡ suc step)
    × (e.statement_timestamp step < c.expires_at)
    × (e.statement_timestamp step
        < sooner
            (sooner marked.transaction.reauthentication_deadline
              (session_reauthentication_deadline window))
            c.expires_at)

commit-InTime :
    (s : CodeReauthenticationService) (input : ReauthenticateWithCodeInput)
    (proved : Option (ℕ × ℕ)) (e : Env) (w after last : World) (u : Unit {0})
    → prove_code s input e w ≡ ok proved after
    → commit_transaction after.transaction e after ≡ ok u last
    → is_none proved ≡ false
    → InTime s input e w after last
commit-InTime s input none e w after last u r committed n = absurd (ground arith)
commit-InTime s input (some expiries) e w after last u r committed n =
    let (c, window, marked, (w1, w2, w3, accepts, consumed, opened, deadline)) =
      prove_code-some s input e w after expiries r in
    let (locked, now, account, a, b, d, f, ra, rb, rd, rf, current, accepted) = accepts in
    let (set, within) =
      sooner-within
        (sooner marked.transaction.reauthentication_deadline
          (session_reauthentication_deadline window))
        c.expires_at
        (accepted-later e c s.verifier_key input.subject account.email purpose_reauthenticate
          input.code now accepted) in
    let (id, step, session, ended, on_time) =
      commit_transaction-before after.transaction e after last u (λ z. set (sym deadline ∙ z))
        committed in
    let on_time' = subst (λ d. e.statement_timestamp step < d) deadline on_time in
    (
      c,
      window,
      marked,
      (w1, w2, w3, accepts, consumed, opened, deadline),
      step,
      ended,
      lt_of_lt_of_le on_time' within,
      on_time',
    )

-- A proof by code ends well only if, in its transaction, the current challenge that was read of the
-- subject accepted the code and was consumed, and the last statement of the commit ran before that
-- challenge expired and before the sooner of that expiry, the deadline that the transaction had and
-- the end of the session as it was read.
pub reauthenticate_with_code-before :
    (s : CodeReauthenticationService) (input : ReauthenticateWithCodeInput) (e : Env) (w v : World)
    (t : ℕ)
    → reauthenticate_with_code s input e w ≡ ok t v
    → (proved : Option (ℕ × ℕ)) × (after last : World) × (prove_code s input e (begun w)
        ≡ ok proved after)
      × (commit_transaction after.transaction e after ≡ ok tt last)
      × InTime s input e (begun w) after last
unfolding reauthenticate_with_code prove_code_in_transaction
reauthenticate_with_code-before s input e w v t h =
    let (named, w1, r1, h1) = bind-ok _ _ e w h in
    let (ready, w2, r2, h2) = bind-ok _ _ e w1 h1 in
    let ((proved, window), w3, r3, h3) = bind-ok _ _ e w2 h2 in
    let (valid, w4, r4, h4) = bind-ok _ _ e w3 h3 in
    let same = (refuse_if-ok _ _ e w1 r2).1 ∙ (refuse_if-ok _ _ e w r1).1 in
    let (after, last, u, r, committed) =
      within_reauthentication_transaction-commits (prove_code s input) e w2 w3
        (map_err-ok _ _ e w2 r3) in
    let run = subst (λ x. prove_code s input e (begun x) ≡ ok proved after) same r in
    (
      proved,
      after,
      last,
      run,
      committed,
      commit-InTime s input proved e (begun w) after last u run committed
          (refuse_if-ok _ _ e w3 r4).0,
    )
