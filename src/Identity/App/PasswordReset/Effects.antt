-- ===== src/Identity/App/PasswordReset/Effects.antt =====
-- What a password reset did when it succeeds
-- (services/identity/internal/app/password_reset_service.go).
use flowspace_api.Base.{
  ℕ, Bool, true, false, ◌≡◌, refl, sym, ap, subst, ◌∙◌, Option, none, some, List, update, any, All,
  All-update-All, Text, text_eq, text_eq_refl, is_some, is_none, ◌&&◌, Bool-cases, inl, inr, arith,
  ◌==◌,
}
use flowspace_api.Identity.Errors.{Err}
use flowspace_api.Identity.Database.{Session, Account}
use flowspace_api.Identity.Run.{Env, World, M, ok, settle, tick, time_now}
use flowspace_api.Identity.Run.Laws.{bind-ok, asks-ok, pure-ok, exec-ok, statement-keeps, world_of}
use flowspace_api.Identity.Domain.Challenge.{
  Challenge, CodeCheck, code_accepted, code_wrong_guess, code_rejected, check_in_fixed_time,
  purpose_password_reset,
}
use flowspace_api.Identity.Statements.Sessions.{revoke, revoke_account_sessions}
use flowspace_api.Identity.Statements.Outbox.{notice_for}
use flowspace_api.Identity.Statements.Outbox
use flowspace_api.Identity.Repository.Transactions.{row_or}
use flowspace_api.Identity.Repository.Accounts.{
  revoke_password_sessions, queue_password_change_notice, PasswordRecoveryAccount,
  get_account_for_password_recovery,
}
use flowspace_api.Identity.App.PasswordReset.{
  PasswordResetService, settle_reset_check, verify_reset_code, apply_password_reset,
  reset_if_consumed, reset_verified, reset, challenge_or_zero, reset_challenge, reset_subject,
}

-- A session of the subject is over.
abbrev pub HasEnded : Text → Session → Type 0
HasEnded subject s = s.account_subject ≡ subject → is_some s.revoked_at ≡ true

ended_by_update :
    (subject : Text) (now : ℕ) (ss : List Session)
    → All
        (HasEnded subject)
        (update (λ s. text_eq s.account_subject subject && is_none s.revoked_at) (revoke now) ss)
ended_by_update subject now ss =
    All-update-All (HasEnded subject)
      (λ s. text_eq s.account_subject subject && is_none s.revoked_at) (revoke now) ss
      (λ s g h. refl) (λ s g h. untouched s (rw (← h) (text_eq_refl s.account_subject)) g)
  where
    untouched :
        (s : Session)
        → text_eq s.account_subject subject ≡ true
        → (text_eq s.account_subject subject && is_none s.revoked_at) ≡ false
        → is_some s.revoked_at ≡ true
    untouched s a b = ground (arith, a, b)

revoke_password_sessions-ends :
    (subject : Text) (e : Env) (w v : World) (u : Unit {0})
    → revoke_password_sessions subject e w ≡ ok u v
    → All (HasEnded subject) v.db.sessions
unfolding revoke_password_sessions revoke_account_sessions
revoke_password_sessions-ends subject e w v u h =
    let (n, w1, r1, h1) = bind-ok _ _ e w h in
    let after = ap (λ x. x.db.sessions) (sym (pure-ok h1).1 ∙ (exec-ok _ e w r1).1) in
    subst (All (HasEnded subject)) (sym after) (ended_by_update subject _ w.db.sessions)

-- The notice of a change leaves the sessions.
notice_for-sessions :
    (subject : Text) (now id : ℕ) (w : World) (ss : List Session) (o : Option Account)
    → w.db.sessions ≡ ss
    → (world_of (settle (notice_for subject now id w.db o) (tick w))).db.sessions ≡ ss
unfolding notice_for
notice_for-sessions subject now id w ss none h = h
notice_for-sessions subject now id w ss (some a) h =
    elim (Bool-cases (any (λ n. n.id == id) w.db.notices)) [ inl b ↦ rw (b) h | inr b ↦ rw (b) h ]

row_or-ok :
    {A : Type 0} (x : Err) (o : Option A) (e : Env) (w : World) {a : A} {v : World}
    → row_or x o e w ≡ ok a v
    → (o ≡ some a) × (v ≡ w)
unfolding row_or
row_or-ok x none e w h = absurd (ground arith)
row_or-ok x (some b) e w h = ground arith

queue_password_change_notice-sessions :
    (subject : Text) (e : Env) (w v : World) (u : Unit {0})
    → queue_password_change_notice subject e w ≡ ok u v
    → v.db.sessions ≡ w.db.sessions
unfolding queue_password_change_notice Outbox.queue_password_change_notice
queue_password_change_notice-sessions subject e w v u h =
    let (found, w1, r1, h1) = bind-ok _ _ e w h in
    let (id, w2, r2, h2) = bind-ok _ _ e w1 h1 in
    let same = sym (pure-ok h2).1 ∙ (row_or-ok _ found e w1 r2).1 in
    let kept =
      statement-keeps (λ d. d.sessions ≡ w.db.sessions) _ e w refl
        (λ now id. notice_for-sessions subject now id w w.db.sessions _ refl) in
    ap (λ x. x.db.sessions) same ∙ (sym (ap (λ o. (world_of o).db.sessions) r1) ∙ kept)

-- When the reset is applied, each session of the subject is over.
apply_password_reset-ends :
    (subject challenge_id hash : Text) (e : Env) (w v : World) (u : Unit {0})
    → apply_password_reset subject challenge_id hash e w ≡ ok u v
    → All (HasEnded subject) v.db.sessions
unfolding apply_password_reset
apply_password_reset-ends subject challenge_id hash e w v u h =
    let (a, w1, r1, h1) = bind-ok _ _ e w h in
    let (b, w2, r2, h2) = bind-ok _ _ e w1 h1 in
    let (c, w3, r3, h3) = bind-ok _ _ e w2 h2 in
    let (d, w4, r4, h4) = bind-ok _ _ e w3 h3 in
    subst (All (HasEnded subject)) (sym (queue_password_change_notice-sessions subject e w4 v u h4))
      (revoke_password_sessions-ends subject e w3 w4 d r4)

-- A check that settles on a challenge accepted its code.
settle_reset_check-accepted :
    (subject found : Text) (current : Option Challenge) (checked : CodeCheck) (c : Challenge)
    (e : Env) (w v : World)
    → settle_reset_check subject current checked e w ≡ ok (some (found, c)) v
    → (found ≡ subject) × (current ≡ some c) × (checked ≡ code_accepted)
unfolding settle_reset_check
settle_reset_check-accepted subject found none checked c e w v h = absurd (ground arith)
settle_reset_check-accepted subject found (some d) code_accepted c e w v h =
    (ground arith, ground arith, refl)
settle_reset_check-accepted subject found (some d) code_rejected c e w v h = absurd (ground arith)
settle_reset_check-accepted subject found (some d) code_wrong_guess c e w v h =
    let (a, w1, r1, h1) = bind-ok _ _ e w h in absurd (none_found (pure-ok h1).0)
  where
    none_found : ◌≡◌ {A = Option (Text × Challenge)} none (some (found, c)) → ⊥
    none_found h = ground arith

-- The challenge of the account that was read at the time that was read after it accepted the code.
abbrev pub TakesCode : Env → Text → Text → Text → World → Text → Challenge → Type 0
TakesCode e key email code w subject c =
    (account : Option PasswordRecoveryAccount) × (now : ℕ) × (w1 w2 w3 : World)
    × (get_account_for_password_recovery email e w ≡ ok account w1)
    × (reset_challenge account e w1 ≡ ok (some c) w2)
    × (time_now e w2 ≡ ok now w3)
    × (subject ≡ reset_subject account)
    × (check_in_fixed_time e c key subject email purpose_password_reset code now ≡ code_accepted)

verify_reset_code-accepted :
    (key email code subject : Text) (c : Challenge) (e : Env) (w v : World)
    → verify_reset_code key email code e w ≡ ok (some (subject, c)) v
    → TakesCode e key email code w subject c
unfolding verify_reset_code challenge_or_zero
verify_reset_code-accepted key email code subject c e w v h =
    let (account, w1, r1, h1) = bind-ok _ _ e w h in
    let (current, w2, r2, h2) = bind-ok _ _ e w1 h1 in
    let (now, w3, r3, h3) = bind-ok _ _ e w2 h2 in
    let (checked, w4, r4, h4) = bind-ok _ _ e w3 h3 in
    let (s, k, a) = settle_reset_check-accepted _ subject current checked c e w4 v h4 in
    (
      account,
      now,
      w1,
      w2,
      w3,
      r1,
      r2 ∙ ap (λ o. ok o w2) k,
      r3,
      s,
      ap
            (λ o.
              check_in_fixed_time e (challenge_or_zero o) key subject email purpose_password_reset
                code now)
            (sym k)
          ∙ (ap
                (λ t.
                  check_in_fixed_time e (challenge_or_zero current) key t email
                    purpose_password_reset code now)
                s
              ∙ (sym (asks-ok _ e w3 r4).0 ∙ a)),
    )

reset_verified-ends :
    (password subject : Text) (compromised : Option (Text → M Bool)) (c : Challenge) (e : Env)
    (w v : World)
    → reset_verified password compromised (some (subject, c)) e w ≡ ok false v
    → All (HasEnded subject) v.db.sessions
unfolding reset_verified reset_if_consumed
reset_verified-ends password subject compromised c e w v h =
    let (hash, w1, r1, h1) = bind-ok _ _ e w h in
    let (u, w2, r2, h2) = bind-ok _ _ e w1 h1 in
    let (consumed, w3, r3, h3) = bind-ok _ _ e w2 h2 in applied consumed hash w3 h3
  where
    applied :
        (consumed : Bool) (hash : Text) (w3 : World)
        → reset_if_consumed subject c.id hash consumed e w3 ≡ ok false v
        → All (HasEnded subject) v.db.sessions
    applied false hash w3 k = absurd (ground arith)
    applied true hash w3 k =
        let (u, w4, r4, h4) = bind-ok _ _ e w3 k in
        subst (λ x. All (HasEnded subject) x.db.sessions) (pure-ok h4).1
          (apply_password_reset-ends subject c.id hash e w3 w4 u r4)

-- A reset that ends well read an account for the address, then the current challenge of that account
-- and then the time, that challenge accepted the code for the account's subject at that time, and
-- every session of that subject is revoked in the end.
pub reset-accepted :
    (s : PasswordResetService) (email code password : Text) (e : Env) (w v : World)
    → reset s email code password e w ≡ ok false v
    → (account : Option PasswordRecoveryAccount) × (c : Challenge) × (now : ℕ) × (w1 w2 w3 : World)
      × (get_account_for_password_recovery email e w ≡ ok account w1)
      × (reset_challenge account e w1 ≡ ok (some c) w2)
      × (time_now e w2 ≡ ok now w3)
      × (check_in_fixed_time e c s.verifier_key
            (reset_subject account)
            email
            purpose_password_reset
            code
            now
          ≡ code_accepted)
      × All (HasEnded (reset_subject account)) v.db.sessions
unfolding reset reset_verified
reset-accepted s email code password e w v h =
    let (verified, w1, r1, h1) = bind-ok _ _ e w h in
    let (subject, c, (account, now, a, b, d, ra, rb, rd, same, accepted), ended) =
      by_code verified w1 r1 h1 in
    (
      account,
      c,
      now,
      a,
      b,
      d,
      ra,
      rb,
      rd,
      subst
          (λ t.
            check_in_fixed_time e c s.verifier_key t email purpose_password_reset code now
            ≡ code_accepted)
          same accepted,
      subst (λ t. All (HasEnded t) v.db.sessions) same ended,
    )
  where
    by_code :
        (verified : Option (Text × Challenge)) (w1 : World)
        → verify_reset_code s.verifier_key email code e w ≡ ok verified w1
        → reset_verified password s.compromised verified e w1 ≡ ok false v
        → (subject : Text) × (c : Challenge) × TakesCode e s.verifier_key email code w subject c
          × All (HasEnded subject) v.db.sessions
    by_code none w1 r k = absurd (ground arith)
    by_code (some (subject, c)) w1 r k = (
      subject,
      c,
      verify_reset_code-accepted s.verifier_key email code subject c e w w1 r,
      reset_verified-ends password subject s.compromised c e w1 v k,
    )
