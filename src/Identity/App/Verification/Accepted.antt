-- ===== src/Identity/App/Verification/Accepted.antt =====
-- When a verification ends well
-- (services/identity/internal/app/email_verification_service.go).
use flowspace_api.Base.{
  ℕ, Bool, true, false, not, ◌≡◌, refl, Option, none, some, Text, arith, sym, ◌∙◌, inl, inr, ◌⊎◌,
  if◌then◌else◌, ap, subst,
}
use flowspace_api.Identity.Run.{Env, World, M, ok, pure, time_now, ◌>>=◌}
use flowspace_api.Identity.Run.Laws.{bind-ok, pure-ok, asks-ok, refuse_if-ok}
use flowspace_api.Identity.Domain.Challenge.{
  Challenge, CodeCheck, code_accepted, code_wrong_guess, code_rejected, check, purpose_verify_email,
}
use flowspace_api.Identity.Domain.Code.{valid_verification_code}
use flowspace_api.Identity.Repository.Accounts.{
  AccountState, get_active_account_for_session, mark_email_verified,
}
use flowspace_api.Identity.Repository.Challenges.{get_current_challenge, consume_challenge}
use flowspace_api.Identity.App.Verification.{
  VerifyEmailInput, mark_if_consumed, apply_check, consume, verify,
}

-- The challenge was consumed, and then the address of the subject was marked.
abbrev pub IsUsed : Text → Challenge → Env → World → World → Type 0
IsUsed subject c e w v =
    (after : World) × (consume_challenge c.id e w ≡ ok true after)
    × (mark_email_verified subject e after ≡ ok true v)

mark_if_consumed-IsUsed :
    (subject : Text) (c : Challenge) (consumed : Bool) (e : Env) (w w1 v : World)
    → consume_challenge c.id e w ≡ ok consumed w1
    → mark_if_consumed subject consumed e w1 ≡ ok false v
    → IsUsed subject c e w v
unfolding mark_if_consumed
mark_if_consumed-IsUsed subject c false e w w1 v r h = absurd (ground arith)
mark_if_consumed-IsUsed subject c true e w w1 v r h =
    let (changed, w2, r2, h2) = bind-ok _ _ e w1 h in
    let (u, w3, r3, h3) = bind-ok _ _ e w2 h2 in
    let (marked, same) = refuse_if-ok _ _ e w2 r3 in
    (
      w1,
      r,
      r2
          ∙ (ap (λ b. ok b w2) (not-false changed marked)
              ∙ ap (ok true) (sym same ∙ (pure-ok h3).1)),
    )
  where
    not-false : (b : Bool) → not b ≡ false → b ≡ true
    not-false b h = ground arith

apply_check-accepted :
    (subject : Text) (c : Challenge) (checked : CodeCheck) (e : Env) (w v : World)
    → apply_check subject c checked e w ≡ ok false v
    → (checked ≡ code_accepted) × IsUsed subject c e w v
unfolding apply_check
apply_check-accepted subject c code_accepted e w v h =
    let (consumed, w1, r1, h1) = bind-ok _ _ e w h in
    (refl, mark_if_consumed-IsUsed subject c consumed e w w1 v r1 h1)
apply_check-accepted subject c code_rejected e w v h = absurd (ground arith)
apply_check-accepted subject c code_wrong_guess e w v h =
    let (u, w1, r1, h1) = bind-ok _ _ e w h in let same = (pure-ok h1).0 in absurd (cc)

-- The challenge accepted the code at the time that was read, and was used.
abbrev pub UsesCode : Text → VerifyEmailInput → Text → Challenge → Env → World → World → Type 0
UsesCode key input email c e w v =
    (now : ℕ) × (after : World) × (time_now e w ≡ ok now after)
    × (check e c key input.subject email purpose_verify_email input.code now ≡ code_accepted)
    × IsUsed input.subject c e after v

consume-accepted :
    (key : Text) (input : VerifyEmailInput) (email : Text) (found : Option Challenge) (e : Env)
    (w v : World)
    → consume key input email found e w ≡ ok false v
    → (c : Challenge) × (found ≡ some c) × UsesCode key input email c e w v
unfolding consume
consume-accepted key input email none e w v h = absurd (ground arith)
consume-accepted key input email (some c) e w v h =
    let (now, w1, r1, h1) = bind-ok _ _ e w h in
    let (checked, w2, r2, h2) = bind-ok _ _ e w1 h1 in
    let (gives, same) = asks-ok _ e w1 r2 in
    let (accepted, used) = apply_check-accepted input.subject c checked e w2 v h2 in
    (
      c,
      refl,
      (now, w1, r1, sym gives ∙ accepted, subst (λ x. IsUsed input.subject c e x v) same used),
    )

-- What `verify` does after it read the account.
abbrev rest_of_verify : Text → VerifyEmailInput → Text → Bool → Bool → M Bool
rest_of_verify key input email valid verified =
    if not valid then pure true else if verified then pure false else do
      challenge ← get_current_challenge input.subject purpose_verify_email
      consume key input email challenge

rest_of_verify-accepted :
    (key : Text) (input : VerifyEmailInput) (email : Text) (valid verified : Bool) (e : Env)
    (w v : World)
    → rest_of_verify key input email valid verified e w ≡ ok false v
    → (valid ≡ true)
      × ((verified ≡ true)
          ⊎ ((c : Challenge) × (read : World) × (get_current_challenge input.subject
                  purpose_verify_email e w
                ≡ ok (some c) read)
              × UsesCode key input email c e read v))
rest_of_verify-accepted key input email false verified e w v h = absurd (ground arith)
rest_of_verify-accepted key input email true true e w v h = (refl, inl refl)
rest_of_verify-accepted key input email true false e w v h =
    let (found, w2, r2, h2) = bind-ok _ _ e w h in
    let (c, same, accepted) = consume-accepted key input email found e w2 v h2 in
    (refl, inr (c, w2, r2 ∙ ap (λ o. ok o w2) same, accepted))

-- A verification answers that the code is valid only if it has six digits and the address of the
-- live session's account was verified before, or if the current challenge, read next, accepted the
-- code for that address at the time read next, was consumed, and the address was marked as verified
-- in the end.
pub verify-accepted :
    (key : Text) (input : VerifyEmailInput) (e : Env) (w v : World)
    → verify key input e w ≡ ok false v
    → (account : AccountState) × (after : World) × (get_active_account_for_session input.subject
          input.session_id e w
        ≡ ok account after)
      × (valid_verification_code input.code ≡ true)
      × ((account.email_verified ≡ true)
          ⊎ ((c : Challenge) × (read : World) × (get_current_challenge input.subject
                  purpose_verify_email e after
                ≡ ok (some c) read)
              × UsesCode key input account.email c e read v))
unfolding verify
verify-accepted key input e w v h =
    let (account, w1, r1, h1) = bind-ok _ _ e w h in
    let (b, a) =
      rest_of_verify-accepted key input account.email (valid_verification_code input.code)
        account.email_verified e w1 v h1 in
    (account, w1, r1, b, a)
