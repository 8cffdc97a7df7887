-- ===== src/Identity/App/PasswordLogin/Credentials.antt =====
-- Which account a password login gives a session to
-- (services/identity/internal/app/password_login_service.go).
use flowspace_api.Base.{
  Bool, true, false, not, ◌||◌, ◌≡◌, refl, Option, none, some, Text, text_eq, arith, sym, ap, ◌∙◌,
  subst,
}
use flowspace_api.Identity.Run.{Env, World, M, ok, done}
use flowspace_api.Identity.Run.Laws.{bind-ok, lift-ok, map_err-ok, pure-ok, refuse_if-ok}
use flowspace_api.Identity.Domain.Email.{normalize_email}
use flowspace_api.Identity.Domain.Password.{normalize_login_password}
use flowspace_api.Identity.Repository.Transactions.Atomic.{begun, within_transaction-commits}
use flowspace_api.Identity.Repository.Transactions.{commit_transaction}
use flowspace_api.Identity.Repository.Accounts.{
  PasswordAccount, find_password_account, lock_password_account,
}
use flowspace_api.Identity.App.Ports.{Signer}
use flowspace_api.Identity.App.Sessions
use flowspace_api.Identity.App.Sessions.{SessionTokens}
use flowspace_api.Identity.App.PasswordLogin.{
  CreatePasswordSessionInput, CreatePasswordSessionResult, check_password, issue_locked, issue,
  hash_of, issue_if_matched, create_session_with, login_error, password_session,
}

-- A transaction from the given world locked the account, which has still its subject and its hash,
-- issued tokens for that subject next, and committed; the result is made of the locked account and
-- of those tokens.
abbrev pub IssuesFor :
    Signer → PasswordAccount → Env → World → CreatePasswordSessionResult → World → Type 0
IssuesFor sign account e w r v =
    (current : PasswordAccount) × (tokens : SessionTokens) × (locked after : World)
    × (lock_password_account account.subject e (begun w) ≡ ok current locked)
    × (text_eq current.subject account.subject ≡ true)
    × (text_eq current.password_hash account.password_hash ≡ true)
    × (Sessions.issue sign account.subject e locked ≡ ok tokens after)
    × (commit_transaction after.transaction e after ≡ ok tt v)
    × (r ≡ password_session (record current { subject = account.subject }) tokens)

both-same : (a b : Bool) → (not a || not b) ≡ false → (a ≡ true) × (b ≡ true)
both-same a b h = ground arith

issue-IssuesFor :
    (sign : Signer) (account : PasswordAccount) (r : CreatePasswordSessionResult) (e : Env)
    (w v : World)
    → issue sign account e w ≡ ok r v
    → IssuesFor sign account e w r v
unfolding issue issue_locked
issue-IssuesFor sign account r e w v h =
    let (after, u, body, committed) =
      within_transaction-commits (issue_locked sign account) e w v
        (map_err-ok login_error _ e w h) in
    let (current, w1, r1, h1) = bind-ok _ _ e (begun w) body in
    let (same, w2, r2, h2) = bind-ok _ _ e w1 h1 in
    let (tokens, w3, r3, h3) = bind-ok _ _ e w2 h2 in
    let (unchanged, kept) = refuse_if-ok _ _ e w1 r2 in
    let (same_subject, same_hash) = both-same _ _ unchanged in
    let (made, last) = pure-ok h3 in
    (
      current,
      tokens,
      w1,
      after,
      map_err-ok _ _ e (begun w) r1,
      same_subject,
      same_hash,
      subst (λ x. Sessions.issue sign account.subject e x ≡ ok tokens after) kept
          (r3 ∙ ap (ok tokens) last),
      committed,
      sym made,
    )

issue_if_matched-some :
    (sign : Signer) (found : Option PasswordAccount) (matched : Bool)
    (r : CreatePasswordSessionResult) (e : Env) (w v : World)
    → issue_if_matched sign found matched e w ≡ ok r v
    → (account : PasswordAccount) × (found ≡ some account)
      × (matched ≡ true)
      × (issue sign account e w ≡ ok r v)
unfolding issue_if_matched
issue_if_matched-some sign none matched r e w v h = absurd (ground arith)
issue_if_matched-some sign (some account) false r e w v h = absurd (ground arith)
issue_if_matched-some sign (some account) true r e w v h = (account, refl, refl, h)

-- A password login that ends well normalized the address and the password, passed the limit, found
-- an account for the address next, whose stored hash accepted the password next, and then, in one
-- transaction that committed, locked that account, found its subject and hash unchanged and issued
-- tokens for its subject, which are those of the result.
pub create_session_with-matched :
    (sign : Signer) (limit : Text → Text → M (Unit {0})) (input : CreatePasswordSessionInput)
    (r : CreatePasswordSessionResult) (e : Env) (w v : World)
    → create_session_with sign limit input e w ≡ ok r v
    → (email password : Text) × (account : PasswordAccount) × (w1 w2 w3 : World) × (normalize_email
          e input.email
        ≡ done email)
      × (normalize_login_password e input.password ≡ done password)
      × (limit input.source email e w ≡ ok tt w1)
      × (find_password_account email e w1 ≡ ok (some account) w2)
      × (check_password password account.password_hash e w2 ≡ ok true w3)
      × IssuesFor sign account e w3 r v
unfolding create_session_with
create_session_with-matched sign limit input r e w v h =
    let (email, w1, r1, h1) = bind-ok _ _ e w h in
    let (password, w2, r2, h2) = bind-ok _ _ e w1 h1 in
    let (limited, w3, r3, h3) = bind-ok _ _ e w2 h2 in
    let (found, w4, r4, h4) = bind-ok _ _ e w3 h3 in
    let (matched, w5, r5, h5) = bind-ok _ _ e w4 h4 in
    let (account, same, true_match, issued) =
      issue_if_matched-some sign found matched r e w5 v h5 in
    let (normal, same1) = lift-ok _ e w r1 in
    let (normal_password, same2) = lift-ok _ e w1 r2 in
    (
      email,
      password,
      account,
      w3,
      w4,
      w5,
      normal,
      normal_password,
      subst (λ x. limit input.source email e x ≡ ok tt w3) (same2 ∙ same1) r3,
      map_err-ok _ _ e w3 r4 ∙ ap (λ o. ok o w4) same,
      ap (λ o. check_password password (hash_of o) e w4) (sym same)
          ∙ (r5 ∙ ap (λ b. ok b w5) true_match),
      issue-IssuesFor sign account r e w5 v issued,
    )
