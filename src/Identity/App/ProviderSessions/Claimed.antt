-- ===== src/Identity/App/ProviderSessions/Claimed.antt =====
-- What a session by a provider asks for
-- (services/identity/internal/app/provider_login_service.go).
use flowspace_api.Base.{
  ◌≢◌, Bool, true, false, not, ◌≡◌, refl, ◌⊎◌, inl, inr, Option, none, some, Text, arith, sym, ap,
  ◌∙◌, subst, if◌then◌else◌,
}
use flowspace_api.Identity.Errors.{Err, is, provider_handoff_rejected, random_uuid_unavailable}
use flowspace_api.Identity.Run.{Env, World, ok, fail, Attempted, value, error, new_uuid}
use flowspace_api.Identity.Run.Laws.{bind-ok, pure-ok, asks-ok, refuse_if-ok, attempt-value}
use flowspace_api.Identity.Domain.ProviderLogin.{
  secret_attempt_token, secret_handoff_code, valid_provider_secret, new_provider_account_email,
  provider_secret_verifier,
}
use flowspace_api.Identity.Repository.Transactions.{within_transaction, commit_transaction}
use flowspace_api.Identity.Repository.Transactions.Atomic.{begun, within_transaction-commits}
use flowspace_api.Identity.Repository.Accounts.{SubjectAccount}
use flowspace_api.Identity.Repository.Providers.{
  ProviderResult, claim_provider_result, lock_linked_account, create_provider_account,
}
use flowspace_api.Identity.App.Ports.{LimitOf, Signer, Protector}
use flowspace_api.Identity.App.Sessions.{issue}
use flowspace_api.Identity.App.ProviderLogin.{ProviderLoginService, unavailable}
use flowspace_api.Identity.App.ProviderSessions.{
  CreateProviderSessionInput, CreateProviderSessionResult, after_created, create_account_with,
  create_account, found_or_created, session_for, session_of_claim, claim_session, reject_handoff,
  answer_claim, create_with, create_provider_session,
}

-- The account was created now, with a new UUID as its subject, for the identity and the address that
-- the provider vouches for.
abbrev pub IsNew : Env → ProviderResult → World → SubjectAccount → Type 0
IsNew e claim w account =
    (email : Text) × (w1 w2 : World) × (new_provider_account_email e claim.provider claim.email
        claim.email_verified claim.hosted_domain
      ≡ some (email, account.email_verified))
    × (new_uuid random_uuid_unavailable e w ≡ ok account.subject w1)
    × (create_provider_account
          (record {
            subject = account.subject;
            email = email;
            email_verified = account.email_verified;
            provider = claim.provider;
            provider_subject = claim.subject;
          })
          e w1
        ≡ ok true w2)

not-false : (b : Bool) → not b ≡ false → b ≡ true
not-false b h = ground arith

account_of : Text → Bool → SubjectAccount
account_of subject verified = record { subject = subject; email_verified = verified }

after_created-some :
    (protect : Protector) (key subject email : Text) (verified created : Bool) (e : Env)
    (w v : World) (account : SubjectAccount)
    → after_created protect key subject email verified created e w ≡ ok (some account) v
    → (created ≡ true) × (account_of subject verified ≡ account)
unfolding after_created account_of
after_created-some protect key subject email verified false e w v account h = absurd (ground arith)
after_created-some protect key subject email verified true e w v account h =
    let (u, w1, r1, h1) = bind-ok _ _ e w h in (refl, some_inj (pure-ok h1).0)
  where
    some_inj : {a b : SubjectAccount} → some a ≡ some b → a ≡ b
    some_inj h = ground arith

create_account_with-some :
    (protect : Protector) (key : Text) (claim : ProviderResult) (usable : Option (Text × Bool))
    (e : Env) (w v : World) (account : SubjectAccount)
    → new_provider_account_email e claim.provider claim.email claim.email_verified
        claim.hosted_domain
      ≡ usable
    → create_account_with protect key claim usable e w ≡ ok (some account) v
    → IsNew e claim w account
unfolding create_account_with account_of
create_account_with-some protect key claim none e w v account g h = absurd (ground arith)
create_account_with-some protect key claim (some (email, verified)) e w v account g h =
    let (subject, w1, r1, h1) = bind-ok _ _ e w h in
    let (created, w2, r2, h2) = bind-ok _ _ e w1 h1 in
    let (done_now, same) =
      after_created-some protect key subject email verified created e w2 v account h2 in
    subst (IsNew e claim w) same (email, w1, w2, g, r1, r2 ∙ ap (λ b. ok b w2) done_now)

create_account-some :
    (protect : Protector) (key : Text) (claim : ProviderResult) (e : Env) (w v : World)
    (account : SubjectAccount)
    → create_account protect key claim e w ≡ ok (some account) v
    → IsNew e claim w account
unfolding create_account
create_account-some protect key claim e w v account h =
    let (usable, w1, r1, h1) = bind-ok _ _ e w h in
    let (gives, same) = asks-ok _ e w r1 in
    subst (λ x. IsNew e claim x account) same
      (create_account_with-some protect key claim usable e w1 v account (sym gives) h1)

-- The account is the one that the identity is linked to, or a new one if it is linked to none.
abbrev pub IsOwner : Env → ProviderResult → Option SubjectAccount → World → SubjectAccount → Type 0
IsOwner e claim linked w account =
    (linked ≡ some account) ⊎ ((linked ≡ none) × IsNew e claim w account)

found_or_created-IsOwner :
    (protect : Protector) (key : Text) (claim : ProviderResult) (linked : Option SubjectAccount)
    (e : Env) (w v : World) (account : SubjectAccount)
    → found_or_created protect key claim linked e w ≡ ok (some account) v
    → IsOwner e claim linked w account
unfolding found_or_created
found_or_created-IsOwner protect key claim none e w v account h =
    inr (refl, create_account-some protect key claim e w v account h)
found_or_created-IsOwner protect key claim (some found) e w v account h = inl (pure-ok h).0

session_for-some :
    (sign : Signer) (found : Option SubjectAccount) (e : Env) (w v : World)
    (result : CreateProviderSessionResult)
    → session_for sign found e w ≡ ok (some result) v
    → (account : SubjectAccount) × (found ≡ some account)
      × (result.subject ≡ account.subject)
      × (result.email_verified ≡ account.email_verified)
      × (issue sign account.subject e w ≡ ok result.tokens v)
unfolding session_for
session_for-some sign none e w v result h = absurd (ground arith)
session_for-some sign (some account) e w v result h =
    let (tokens, w1, r1, h1) = bind-ok _ _ e w h in
    let (same, last) = pure-ok h1 in
    let same_tokens : tokens ≡ result.tokens = ground arith in
    (
      account,
      refl,
      ground arith,
      ground arith,
      r1 ∙ (ap (λ t. ok t w1) same_tokens ∙ ap (ok result.tokens) last),
    )

-- In one run, a result was claimed, the account of its identity was looked up, the session is for
-- that account or a new one, and its tokens were issued for the subject of that account.
abbrev pub IsClaimed :
    Signer
    → Protector
    → Text
    → Env
    → Text
    → Text
    → CreateProviderSessionResult
    → World
    → World
    → Type 0
IsClaimed sign protect key e attempt handoff result w v =
    (claim : ProviderResult) × (linked : Option SubjectAccount) × (account : SubjectAccount) × (w1
      w2 w3 : World)
    × (claim_provider_result attempt handoff e w ≡ ok (some claim) w1)
    × (lock_linked_account claim.provider claim.subject e w1 ≡ ok linked w2)
    × IsOwner e claim linked w2 account
    × (found_or_created protect key claim linked e w2 ≡ ok (some account) w3)
    × (issue sign account.subject e w3 ≡ ok result.tokens v)
    × (result.subject ≡ account.subject)
    × (result.email_verified ≡ account.email_verified)

session_of_claim-some :
    (sign : Signer) (protect : Protector) (key attempt handoff : Text)
    (found : Option ProviderResult) (e : Env) (before w v : World)
    (result : CreateProviderSessionResult)
    → claim_provider_result attempt handoff e before ≡ ok found w
    → session_of_claim sign protect key found e w ≡ ok (some result) v
    → IsClaimed sign protect key e attempt handoff result before v
unfolding session_of_claim
session_of_claim-some sign protect key attempt handoff none e before w v result r h =
    absurd (ground arith)
session_of_claim-some sign protect key attempt handoff (some claim) e before w v result r h =
    let (linked, w1, r1, h1) = bind-ok _ _ e w h in
    let (found, w2, r2, h2) = bind-ok _ _ e w1 h1 in
    let (account, given, same, verified, issued) = session_for-some sign found e w2 v result h2 in
    let owner_found = r2 ∙ ap (λ o. ok o w2) given in
    (
      claim,
      linked,
      account,
      w,
      w1,
      w2,
      r,
      r1,
      found_or_created-IsOwner protect key claim linked e w1 w2 account owner_found,
      owner_found,
      issued,
      same,
      verified,
    )

pub reject_handoff-never :
    {A : Type 0} (attempt source : Text) (limit : Option LimitOf) (e : Env) (w v : World) (a : A)
    → reject_handoff attempt source limit e w ≢ ok a v
unfolding reject_handoff
reject_handoff-never attempt source limit e w v a h =
    let (failure, w1, r1, h1) = bind-ok _ _ e w h in
    let (limited, w2, r2, h2) = bind-ok _ _ e w1 h1 in ground arith

rejected_or_failed-never :
    {A : Type 0} (attempt source : Text) (limit : Option LimitOf) (rejected : Bool) (x : Err)
    (e : Env) (w v : World) (a : A)
    → (if rejected then reject_handoff {A = A} attempt source limit else fail x) e w ≢ ok a v
rejected_or_failed-never attempt source limit true x e w v a h =
    reject_handoff-never attempt source limit e w v a h
rejected_or_failed-never attempt source limit false x e w v a h = ground arith

answer_claim-ok :
    (s : ProviderLoginService) (attempt source : Text)
    (claimed : Attempted (Option CreateProviderSessionResult)) (e : Env) (w v : World)
    (result : CreateProviderSessionResult)
    → answer_claim s attempt source claimed e w ≡ ok result v
    → claimed ≡ value (some result)
unfolding answer_claim
answer_claim-ok s attempt source (value none) e w v result h = absurd (ground arith)
answer_claim-ok s attempt source (value (some found)) e w v result h =
    ap (λ x. value (some x)) (pure-ok h).0
answer_claim-ok s attempt source (error x) e w v result h = absurd (
    rejected_or_failed-never attempt source s.failure_limit (is x provider_handoff_rejected)
      (unavailable x) e w v result h)

-- What the transaction of the session shows, which starts in the world that is given.
abbrev pub Issues :
    ProviderLoginService
    → CreateProviderSessionInput
    → Signer
    → Protector
    → Env
    → CreateProviderSessionResult
    → World
    → Type 0
Issues s input sign protect e result w =
    (after last : World) × IsClaimed sign protect s.verifier_key e
      (provider_secret_verifier e s.verifier_key secret_attempt_token input.attempt_token)
      (provider_secret_verifier e s.verifier_key secret_handoff_code input.handoff_code) result w
      after
    × (commit_transaction after.transaction e after ≡ ok tt last)

create_with-Issues :
    (s : ProviderLoginService) (input : CreateProviderSessionInput) (signer : Option Signer)
    (protector : Option Protector) (e : Env) (w v : World) (result : CreateProviderSessionResult)
    → create_with s input signer protector e w ≡ ok result v
    → (sign : Signer) × (protect : Protector) × (signer ≡ some sign)
      × (protector ≡ some protect)
      × Issues s input sign protect e result (begun w)
unfolding create_with claim_session
create_with-Issues s input none protector e w v result h = absurd (ground arith)
create_with-Issues s input (some sign) none e w v result h = absurd (ground arith)
create_with-Issues s input (some sign) (some protect) e w v result h =
    let (ready, w1, r1, h1) = bind-ok _ _ e w h in
    let (token, w2, r2, h2) = bind-ok _ _ e w1 h1 in
    let (handoff, w3, r3, h3) = bind-ok _ _ e w2 h2 in
    let (claimed, w4, r4, h4) = bind-ok _ _ e w3 h3 in
    let given = answer_claim-ok s token input.source claimed e w4 v result h4 in
    let body = claim_session sign protect s.verifier_key token handoff in
    let (after, u, run, committed) =
      within_transaction-commits body e w3 w4
        (attempt-value (within_transaction body) e w3 (r4 ∙ ap (λ o. ok o w4) given)) in
    let (found, w5, r5, h5) = bind-ok _ _ e (begun w3) run in
    let (token_is, same2) = asks-ok _ e w1 r2 in
    let (handoff_is, same3) = asks-ok _ e w2 r3 in
    let same = same3 ∙ (same2 ∙ (refuse_if-ok _ _ e w r1).1) in
    let key = s.verifier_key in
    (
      sign,
      protect,
      refl,
      refl,
      (
        after,
        w4,
        subst
            (λ t.
              IsClaimed sign protect key e t
                (provider_secret_verifier e key secret_handoff_code input.handoff_code) result
                (begun w) after)
            token_is
            (subst (λ t. IsClaimed sign protect key e token t result (begun w) after) handoff_is
              (subst (λ x. IsClaimed sign protect key e token handoff result (begun x) after) same
                (session_of_claim-some sign protect key token handoff found e (begun w3) w5 after
                  result r5 h5))),
        committed,
      ),
    )

-- A session by a provider is given only for an attempt token and a handoff code of 32 bytes whose
-- verifiers claimed a provider result in its transaction, which committed; its tokens were issued
-- there for the account that the result's identity was linked to, or for one that was created for an
-- identity that was linked to none, with the address that the provider vouches for.
pub create_provider_session-claimed :
    (s : ProviderLoginService) (input : CreateProviderSessionInput) (e : Env) (w v : World)
    (result : CreateProviderSessionResult)
    → create_provider_session s input e w ≡ ok result v
    → (valid_provider_secret input.attempt_token ≡ true)
      × (valid_provider_secret input.handoff_code ≡ true)
      × (sign : Signer) × (protect : Protector) × (s.signer ≡ some sign)
      × (s.protector ≡ some protect)
      × Issues s input sign protect e result (begun w)
unfolding create_provider_session
create_provider_session-claimed s input e w v result h =
    let (token, w1, r1, h1) = bind-ok _ _ e w h in
    let (code, w2, r2, h2) = bind-ok _ _ e w1 h1 in
    let (valid, same1) = refuse_if-ok _ _ e w r1 in
    let (valid', same2) = refuse_if-ok _ _ e w1 r2 in
    let (sign, protect, given, given', issues) =
      create_with-Issues s input s.signer s.protector e w v result (
        subst (λ x. create_with s input s.signer s.protector e x ≡ ok result v) (same2 ∙ same1)
          h2) in
    (not-false _ valid, not-false _ valid', sign, protect, given, given', issues)
