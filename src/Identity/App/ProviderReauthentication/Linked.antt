-- ===== src/Identity/App/ProviderReauthentication/Linked.antt =====
-- What a proof by a provider asks for
-- (services/identity/internal/app/provider_reauthentication_service.go).
use flowspace_api.Base.{
  ◌≢◌, ℕ, Bool, true, false, ◌≡◌, refl, Option, none, some, Text, arith, ap, ◌∙◌, subst,
  if◌then◌else◌,
}
use flowspace_api.Identity.Errors.{Err, is, provider_handoff_rejected}
use flowspace_api.Identity.Run.{Env, World, ok, fail, Attempted, value, error, map_err}
use flowspace_api.Identity.Run.Laws.{
  bind-ok, pure-ok, asks-ok, attempt-value, map_err-ok, refuse_if-ok,
}
use flowspace_api.Identity.Domain.ProviderLogin.{
  secret_attempt_token, secret_handoff_code, provider_secret_verifier,
}
use flowspace_api.Identity.Domain.Reauthentication.{ReauthenticationWindow}
use flowspace_api.Identity.Repository.Transactions.{
  commit_transaction, within_reauthentication_transaction,
}
use flowspace_api.Identity.Repository.Sessions.{lock_session_for_reauthentication}
use flowspace_api.Identity.Repository.Transactions.Atomic.{
  begun, within_reauthentication_transaction-commits,
}
use flowspace_api.Identity.Repository.Providers.{
  ProviderResult, claim_provider_reauthentication_result, has_provider_link,
}
use flowspace_api.Identity.App.Ports.{LimitOf}
use flowspace_api.Identity.App.CodeReauthentication.Accepted.{Opened, open_window-Opened}
use flowspace_api.Identity.App.ProviderLogin.{ProviderLoginService}
use flowspace_api.Identity.App.ProviderSessions.{reject_handoff}
use flowspace_api.Identity.App.ProviderSessions.Claimed.{reject_handoff-never}
use flowspace_api.Identity.App.ProviderReauthentication.{
  ProviderReauthenticationService, CompleteProviderReauthenticationInput,
  provider_reauthentication_error, open_linked, open_claimed, claim, answer_reauthentication,
  complete_reauthentication_with, complete_provider_reauthentication,
}

-- In its transaction, the session was read, a result was claimed for the subject and the session, its
-- identity is linked to the subject, and the window was opened.
abbrev pub IsLinked :
    Env → CompleteProviderReauthenticationInput → Text → Text → World → World → Type 0
IsLinked e input attempt handoff w v =
    (locked : ReauthenticationWindow × ℕ) × (result : ProviderResult) × (w1 w2 w3 : World)
    × (window : ReauthenticationWindow) × (marked : World) × (lock_session_for_reauthentication
          input.subject input.session_id e w
        ≡ ok locked w1)
    × (claim_provider_reauthentication_result input.subject input.session_id attempt handoff e w1
        ≡ ok (some result) w2)
    × (has_provider_link input.subject result.provider result.subject e w2 ≡ ok true w3)
    × Opened input.subject input.session_id e w3 window marked v

open_linked-true :
    (subject session_id : Text) (linked : Bool) (e : Env) (w v : World)
    → open_linked subject session_id linked e w ≡ ok true v
    → (window : ReauthenticationWindow) × (marked : World) × (linked ≡ true)
      × Opened subject session_id e w window marked v
unfolding open_linked
open_linked-true subject session_id false e w v h = absurd (ground arith)
open_linked-true subject session_id true e w v h =
    let (t, w1, r1, h1) = bind-ok _ _ e w h in
    let (window, marked, ends, opened) = open_window-Opened subject session_id e w w1 t r1 in
    (
      window,
      marked,
      refl,
      subst (λ x. Opened subject session_id e w window marked x) (pure-ok h1).1 opened,
    )

open_claimed-true :
    (input : CompleteProviderReauthenticationInput) (attempt handoff : Text)
    (locked : ReauthenticationWindow × ℕ) (found : Option ProviderResult) (e : Env)
    (before w0 w v : World)
    → lock_session_for_reauthentication input.subject input.session_id e before ≡ ok locked w0
    → claim_provider_reauthentication_result input.subject input.session_id attempt handoff e w0
      ≡ ok found w
    → open_claimed input.subject input.session_id found e w ≡ ok true v
    → IsLinked e input attempt handoff before v
unfolding open_claimed
open_claimed-true input attempt handoff locked none e before w0 w v l r h = absurd (ground arith)
open_claimed-true input attempt handoff locked (some result) e before w0 w v l r h =
    let (linked, w2, r2, h2) = bind-ok _ _ e w h in
    let (window, marked, link, opened) =
      open_linked-true input.subject input.session_id linked e w2 v h2 in
    (locked, result, w0, w, w2, window, marked, l, r, r2 ∙ ap (λ b. ok b w2) link, opened)

claim-true :
    (input : CompleteProviderReauthenticationInput) (attempt handoff : Text) (e : Env) (w v : World)
    → claim input attempt handoff e w ≡ ok true v
    → IsLinked e input attempt handoff w v
unfolding claim
claim-true input attempt handoff e w v h =
    let (locked, w1, r1, h1) = bind-ok _ _ e w h in
    let (found, w2, r2, h2) = bind-ok _ _ e w1 h1 in
    open_claimed-true input attempt handoff locked found e w w1 w2 v r1 r2 h2

refused-never :
    (attempt source : Text) (limit : Option LimitOf) (rejected : Bool) (x : Err) (e : Env)
    (w v : World) (t : ℕ)
    → (if rejected
          then map_err provider_reauthentication_error (reject_handoff attempt source limit)
          else fail x)
        e w
      ≢ ok t v
refused-never attempt source limit true x e w v t h =
    reject_handoff-never attempt source limit e w v t
      (map_err-ok provider_reauthentication_error (reject_handoff attempt source limit) e w h)
refused-never attempt source limit false x e w v t h = ground arith

answer_reauthentication-ok :
    (attempt source : Text) (limit : Option LimitOf)
    (claimed : Attempted (Bool × ReauthenticationWindow)) (e : Env) (w v : World) (t : ℕ)
    → answer_reauthentication attempt source limit claimed e w ≡ ok t v
    → (window : ReauthenticationWindow) × (claimed ≡ value (true, window))
unfolding answer_reauthentication
answer_reauthentication-ok attempt source limit (value (false, window)) e w v t h =
    absurd (ground arith)
answer_reauthentication-ok attempt source limit (value (true, window)) e w v t h = (window, refl)
answer_reauthentication-ok attempt source limit (error x) e w v t h = absurd (
    refused-never attempt source limit (is x provider_handoff_rejected)
      (provider_reauthentication_error x) e w v t h)

-- What the transaction of the proof shows, which starts in the world that is given.
abbrev pub Proves :
    Env → CompleteProviderReauthenticationInput → ProviderLoginService → World → Type 0
Proves e input login w =
    (after last : World) × IsLinked e input
      (provider_secret_verifier e login.verifier_key secret_attempt_token input.attempt_token)
      (provider_secret_verifier e login.verifier_key secret_handoff_code input.handoff_code) w after
    × (commit_transaction after.transaction e after ≡ ok tt last)

complete_with-Proves :
    (s : ProviderReauthenticationService) (input : CompleteProviderReauthenticationInput)
    (found : Option ProviderLoginService) (e : Env) (w v : World) (t : ℕ)
    → complete_reauthentication_with s input found e w ≡ ok t v
    → (login : ProviderLoginService) × (found ≡ some login) × Proves e input login (begun w)
unfolding complete_reauthentication_with
complete_with-Proves s input none e w v t h = absurd (ground arith)
complete_with-Proves s input (some login) e w v t h =
    let (ready, w1, r1, h1) = bind-ok _ _ e w h in
    let (token, w2, r2, h2) = bind-ok _ _ e w1 h1 in
    let (handoff, w3, r3, h3) = bind-ok _ _ e w2 h2 in
    let (claimed, w4, r4, h4) = bind-ok _ _ e w3 h3 in
    let (window, given) =
      answer_reauthentication-ok token input.source s.failure_limit claimed e w4 v t h4 in
    let body = claim input token handoff in
    let (after, last, u, run, committed) =
      within_reauthentication_transaction-commits body e w3 w4 (
        attempt-value (within_reauthentication_transaction body) e w3
          (r4 ∙ ap (λ o. ok o w4) given)) in
    let (token_is, same2) = asks-ok _ e w1 r2 in
    let (handoff_is, same3) = asks-ok _ e w2 r3 in
    let same = same3 ∙ (same2 ∙ (refuse_if-ok _ _ e w r1).1) in
    (
      login,
      refl,
      (
        after,
        last,
        subst
            (λ x.
              IsLinked e input x
                (provider_secret_verifier e login.verifier_key secret_handoff_code
                  input.handoff_code)
                (begun w) after)
            token_is
            (subst (λ x. IsLinked e input token x (begun w) after) handoff_is
              (subst (λ x. IsLinked e input token handoff (begun x) after) same
                (claim-true input token handoff e (begun w3) after run))),
        committed,
      ),
    )

-- A proof by a provider ends well only if, in its transaction, the session was read, the verifiers
-- of the attempt token and the handoff code claimed a result for the subject and the session, the
-- identity of that result is linked to the subject, a closed window was marked for a new proof time,
-- the deadline became the sooner of the one held and the end of the session, and it committed.
pub complete_provider_reauthentication-linked :
    (s : ProviderReauthenticationService) (input : CompleteProviderReauthenticationInput) (e : Env)
    (w v : World) (t : ℕ)
    → complete_provider_reauthentication s input e w ≡ ok t v
    → (login : ProviderLoginService) × (s.login ≡ some login) × Proves e input login (begun w)
unfolding complete_provider_reauthentication
complete_provider_reauthentication-linked s input e w v t h =
    let (named, w1, r1, h1) = bind-ok _ _ e w h in
    let (token, w2, r2, h2) = bind-ok _ _ e w1 h1 in
    let (code, w3, r3, h3) = bind-ok _ _ e w2 h2 in
    let same =
      (refuse_if-ok _ _ e w2 r3).1 ∙ ((refuse_if-ok _ _ e w1 r2).1 ∙ (refuse_if-ok _ _ e w r1).1) in
    complete_with-Proves s input s.login e w v t
      (subst (λ x. complete_reauthentication_with s input s.login e x ≡ ok t v) same h3)
