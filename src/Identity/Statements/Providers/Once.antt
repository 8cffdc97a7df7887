-- ===== src/Identity/Statements/Providers/Once.antt =====
-- A sign-in attempt with a provider is used once at each of its stages
-- (services/identity/db/queries/provider_login.sql).
use flowspace_api.Base.{
  ℕ, ◌≤◌, Bool, false, ◌≡◌, Option, none, find, Text, arith, ap, ◌∙◌, count-update_zero,
  count_zero→find,
}
use flowspace_api.Identity.Database.{Attempt}
use flowspace_api.Identity.Run.{Env, World, ok, exec}
use flowspace_api.Identity.Run.Laws.{exec-ok}
use flowspace_api.Identity.Statements.Providers.{
  take_attempt, awaits_callback, consume_state, consume_provider_login_state, claimable_login,
  claim_session, claim_provider_login_result, claimable_reauthentication, claim_reauthentication,
  claim_provider_reauthentication_result,
}

-- A statement that takes an attempt finds none that passes its test at a later time.
take_attempt-once :
    (p : ℕ → Attempt → Bool) (f : ℕ → Attempt → Attempt) (e : Env) (w v u : World)
    (first second : Option Attempt)
    → ((now later : ℕ) (a : Attempt) → p later (f now a) ≡ false)
    → ((now later : ℕ) (a : Attempt) → now ≤ later → p now a ≡ false → p later a ≡ false)
    → e.statement_timestamp w.step ≤ e.statement_timestamp v.step
    → exec (λ now d. take_attempt (p now) (f now) d) e w ≡ ok first v
    → exec (λ now d. take_attempt (p now) (f now) d) e v ≡ ok second u
    → second ≡ none
take_attempt-once p f e w v u first second ends stays t h k =
    let (a, b) = exec-ok _ e w h in
    let (c, d) = exec-ok _ e v k in
    let gone = count_zero→find (p (e.statement_timestamp v.step)) _ (
      count-update_zero (p (e.statement_timestamp v.step)) (p (e.statement_timestamp w.step))
        (f (e.statement_timestamp w.step)) (w.db.attempts) (λ x g. ends _ _ x)
        (λ x g. stays _ _ x t g)) in
    c ∙ ap (λ x. find (p (e.statement_timestamp v.step)) x.db.attempts) b ∙ gone

-- The state of a callback is consumed once: at a time that is not earlier, the same state finds no
-- attempt.
pub consume_provider_login_state-once :
    (e : Env) (w v u : World) (provider state_verifier : Text) (first second : Option Attempt)
    → e.statement_timestamp w.step ≤ e.statement_timestamp v.step
    → consume_provider_login_state provider state_verifier e w ≡ ok first v
    → consume_provider_login_state provider state_verifier e v ≡ ok second u
    → second ≡ none
unfolding consume_provider_login_state
consume_provider_login_state-once e w v u provider state_verifier first second t h k =
    take_attempt-once (awaits_callback provider state_verifier) consume_state e w v u first second
      (λ now later a. ground arith) (λ now later a le g. ground arith) t h k

-- A result is claimed for a session once: at a time that is not earlier, the same token and handoff
-- code find no attempt.
pub claim_provider_login_result-once :
    (e : Env) (w v u : World) (attempt_verifier handoff_verifier : Text)
    (first second : Option Attempt)
    → e.statement_timestamp w.step ≤ e.statement_timestamp v.step
    → claim_provider_login_result attempt_verifier handoff_verifier e w ≡ ok first v
    → claim_provider_login_result attempt_verifier handoff_verifier e v ≡ ok second u
    → second ≡ none
unfolding claim_provider_login_result
claim_provider_login_result-once e w v u attempt_verifier handoff_verifier first second t h k =
    take_attempt-once (claimable_login attempt_verifier handoff_verifier) claim_session e w v u
      first second (λ now later a. ground arith) (λ now later a le g. ground arith) t h k

-- A result is claimed for a re-authentication once: at a time that is not earlier, the same token,
-- handoff code, subject and session find no attempt.
pub claim_provider_reauthentication_result-once :
    (e : Env) (w v u : World) (attempt_verifier handoff_verifier subject : Text) (session : ℕ)
    (first second : Option Attempt)
    → e.statement_timestamp w.step ≤ e.statement_timestamp v.step
    → claim_provider_reauthentication_result attempt_verifier handoff_verifier subject session e w
      ≡ ok first v
    → claim_provider_reauthentication_result attempt_verifier handoff_verifier subject session e v
      ≡ ok second u
    → second ≡ none
unfolding claim_provider_reauthentication_result
claim_provider_reauthentication_result-once e w v u attempt_verifier handoff_verifier subject
      session first second t h k =
    take_attempt-once (claimable_reauthentication attempt_verifier handoff_verifier subject session)
      claim_reauthentication e w v u first second (λ now later a. ground arith)
      (λ now later a le g. ground arith) t h k
