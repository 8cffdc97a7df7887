-- ===== src/Identity/Statements/Providers/Stages.antt =====
-- The stages of a sign-in attempt (services/identity/db/queries/provider_login.sql).
use flowspace_api.Base.{
  ℕ, suc, ◌≤◌, true, ◌≡◌, refl, ◌&&◌, ◌||◌, some, ltb, any, All, All-update, All-filter, Text,
  arith, Bool-cases, inl, inr, not, leb, is_none, is_some,
}
use flowspace_api.Identity.Database.{Database, Attempt}
use flowspace_api.Identity.Run.{Env, World, tick, settle}
use flowspace_api.Identity.Run.Laws.{world_of, exec-keeps, statement-keeps}
use flowspace_api.Identity.Statements.Providers.{
  awaits_callback, consume_state, consume_provider_login_state, awaits_result, AttemptParams,
  insert_attempt, create_provider_login_attempt, new_attempt, same_key, is_text, claimable_login,
  claim_session, claim_provider_login_result, claimable_reauthentication, ResultParams, with_result,
  record_result_in, record_provider_login_result, claim_reauthentication,
  claim_provider_reauthentication_result, counts_failures, record_provider_handoff_failure,
  fail_provider_login_attempt, delete_expired_provider_login_attempts,
}

-- An attempt has at most five failed handoffs, has a handoff code only after its callback came and
-- only if it did not fail, and is claimed only with a handoff code.
abbrev pub IsStaged : Attempt → Type 0
IsStaged a =
    (a.handoff_failures ≤ 5)
    × ((is_none a.handoff_code_verifier || is_some a.state_consumed_at) ≡ true)
    × ((is_none a.handoff_code_verifier || is_none a.failed_at) ≡ true)
    × ((is_none a.session_claimed_at || is_some a.handoff_code_verifier) ≡ true)
    × ((is_none a.reauthentication_claimed_at || is_some a.handoff_code_verifier) ≡ true)

abbrev pub AreStaged : Database → Type 0
AreStaged d = All IsStaged d.attempts

insert_attempt-AreStaged :
    (row : Attempt) (w : World)
    → IsStaged row
    → AreStaged w.db
    → AreStaged ((world_of (settle (insert_attempt row w.db) (tick w))).db)
unfolding insert_attempt
insert_attempt-AreStaged row w r h = elim (Bool-cases (any (same_key row) w.db.attempts)) [
  | inl a ↦ rw (a) h
  | inr a ↦ rw (a) (r, h)
]

record_result_in-AreStaged :
    (id : ℕ) (p : ResultParams) (now : ℕ) (w : World)
    → AreStaged w.db
    → AreStaged ((world_of (settle (record_result_in id p now w.db) (tick w))).db)
unfolding record_result_in
record_result_in-AreStaged id p now w h =
    elim (Bool-cases (
      any (λ a. is_text a.handoff_code_verifier p.handoff_code_verifier) w.db.attempts
      && any (λ a. awaits_result id a && ltb now a.expires_at) w.db.attempts)) [
        | inl a ↦ rw (a) h
        | inr a ↦ rw (a) (
            All-update IsStaged (λ x. awaits_result id x && ltb now x.expires_at) (with_result p)
              w.db.attempts (λ x g s. ground arith) h)
      ]

-- Whatever a statement on attempts answers, if every attempt is at a stage before, it is at one
-- after: it has at most five failed handoffs, it has a handoff code only if its callback came and
-- it did not fail, and it is claimed only if it has a handoff code. The statements are those that
-- create an attempt, consume its state, record its result, fail it, claim it for a session or a
-- re-authentication, count a failed handoff and purge what expired.
pub statements-AreStaged :
    (e : Env) (w : World) (p : AttemptParams) (r : ResultParams) (id session : ℕ)
    (provider state_verifier attempt_verifier handoff_verifier subject : Text)
    → AreStaged w.db
    → AreStaged ((world_of (create_provider_login_attempt p e w)).db)
      × AreStaged ((world_of (consume_provider_login_state provider state_verifier e w)).db)
      × AreStaged ((world_of (record_provider_login_result id r e w)).db)
      × AreStaged ((world_of (fail_provider_login_attempt id e w)).db)
      × AreStaged
          ((world_of (claim_provider_login_result attempt_verifier handoff_verifier e w)).db)
      × AreStaged (
          (world_of (
            claim_provider_reauthentication_result attempt_verifier handoff_verifier subject session
              e w)).db)
      × AreStaged ((world_of (record_provider_handoff_failure attempt_verifier e w)).db)
      × AreStaged ((world_of (delete_expired_provider_login_attempts e w)).db)
unfolding create_provider_login_attempt consume_provider_login_state record_provider_login_result
    fail_provider_login_attempt claim_provider_login_result claim_provider_reauthentication_result
    record_provider_handoff_failure delete_expired_provider_login_attempts
statements-AreStaged e w p r id session provider state_verifier attempt_verifier handoff_verifier
      subject h =
    (
      statement-keeps AreStaged _ e w h (λ now fresh.
          insert_attempt-AreStaged (new_attempt p fresh now) w (omega arith, refl, refl, refl, refl)
            h),
      exec-keeps AreStaged _ e w h (λ now.
          All-update IsStaged (awaits_callback provider state_verifier now) (consume_state now)
            w.db.attempts (λ x g s. ground arith) h),
      statement-keeps AreStaged _ e w h (λ now fresh. record_result_in-AreStaged id r now w h),
      exec-keeps AreStaged _ e w h (λ now.
          All-update IsStaged (awaits_result id) (λ a. record a { failed_at = some now })
            w.db.attempts (λ x g s. ground arith) h),
      exec-keeps AreStaged _ e w h (λ now.
          All-update IsStaged (claimable_login attempt_verifier handoff_verifier now)
            (claim_session now) w.db.attempts (λ x g s. ground arith) h),
      exec-keeps AreStaged _ e w h (λ now.
          All-update IsStaged
            (claimable_reauthentication attempt_verifier handoff_verifier subject session now)
            (claim_reauthentication now) w.db.attempts (λ x g s. ground arith) h),
      exec-keeps AreStaged _ e w h (λ now.
          All-update IsStaged (counts_failures attempt_verifier now)
            (λ a. record a { handoff_failures = suc a.handoff_failures }) w.db.attempts
            (λ x g s. ground arith) h),
      exec-keeps AreStaged _ e w h
          (λ now. All-filter IsStaged (λ a. not (leb a.expires_at now)) w.db.attempts h),
    )
