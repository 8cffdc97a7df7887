-- ===== src/Examples/Attempts.antt =====
-- Sign-in attempts with a provider run at concrete inputs.
use flowspace_api.Base.{ℕ, true, none, some, Option, [], ◌∷◌, bytes, ◌≡◌, refl, arith, text_eq}
use flowspace_api.Identity.Database.{Attempt}
use flowspace_api.Identity.Run.{World, ok, exec, statement}
use flowspace_api.Identity.Run.Laws.{world_of}
use flowspace_api.Identity.Domain.Challenge.{purpose_reauthenticate}
use flowspace_api.Identity.Statements.Providers.{
  AttemptParams, ResultParams, new_attempt, with_result, purpose_login, consume_state,
  claim_session, claim_reauthentication, create_provider_login_attempt,
  consume_provider_login_state, record_provider_login_result, fail_provider_login_attempt,
  claim_provider_login_result, claim_provider_reauthentication_result,
  record_provider_handoff_failure, delete_expired_provider_login_attempts,
}
use flowspace_api.Identity.Statements.Providers.Once.{
  consume_provider_login_state-once, claim_provider_login_result-once,
}
use flowspace_api.Identity.Statements.Providers.Stages.{AreStaged, statements-AreStaged}
use flowspace_api.Examples.Worlds.{quiet, start, tables}

abbrev sign_in : AttemptParams
sign_in = record {
  provider = bytes "google";
  attempt_token_verifier = bytes "token";
  state_verifier = bytes "state";
  code_verifier = bytes "code";
  nonce = none;
  callback_url = bytes "https://f.example/cb";
  purpose = purpose_login;
  account_subject = none;
  session_id = none;
}

abbrev google_result : ResultParams
google_result = record {
  provider_subject = bytes "g-1";
  provider_email = some (bytes "ann@b.org");
  provider_email_verified = true;
  provider_hosted_domain = none;
  handoff_code_verifier = bytes "handoff";
}

abbrev opened : Attempt
opened = new_attempt sign_in 4 90

-- The attempt after its callback and its result.
abbrev answered : Attempt
answered = with_result google_result (consume_state 95 opened)

abbrev answered_again : Attempt
answered_again = record answered {
  purpose = purpose_reauthenticate;
  account_subject = some (bytes "ann");
  session_id = some 2;
}

-- The world with one attempt after so many statements.
abbrev with_attempt : ℕ → Attempt → World
with_attempt n a = record start { db = record tables { attempts = a ∷ [] }; step = n }

state_taken :
    consume_provider_login_state (bytes "google") (bytes "state") quiet (with_attempt 0 opened)
    ≡ ok (some opened) (with_attempt 1 (consume_state 100 opened))
unfolding consume_provider_login_state exec statement text_eq
state_taken = refl

state_gone :
    consume_provider_login_state
      (bytes "google")
      (bytes "state")
      quiet
      (with_attempt 1 (consume_state 100 opened))
    ≡ ok none (with_attempt 2 (consume_state 100 opened))
unfolding consume_provider_login_state exec statement text_eq
state_gone = refl

consume_provider_login_state-once_example : ◌≡◌ {A = Option Attempt} none none
consume_provider_login_state-once_example =
    consume_provider_login_state-once quiet (with_attempt 0 opened)
      (with_attempt 1 (consume_state 100 opened)) (with_attempt 2 (consume_state 100 opened))
      (bytes "google") (bytes "state") (some opened) none (omega arith) state_taken state_gone

result_taken :
    claim_provider_login_result (bytes "token") (bytes "handoff") quiet (with_attempt 0 answered)
    ≡ ok (some answered) (with_attempt 1 (claim_session 100 answered))
unfolding claim_provider_login_result exec statement text_eq purpose_login
result_taken = refl

result_gone :
    claim_provider_login_result
      (bytes "token")
      (bytes "handoff")
      quiet
      (with_attempt 1 (claim_session 100 answered))
    ≡ ok none (with_attempt 2 (claim_session 100 answered))
unfolding claim_provider_login_result exec statement text_eq purpose_login
result_gone = refl

claim_provider_login_result-once_example : ◌≡◌ {A = Option Attempt} none none
claim_provider_login_result-once_example =
    claim_provider_login_result-once quiet (with_attempt 0 answered)
      (with_attempt 1 (claim_session 100 answered)) (with_attempt 2 (claim_session 100 answered))
      (bytes "token") (bytes "handoff") (some answered) none (omega arith) result_taken result_gone

proof_taken :
    claim_provider_reauthentication_result
      (bytes "token")
      (bytes "handoff")
      (bytes "ann")
      2
      quiet
      (with_attempt 0 answered_again)
    ≡ ok (some answered_again) (with_attempt 1 (claim_reauthentication 100 answered_again))
unfolding claim_provider_reauthentication_result exec statement text_eq purpose_reauthenticate
proof_taken = refl

proof_gone :
    claim_provider_reauthentication_result
      (bytes "token")
      (bytes "handoff")
      (bytes "ann")
      2
      quiet
      (with_attempt 1 (claim_reauthentication 100 answered_again))
    ≡ ok none (with_attempt 2 (claim_reauthentication 100 answered_again))
unfolding claim_provider_reauthentication_result exec statement text_eq purpose_reauthenticate
proof_gone = refl

answered-AreStaged : AreStaged (record tables { attempts = answered ∷ [] })
answered-AreStaged = ((omega arith, refl, refl, refl, refl), tt)

statements-AreStaged_example :
    AreStaged
      ((world_of (create_provider_login_attempt sign_in quiet (with_attempt 0 answered))).db)
    × AreStaged (
        (world_of (
          consume_provider_login_state
            (bytes "google")
            (bytes "state")
            quiet
            (with_attempt 0 answered))).db)
    × AreStaged (
        (world_of
          (record_provider_login_result 4 google_result quiet (with_attempt 0 answered))).db)
    × AreStaged ((world_of (fail_provider_login_attempt 4 quiet (with_attempt 0 answered))).db)
    × AreStaged (
        (world_of (
          claim_provider_login_result
            (bytes "token")
            (bytes "handoff")
            quiet
            (with_attempt 0 answered))).db)
    × AreStaged (
        (world_of (
          claim_provider_reauthentication_result
            (bytes "token")
            (bytes "handoff")
            (bytes "ann")
            2
            quiet
            (with_attempt 0 answered))).db)
    × AreStaged (
        (world_of
          (record_provider_handoff_failure (bytes "token") quiet (with_attempt 0 answered))).db)
    × AreStaged
        ((world_of (delete_expired_provider_login_attempts quiet (with_attempt 0 answered))).db)
statements-AreStaged_example =
    statements-AreStaged quiet (with_attempt 0 answered) sign_in google_result 4 2 (bytes "google")
      (bytes "state") (bytes "token") (bytes "handoff") (bytes "ann") answered-AreStaged
