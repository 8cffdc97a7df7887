-- ===== src/Examples/ProviderSessions.antt =====
-- A session and a proof of identity by a provider run at concrete inputs.
use flowspace_api.Identity.App.ProviderSessions.Claimed.{Issues}
use flowspace_api.Identity.App.ProviderReauthentication.Linked.{Proves}
use flowspace_api.Identity.Repository.Transactions.Atomic.{begun}
use flowspace_api.Identity.App.Ports.{Signer, Protector}
use flowspace_api.Identity.Statements.Providers.{get_linked_account_for_update}
use flowspace_api.Encoding.Base64.{letter, pack, sextet, sextets}
use flowspace_api.Identity.App.Ports.{is_one_of, keep_or}
use flowspace_api.Identity.App.ProviderSessions.{reject_handoff}
use flowspace_api.Identity.App.ProviderLogin.{unavailable}
use flowspace_api.Identity.App.ProviderReauthentication.{
  answer_reauthentication, claim, complete_reauthentication_with, open_claimed, open_linked,
  provider_reauthentication_error,
}
use flowspace_api.Identity.App.Reauthentication.{open_window, reauthenticate_unless}
use flowspace_api.Identity.Domain.Code.{decimal, digits_from, frame}
use flowspace_api.Identity.Domain.Reauthentication.{expires_at, is_open}
use flowspace_api.Identity.Errors.{is, is_context, tag}
use flowspace_api.Identity.Repository.Providers.{record_failed_provider_handoff}
use flowspace_api.Identity.Repository.Sessions.{reauthenticate_session, remember_session}
use flowspace_api.Identity.Repository.Transactions.{
  commit_checked, commit_error, commit_transaction, get_transaction, read_window,
  require_commit_before, row_or, transact,
}
use flowspace_api.Identity.Run.{exec, map_err, statement}
use flowspace_api.Identity.Statements.Providers.{record_provider_handoff_failure}
use flowspace_api.Identity.Statements.Sessions.{
  check_reauthentication_deadline, find_session_account, get_session_reauthentication,
  queue_session_reauthentication_check, request_session_reauthentication,
  set_reauthentication_deadline, stamp_session_reauthentication,
}
use flowspace_api.Identity.Statements.Providers
use flowspace_api.Base.{true, false, none, some, [], ◌∷◌, bytes, ◌≡◌, refl, Text, text_eq}
use flowspace_api.Encoding.Base64.{raw_url, encode}
use flowspace_api.Identity.Database.{Attempt}
use flowspace_api.Identity.Run.{World, Outcome, pure, ok, err}
use flowspace_api.Identity.Run.Laws.{world_of}
use flowspace_api.Identity.Domain.ProviderLogin.{
  secret_attempt_token, secret_handoff_code, valid_provider_secret, provider_secret_verifier,
}
use flowspace_api.Identity.Domain.Challenge.{purpose_reauthenticate}
use flowspace_api.Identity.Repository.Transactions.{sooner}
use flowspace_api.Identity.Repository.Accounts.{SubjectAccount}
use flowspace_api.Identity.Repository.Providers.{
  claim_provider_result, lock_linked_account, has_provider_link,
  claim_provider_reauthentication_result,
}
use flowspace_api.Identity.Statements.Providers.{purpose_login}
use flowspace_api.Identity.App.Reauthentication.{session_reauthentication_deadline}
use flowspace_api.Identity.App.ProviderLogin.{ProviderLoginService}
use flowspace_api.Identity.App.ProviderSessions.{
  CreateProviderSessionInput, CreateProviderSessionResult, create_provider_session,
}
use flowspace_api.Identity.App.ProviderSessions.Claimed.{create_provider_session-claimed}
use flowspace_api.Identity.App.ProviderReauthentication.{
  ProviderReauthenticationService, CompleteProviderReauthenticationInput,
  complete_provider_reauthentication,
}
use flowspace_api.Identity.App.ProviderReauthentication.Linked.{
  complete_provider_reauthentication-linked,
}
use flowspace_api.Examples.Worlds.{quiet, start, tables, zeros}

abbrev secret : Text
secret = encode raw_url (zeros 32)

abbrev answered : Attempt
answered = record {
  id = 7;
  provider = bytes "google";
  attempt_token_verifier = provider_secret_verifier quiet (zeros 32) secret_attempt_token secret;
  state_verifier = bytes "state";
  code_verifier = bytes "code";
  nonce = none;
  callback_url = bytes "https://f.example/cb";
  purpose = purpose_login;
  account_subject = none;
  session_id = none;
  expires_at = 4000;
  state_consumed_at = some 50;
  provider_subject = some (bytes "g-1");
  provider_email = none;
  provider_email_verified = false;
  provider_hosted_domain = none;
  handoff_code_verifier =
      some (provider_secret_verifier quiet (zeros 32) secret_handoff_code secret);
  failed_at = none;
  session_claimed_at = none;
  reauthentication_claimed_at = none;
  handoff_failures = 0;
}

-- The account of the example, linked to the identity of the result.
abbrev linked : Attempt → World
linked a = record start {
  db = record tables {
    attempts = a ∷ [];
    links =
        record {
          provider = bytes "google";
          provider_subject = bytes "g-1";
          account_subject = bytes "ann";
        }
        ∷ [];
  };
}

abbrev logins : ProviderLoginService
logins = record {
  has_repository = true;
  source_limit = none;
  callback_limit = none;
  verifier_key = zeros 32;
  clients = λ p. none;
  has_sessions = true;
  signer = some (λ claims. pure (bytes "jwt"));
  protector = some (λ i p s a c. pure (record { key_version = 1; nonce = []; ciphertext = c }));
  failure_limit = some (λ key. pure tt);
  encode_query = λ q. [];
}

abbrev handoff : CreateProviderSessionInput
handoff = record { attempt_token = secret; handoff_code = secret; source = bytes "1.2.3.4" }

abbrev no_result : CreateProviderSessionResult
no_result = record {
  subject = [];
  email_verified = false;
  tokens = record {
    access_token = [];
    refresh_token = [];
    access_token_expires_at = 0;
    refresh_token_expires_at = 0;
    session_expires_at = 0;
  };
}

abbrev value_or : {A : Type 0} → A → Outcome A → A
value_or d (ok a v) = a
value_or d (err x v) = d

abbrev signed_in : CreateProviderSessionResult
signed_in = value_or no_result (create_provider_session logins handoff quiet (linked answered))

abbrev after_sign_in : World
after_sign_in = world_of (create_provider_session logins handoff quiet (linked answered))

session_run :
    create_provider_session logins handoff quiet (linked answered) ≡ ok signed_in after_sign_in
unfolding create_provider_session frame secret_attempt_token secret_handoff_code purpose_login
    lock_linked_account get_linked_account_for_update flowspace_api.Identity.Run.◌>>=◌
    flowspace_api.Identity.Run.refuse_if valid_provider_secret flowspace_api.Encoding.Base64.decode
    encode flowspace_api.Identity.Run.asks flowspace_api.Identity.Run.attempt
    flowspace_api.Identity.Repository.Transactions.within_transaction
    flowspace_api.Identity.Statements.Limits.plain_statement flowspace_api.Identity.Run.query
    flowspace_api.Identity.Repository.Transactions.open_transaction claim_provider_result
    Providers.claim_provider_login_result exec text_eq provider_secret_verifier
    flowspace_api.Identity.App.Sessions.issue flowspace_api.Identity.Run.rand_read map_err
    flowspace_api.Identity.Repository.Sessions.create
    flowspace_api.Identity.Statements.Sessions.create_session get_transaction
session_run = refl

create_provider_session-claimed_example :
    (valid_provider_secret secret ≡ true)
    × (valid_provider_secret secret ≡ true)
    × (sign : Signer) × (protect : Protector) × (logins.signer ≡ some sign)
    × (logins.protector ≡ some protect)
    × Issues logins handoff sign protect quiet signed_in (begun (linked answered))
create_provider_session-claimed_example =
    create_provider_session-claimed logins handoff quiet (linked answered) after_sign_in signed_in
      session_run

abbrev for_session : Attempt
for_session = record answered {
  purpose = purpose_reauthenticate;
  account_subject = some (bytes "ann");
  session_id = some 2;
}

abbrev proofs : ProviderReauthenticationService
proofs = record {
  login = some logins;
  has_repository = true;
  failure_limit = some (λ key. pure tt);
}

abbrev ann_handoff : CompleteProviderReauthenticationInput
ann_handoff = record {
  subject = bytes "ann";
  session_id = zeros 2;
  attempt_token = secret;
  handoff_code = secret;
  source = bytes "1.2.3.4";
}

abbrev after_proof : World
after_proof =
    world_of (complete_provider_reauthentication proofs ann_handoff quiet (linked for_session))

proof_run :
    complete_provider_reauthentication proofs ann_handoff quiet (linked for_session)
    ≡ ok 5000 after_proof
unfolding complete_provider_reauthentication text_eq letter pack sextet sextets is_one_of keep_or
    reject_handoff unavailable answer_reauthentication claim complete_reauthentication_with
    open_claimed open_linked provider_reauthentication_error open_window reauthenticate_unless
    session_reauthentication_deadline purpose_reauthenticate decimal digits_from frame
    provider_secret_verifier secret_attempt_token secret_handoff_code expires_at is_open is
    is_context tag claim_provider_reauthentication_result has_provider_link
    record_failed_provider_handoff reauthenticate_session remember_session commit_checked
    commit_error commit_transaction get_transaction read_window require_commit_before row_or sooner
    transact exec map_err statement Providers.claim_provider_reauthentication_result
    Providers.has_provider_link record_provider_handoff_failure check_reauthentication_deadline
    find_session_account
    flowspace_api.Identity.Repository.Sessions.lock_session_for_reauthentication
    flowspace_api.Identity.Repository.Accounts.get_active_account_for_session
    flowspace_api.Identity.Repository.Transactions.parse_uuid_or
    flowspace_api.Identity.Statements.Sessions.get_active_account_for_session_for_update
    flowspace_api.Identity.Statements.Limits.plain_statement flowspace_api.Identity.Run.query
    flowspace_api.Identity.Repository.Transactions.open_transaction get_session_reauthentication
    set_reauthentication_deadline queue_session_reauthentication_check
    stamp_session_reauthentication flowspace_api.Identity.Run.◌>>=◌
    flowspace_api.Identity.Run.refuse_if valid_provider_secret flowspace_api.Encoding.Base64.decode
    encode flowspace_api.Identity.Run.asks flowspace_api.Identity.Run.attempt
    flowspace_api.Identity.Repository.Transactions.within_reauthentication_transaction
    flowspace_api.Identity.Repository.Transactions.within_transaction
proof_run = refl

complete_provider_reauthentication-linked_example :
    (login : ProviderLoginService) × (some logins ≡ some login)
    × Proves quiet ann_handoff login (begun (linked for_session))
complete_provider_reauthentication-linked_example =
    complete_provider_reauthentication-linked proofs ann_handoff quiet (linked for_session)
      after_proof 5000 proof_run
