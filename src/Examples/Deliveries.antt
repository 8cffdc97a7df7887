-- ===== src/Examples/Deliveries.antt =====
-- The relay, the worker and a notice run at concrete inputs, with a broker and a sender that refuse
-- everything, and with a worker whose records are of no use any more.
use flowspace_api.Identity.App.Sessions.{becomes}
use flowspace_api.Identity.Domain.Challenge.{purpose_reauthenticate, valid_purpose}
use flowspace_api.Identity.Event.Worker.{
  finish_record, request_of, send_current, valid_delivery_purpose, after_poll, clean_up, go_on,
  process_first, run_once,
}
use flowspace_api.Identity.Repository.Delivery.{
  deliver_current, deliver_for, is_current_delivery, send_material,
}
use flowspace_api.Identity.Repository.Transactions.{
  commit_checked, commit_error, commit_transaction, get_transaction, row_or, transact,
  open_transaction,
}
use flowspace_api.Identity.Statements.Deliveries.{
  delete_challenge_delivery, get_challenge_delivery, get_delivery_challenge_for_update,
  wants_verified, get_delivery_account_for_update, is_terminal,
}
use flowspace_api.Identity.Statements.Sessions.{
  check_reauthentication_deadline, queue_session_reauthentication_check,
  set_reauthentication_deadline, stamp_session_reauthentication,
}
use flowspace_api.Identity.Errors.{is, tag}
use flowspace_api.Identity.Run.{check_context, query}
use flowspace_api.Identity.Statements.Limits.{plain_statement}
use flowspace_api.Base.{
  ℕ, ◌+◌, ◌<◌, ◌≤◌, ◌≡◌, refl, ◌⊎◌, true, false, none, some, Option, List, [], ◌∷◌, any, bytes, map,
  arith,
}
use flowspace_api.Identity.Errors.{sentinel, delivery_broker, email_delivery}
use flowspace_api.Identity.Database.{OutboxRow, Notice}
use flowspace_api.Identity.Run.{World, M, pure, fail, tick, ok, exec, statement}
use flowspace_api.Identity.Run.Laws.{world_of}
use flowspace_api.Identity.Domain.Challenge.{minute, purpose_password_reset}
use flowspace_api.Identity.Statements.Outbox.{claim_outbox_event, lease}
use flowspace_api.Identity.Statements.Outbox.Claims.{claim_outbox_event-finds}
use flowspace_api.Identity.Repository.Delivery.{purge_terminal}
use flowspace_api.Identity.Repository.Notices.{with_next_password_change_notice}
use flowspace_api.Identity.Repository.Notices.Kept.{with_next_password_change_notice-keeps}
use flowspace_api.Identity.Event.Relay
use flowspace_api.Identity.Event.Relay.Unpublished.{publication, run_once-unpublished}
use flowspace_api.Identity.Event.Worker.{
  EmailWorker, KafkaRecord, handle_record, process_record, loop_round,
}
use flowspace_api.Identity.Event.Worker.Handled.{process_record-committed}
use flowspace_api.Examples.Worlds.{quiet, start, tables, zeros}

abbrev due_event : OutboxRow
due_event = record {
  id = 9;
  challenge_id = 3;
  created_at = 20;
  next_attempt_at = 20;
  attempt_count = 0;
  claim_owner = none;
  claimed_until = none;
  published_at = none;
}

abbrev due_notice : Notice
due_notice = record {
  id = 6;
  account_subject = bytes "ann";
  email_local = bytes "ann";
  email_domain = bytes "b.org";
  created_at = 20;
  next_attempt_at = 20;
  attempt_count = 0;
  delivered_at = none;
}

abbrev waiting : World
waiting = record start { db = record tables { outbox = due_event ∷ []; notices = due_notice ∷ [] } }

abbrev refuses : {A : Type 0} → A → M (Unit {0})
refuses a = fail (sentinel delivery_broker)

claim_outbox_event-finds_example :
    (s : OutboxRow) × (v : World) × (claim_outbox_event (bytes "relay") quiet waiting
      ≡ ok (some s) v)
    × (s.claim_owner ≡ some (bytes "relay"))
    × (s.claimed_until ≡ some (quiet.statement_timestamp waiting.step + lease))
    × (s.next_attempt_at ≤ due_event.next_attempt_at)
claim_outbox_event-finds_example =
    claim_outbox_event-finds (bytes "relay") quiet waiting [] [] due_event refl refl refl refl
      (omega arith) (λ t claimed. absurd (ground arith))

run_once-unpublished_example :
    map publication ((world_of (Relay.run_once refuses (bytes "relay") quiet waiting)).db.outbox)
    ≡ (9, none) ∷ []
run_once-unpublished_example =
    run_once-unpublished refuses (bytes "relay") quiet waiting
      (λ request e w. (sentinel delivery_broker, w, refl, refl))

with_next_password_change_notice-keeps_example :
    map (λ n. n.id) ((world_of (with_next_password_change_notice refuses quiet waiting)).db.notices)
    ≡ 6 ∷ []
with_next_password_change_notice-keeps_example =
    with_next_password_change_notice-keeps refuses quiet waiting
      (λ email e w. (sentinel delivery_broker, w, refl, refl))

abbrev reset_record : KafkaRecord
reset_record = record {
  topic = bytes "email";
  partition = 0;
  leader_epoch = 0;
  offset = 4;
  key = bytes "ev";
  value = bytes "x";
}

-- The delivery of the record was made before.
abbrev idle_worker : EmailWorker
idle_worker = record {
  decode_id = λ s. some (1, s);
  decode_index = λ s. some s;
  unmarshal = λ s.
      some (record {
        event_id = bytes "ev";
        challenge_id = zeros 3;
        purpose = purpose_password_reset;
      });
  open_material = λ i p s m. fail (sentinel email_delivery);
  send = λ a c p. fail (sentinel email_delivery);
  send_password_change_notice = λ a. fail (sentinel email_delivery);
  poll_records = λ deadline. pure (record { has_errors = false; records = reset_record ∷ [] });
  commit_records = λ r. pure tt;
  set_offsets = λ r. pure tt;
}

abbrev processed : World
processed = world_of (process_record idle_worker reset_record quiet start)

process_run : process_record idle_worker reset_record quiet start ≡ ok tt processed
unfolding process_record becomes purpose_reauthenticate valid_purpose finish_record handle_record
    request_of send_current valid_delivery_purpose deliver_current deliver_for is_current_delivery
    send_material commit_checked commit_error commit_transaction get_transaction row_or transact
    exec statement delete_challenge_delivery get_challenge_delivery
    get_delivery_challenge_for_update wants_verified check_reauthentication_deadline
    queue_session_reauthentication_check set_reauthentication_deadline
    stamp_session_reauthentication flowspace_api.Identity.Run.◌>>=◌
    flowspace_api.Identity.Run.attempt flowspace_api.Identity.Run.asks
    flowspace_api.Identity.Run.refuse_if flowspace_api.Base.text_eq purpose_password_reset
    flowspace_api.Identity.Domain.Challenge.purpose_verify_email
    flowspace_api.Identity.Domain.Challenge.purpose_claim_account flowspace_api.Identity.Run.map_err
    flowspace_api.Identity.Repository.Delivery.with_current_delivery
    flowspace_api.Identity.Repository.Transactions.parse_uuid_or
    flowspace_api.Identity.Repository.Transactions.within_transaction plain_statement query
    open_transaction get_delivery_account_for_update
process_run = refl

process_record-committed_example :
    (between : World) × (handle_record idle_worker (some reset_record) quiet start ≡ ok tt between)
    × (◌≡◌ {A = flowspace_api.Identity.Run.Outcome (Unit {0})} (ok tt between) (ok tt processed))
process_record-committed_example =
    process_record-committed idle_worker reset_record quiet start processed tt process_run

abbrev after_round : World
after_round = world_of (loop_round idle_worker 100 quiet start)

round_run : loop_round idle_worker 100 quiet start ≡ ok (102 + minute) after_round
unfolding loop_round process_record becomes purpose_reauthenticate valid_purpose is tag after_poll
    clean_up finish_record go_on handle_record process_first request_of run_once send_current
    valid_delivery_purpose deliver_current deliver_for is_current_delivery send_material
    commit_checked commit_error commit_transaction get_transaction open_transaction row_or transact
    check_context query statement delete_challenge_delivery get_challenge_delivery
    get_delivery_account_for_update get_delivery_challenge_for_update is_terminal wants_verified
    plain_statement check_reauthentication_deadline queue_session_reauthentication_check
    set_reauthentication_deadline stamp_session_reauthentication flowspace_api.Identity.Run.◌>>=◌
    flowspace_api.Identity.Run.time_now flowspace_api.Identity.Run.map_err purge_terminal
    flowspace_api.Identity.Statements.Deliveries.purge_terminal_deliveries exec
    flowspace_api.Identity.Domain.Challenge.purpose_claim_account
    flowspace_api.Identity.Repository.Delivery.with_current_delivery
    flowspace_api.Identity.Repository.Transactions.parse_uuid_or
    flowspace_api.Identity.Repository.Transactions.within_transaction
    flowspace_api.Identity.Run.attempt flowspace_api.Identity.Run.asks
    flowspace_api.Identity.Run.refuse_if flowspace_api.Base.text_eq purpose_password_reset
    flowspace_api.Identity.Domain.Challenge.purpose_verify_email
round_run = refl
