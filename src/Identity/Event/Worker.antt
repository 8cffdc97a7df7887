-- ===== src/Identity/Event/Worker.antt =====
-- `EmailWorker` (services/identity/internal/adapter/in/event/email_worker.go). The broker, the
-- opener and the sender are parameters, and so are the decoders of a record; spans, logs and
-- metrics are left out.
pub mod Handled
use flowspace_api.Base.{
  ℕ, suc, zero, ◌+◌, Bool, true, false, not, ◌||◌, List, [], ◌∷◌, Option, none, some, ltb,
  if◌then◌else◌, Text, text_eq, is_none,
}
use flowspace_api.Identity.Errors.{
  Err, sentinel, is, invalid_delivery_event, email_delivery, delivery_broker, deadline_exceeded,
}
use flowspace_api.Identity.Database.{Delivery}
use flowspace_api.Identity.Run.{
  M, Attempted, value, error, pure, fail, refuse_if, asks, attempt, check_context, map_err,
  time_now, ◌>>=◌, ◌>>◌,
}
use flowspace_api.Identity.Domain.Challenge.{minute, valid_purpose}
use flowspace_api.Identity.Repository.Delivery.{
  CurrentDelivery, with_current_delivery, purge_terminal,
}
use flowspace_api.Identity.Repository.Notices.{NoticeResult, with_next_password_change_notice}
use flowspace_api.Identity.App.Sessions.{becomes}

-- kgo.Record
pub record KafkaRecord : Type 0 where
  pub topic : Text
  pub partition : ℕ
  pub leader_epoch : ℕ
  pub offset : ℕ
  pub key : Text
  pub value : Text

-- identityv1.EmailDeliveryRequested
pub record EmailDeliveryRequested : Type 0 where
  pub event_id : Text
  pub challenge_id : Text
  pub purpose : Text

-- kgo.Fetches
pub record Fetches : Type 0 where
  pub has_errors : Bool
  pub records : List KafkaRecord

pub record EmailWorker : Type 0 where
  -- sr.ConfluentHeader.DecodeID and DecodeIndex, and proto.Unmarshal
  pub decode_id : Text → Option (ℕ × Text)
  pub decode_index : Text → Option Text
  pub unmarshal : Text → Option EmailDeliveryRequested
  -- DeliveryOpener.Open: the address and the code
  pub open_material : Text → Text → Text → Delivery → M (Text × Text)
  pub send : Text → Text → Text → M (Unit {0})
  pub send_password_change_notice : Text → M (Unit {0})
  -- PollRecords with the deadline of its context, CommitRecords and SetOffsets
  pub poll_records : ℕ → M Fetches
  pub commit_records : KafkaRecord → M (Unit {0})
  pub set_offsets : KafkaRecord → M (Unit {0})

unfoldable pub valid_delivery_purpose : Text → Bool
unfolding valid_purpose
valid_delivery_purpose purpose = valid_purpose purpose

-- A value that a decoder gives, or the error of an event.
abbrev pub decoded : {A : Type 0} → Option A → M A
decoded none = fail (sentinel invalid_delivery_event)
decoded (some a) = pure a

-- `err != nil || schemaID < 1`
abbrev pub payload_of : ℕ × Text → M Text
payload_of (schema_id, payload) =
    if ltb schema_id 1 then fail (sentinel invalid_delivery_event) else pure payload

unfoldable pub request_of : EmailWorker → KafkaRecord → M EmailDeliveryRequested
unfolding valid_delivery_purpose
request_of worker record' = do
  header ← decoded (worker.decode_id record'.value)
  payload ← payload_of header
  message ← decoded (worker.decode_index payload)
  request ← decoded (worker.unmarshal message)
  event_id ← asks (λ e. e.parse_uuid request.event_id)
  refuse_if (is_none event_id) (sentinel invalid_delivery_event)
  challenge_id ← asks (λ e. e.parse_uuid request.challenge_id)
  refuse_if
      (is_none challenge_id
        || not (text_eq record'.key request.event_id)
        || not (valid_delivery_purpose request.purpose))
      (sentinel invalid_delivery_event)
  pure request

unfoldable pub send_current : EmailWorker → EmailDeliveryRequested → CurrentDelivery → M (Unit {0})
send_current worker request current = do
  (address, code) ←
      map_err (becomes email_delivery)
        (worker.open_material request.challenge_id request.purpose current.subject current.material)
  refuse_if (not (text_eq address current.email)) (sentinel email_delivery)
  map_err (becomes email_delivery) (worker.send address code request.purpose)

unfoldable pub handle_record : EmailWorker → Option KafkaRecord → M (Unit {0})
unfolding request_of send_current becomes
handle_record worker none = fail (sentinel invalid_delivery_event)
handle_record worker (some record') = do
  request ← request_of worker record'
  map_err (becomes email_delivery)
      (with_current_delivery request.challenge_id request.purpose (send_current worker request))

abbrev pub notice_answer : NoticeResult → NoticeResult
notice_answer (found, none) = (found, none)
notice_answer (found, some x) = (found, some (sentinel email_delivery))

-- Whether a notice was found, and the error.
unfoldable pub deliver_password_change_notice : EmailWorker → M NoticeResult
deliver_password_change_notice worker = do
  result ← with_next_password_change_notice worker.send_password_change_notice
  pure (notice_answer result)

-- A record that failed is read again, and one that was handled is committed.
unfoldable pub finish_record : EmailWorker → KafkaRecord → Attempted (Unit {0}) → M (Unit {0})
unfolding becomes
finish_record worker record' (error x) = do ignored ← attempt (worker.set_offsets record'); fail x
finish_record worker record' (value u) =
    map_err (becomes delivery_broker) (worker.commit_records record')

unfoldable pub process_record : EmailWorker → KafkaRecord → M (Unit {0})
unfolding handle_record finish_record
process_record worker record' = do
  handled ← attempt (handle_record worker (some record'))
  finish_record worker record' handled

unfoldable pub process_first : EmailWorker → List KafkaRecord → M Bool
unfolding process_record
process_first worker [] = pure false
process_first worker (record' ∷ rest) = do process_record worker record'; pure true

-- The deadline is that of the context.
unfoldable pub run_once : EmailWorker → ℕ → M Bool
unfolding process_first
run_once worker deadline = do
  fetches ← worker.poll_records deadline
  if fetches.has_errors
      then (do check_context; fail (sentinel delivery_broker))
      else process_first worker fetches.records

-- The purge and the time of the next one.
unfoldable pub clean_up : Bool → ℕ → M ℕ
unfolding becomes
clean_up false next_cleanup = pure next_cleanup
clean_up true next_cleanup = do
  map_err (becomes email_delivery) purge_terminal
  now ← time_now
  pure (now + minute)

-- `ctx.Err()` after the deadline of the poll; the worker goes on if only the poll ran out.
unfoldable pub go_on : ℕ → Err → Attempted (Unit {0}) → M ℕ
go_on next_cleanup x (value u) = pure next_cleanup
go_on next_cleanup x (error y) = fail x

unfoldable pub after_poll : ℕ → Attempted Bool → M ℕ
unfolding go_on
after_poll next_cleanup (value found) = do check_context; pure next_cleanup
after_poll next_cleanup (error x) =
    if is x deadline_exceeded
    then (do live ← attempt check_context; go_on next_cleanup x live)
    else fail x

-- One round of the loop of `Run`, from the time of the next cleanup to that of the one after.
unfoldable pub loop_round : EmailWorker → ℕ → M ℕ
unfolding clean_up run_once after_poll
loop_round worker next_cleanup = do
  now ← time_now
  next ← clean_up (not (ltb now next_cleanup)) next_cleanup
  polled ← attempt (run_once worker next)
  after_poll next polled

-- `Run` for at most this many rounds; it ends before only by an error.
unfoldable pub rounds : ℕ → EmailWorker → ℕ → M ℕ
unfolding loop_round
rounds zero worker next_cleanup = pure next_cleanup
rounds (suc n) worker next_cleanup = do next ← loop_round worker next_cleanup; rounds n worker next

unfoldable pub run : ℕ → EmailWorker → M ℕ
unfolding rounds
run n worker = do next_cleanup ← time_now; rounds n worker next_cleanup
