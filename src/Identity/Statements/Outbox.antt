-- ===== src/Identity/Statements/Outbox.antt =====
-- services/identity/db/queries/outbox.sql. The trace context of an event is left out.
pub mod Claims
pub mod Notices
use flowspace_api.Base.{
  ℕ, suc, ◌+◌, ◌*◌, Bool, true, false, ◌&&◌, ◌||◌, List, [], ◌∷◌, Option, none, some, ltb, leb,
  ◌==◌, if◌then◌else◌, find, any, update, count, Text, text_eq, is_none, is_some,
}
use flowspace_api.Identity.Errors.{constraint, other_constraint}
use flowspace_api.Identity.Database.{Database, Account, ChallengeRow, OutboxRow}
use flowspace_api.Identity.Run.{M, Reply, rows, rejected, statement, exec}
use flowspace_api.Identity.Domain.Challenge.{second}

-- The keys of the table: the id and the challenge.
unfoldable pub create_outbox_event : ℕ → M ℕ
create_outbox_event challenge_id = statement (λ now id d.
    if any (λ r. r.id == id || r.challenge_id == challenge_id) d.outbox
    then rejected (constraint other_constraint)
    else rows id (record d {
      outbox =
          record {
            id = id;
            challenge_id = challenge_id;
            created_at = now;
            next_attempt_at = now;
            attempt_count = 0;
            claim_owner = none;
            claimed_until = none;
            published_at = none;
          }
          ∷ d.outbox;
    }))

-- `claimed_until IS NULL OR claimed_until <= statement_timestamp()`
abbrev pub is_unclaimed : ℕ → OutboxRow → Bool
is_unclaimed now r = elim (r.claimed_until) [ none ↦ true | some t ↦ leb t now ]

abbrev pub is_due : ℕ → List ChallengeRow → OutboxRow → Bool
is_due now challenges r =
    any (λ c. c.id == r.challenge_id) challenges
    && is_none r.published_at
    && leb r.next_attempt_at now
    && is_unclaimed now r

-- `ORDER BY event.next_attempt_at, event.created_at`
abbrev pub goes_before : OutboxRow → OutboxRow → Bool
goes_before r s =
    ltb r.next_attempt_at s.next_attempt_at
    || (r.next_attempt_at == s.next_attempt_at && ltb r.created_at s.created_at)

abbrev pub first_of_two : OutboxRow → Option OutboxRow → Option OutboxRow
first_of_two r none = some r
first_of_two r (some s) = if goes_before s r then some s else some r

unfoldable pub first_due : (OutboxRow → Bool) → List OutboxRow → Option OutboxRow
first_due p [] = none
first_due p (r ∷ rs) = let rest = first_due p rs in if p r then first_of_two r rest else rest

abbrev pub lease : ℕ
lease = 30 * second

abbrev pub claim : Text → ℕ → OutboxRow → OutboxRow
claim owner now r = record r { claim_owner = some owner; claimed_until = some (now + lease) }

unfoldable pub claim_in : Text → ℕ → Database → Option OutboxRow × Database
unfolding first_due
claim_in owner now d = elim (first_due (is_due now d.challenges) d.outbox) [
  | none ↦ (none, d)
  | some r ↦ (
    some (claim owner now r),
    record d { outbox = update (λ s. s.id == r.id) (claim owner now) d.outbox },
  )
]

unfoldable pub claim_outbox_event : Text → M (Option OutboxRow)
unfolding claim_in
claim_outbox_event owner = exec (claim_in owner)

-- The owner's claim has not run out, and the event is not published.
abbrev pub holds_claim : ℕ → Text → ℕ → OutboxRow → Bool
holds_claim id owner now r =
    r.id == id
    && (elim (r.claim_owner) [ none ↦ false | some o ↦ text_eq o owner ])
    && (elim (r.claimed_until) [ none ↦ false | some t ↦ ltb now t ])
    && is_none r.published_at

abbrev pub publish : ℕ → OutboxRow → OutboxRow
publish now r = record r { published_at = some now; claim_owner = none; claimed_until = none }

abbrev pub release : ℕ → OutboxRow → OutboxRow
release next_attempt r = record r {
  attempt_count = suc r.attempt_count;
  next_attempt_at = next_attempt;
  claim_owner = none;
  claimed_until = none;
}

abbrev pub update_outbox : (OutboxRow → Bool) → (OutboxRow → OutboxRow) → Database → ℕ × Database
update_outbox p f d = (count p d.outbox, record d { outbox = update p f d.outbox })

unfoldable pub mark_outbox_published : ℕ → Text → M ℕ
mark_outbox_published id owner =
    exec (λ now d. update_outbox (holds_claim id owner now) (publish now) d)

unfoldable pub release_outbox_claim : ℕ → Text → ℕ → M ℕ
release_outbox_claim id owner next_attempt =
    exec (λ now d. update_outbox (holds_claim id owner now) (release next_attempt) d)

-- A notice for the verified, active account of the subject; none otherwise.
unfoldable pub notice_for : Text → ℕ → ℕ → Database → Option Account → Reply (Option ℕ)
notice_for subject now id d none = rows none d
notice_for subject now id d (some a) =
    if any (λ n. n.id == id) d.notices
    then rejected (constraint other_constraint)
    else rows (some id) (record d {
      notices =
          record {
            id = id;
            account_subject = subject;
            email_local = a.email_local;
            email_domain = a.email_domain;
            created_at = now;
            next_attempt_at = now;
            attempt_count = 0;
            delivered_at = none;
          }
          ∷ d.notices;
    })

unfoldable pub queue_password_change_notice : Text → M (Option ℕ)
unfolding notice_for
queue_password_change_notice subject = statement (λ now id d. notice_for subject now id d (
    find (λ a. text_eq a.subject subject && is_some a.email_verified_at && is_none a.retired_at)
      d.accounts))
