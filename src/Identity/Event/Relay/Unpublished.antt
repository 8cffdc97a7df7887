-- ===== src/Identity/Event/Relay/Unpublished.antt =====
-- An event is marked only after it was published
-- (services/identity/internal/adapter/out/event/outbox_relay.go).
use flowspace_api.Base.{
  ap, update, subst, ◌==◌, ℕ, List, ◌≡◌, refl, sym, ◌∙◌, map, map-update, Option, none, some, Text,
}
use flowspace_api.Identity.Errors.{Err}
use flowspace_api.Identity.Database.{Database, OutboxRow}
use flowspace_api.Identity.Run.{Env, World, M, err, Attempted, value, error}
use flowspace_api.Identity.Run.Laws.{world_of}
use flowspace_api.Identity.Run.Keeps.{
  Keeps, Fails, bind-Keeps, attempt-Keeps, attempt_failing-Keeps, exec-Keeps, time_now-Keeps,
  refuse_if-Keeps, asks-Keeps,
}
use flowspace_api.Identity.Repository.Transactions.Keeps.{parse_uuid_or-Keeps}
use flowspace_api.Identity.Statements.Outbox
use flowspace_api.Identity.Statements.Outbox.{
  claim_outbox_event, release_outbox_claim, claim_in, first_due, is_due,
}
use flowspace_api.Identity.Repository.Outbox.{OutboxEvent, claim, release, event_of}
use flowspace_api.Identity.Event.Relay.{after_publish, publish_claimed, run_once}

abbrev pub publication : OutboxRow → ℕ × Option ℕ
publication r = (r.id, r.published_at)

-- The events with the times at which they were published.
abbrev published : Database → List (ℕ × Option ℕ)
published d = map publication d.outbox

abbrev Publishes : List (ℕ × Option ℕ) → Database → Type 0
Publishes events d = published d ≡ events

event_of-Publishes :
    (events : List (ℕ × Option ℕ)) (found : Option OutboxRow)
    → Keeps (Publishes events) (event_of found)
unfolding event_of
event_of-Publishes events none = λ e w p. p
event_of-Publishes events (some r) = asks-Keeps (Publishes events) _

claim_in-published :
    (owner : Text) (now : ℕ) (d : Database) → published ((claim_in owner now d).1) ≡ published d
unfolding claim_in
claim_in-published owner now d = by_due (first_due (is_due now d.challenges) d.outbox)
  where
    by_due :
        (o : Option OutboxRow)
        → published (
            let out : Option OutboxRow × Database = elim o [
              | none ↦ (none, d)
              | some r ↦ (
                some (Outbox.claim owner now r),
                record d { outbox = update (λ s. s.id == r.id) (Outbox.claim owner now) d.outbox },
              )
            ] in
            out.1)
          ≡ published d
    by_due none = refl
    by_due (some r) =
        map-update publication (λ s. s.id == r.id) (Outbox.claim owner now) d.outbox (λ s. refl)

claim-Publishes :
    (events : List (ℕ × Option ℕ)) (owner : Text) → Keeps (Publishes events) (claim owner)
unfolding claim claim_outbox_event
claim-Publishes events owner =
    bind-Keeps (Publishes events) _ _
      (exec-Keeps (Publishes events) (claim_in owner)
        (λ now d h. claim_in-published owner now d ∙ h))
      (event_of-Publishes events)

release-Publishes :
    (events : List (ℕ × Option ℕ)) (id owner : Text) (next : ℕ)
    → Keeps (Publishes events) (release id owner next)
unfolding release release_outbox_claim
release-Publishes events id owner next =
    bind-Keeps (Publishes events) _ _ (parse_uuid_or-Keeps (Publishes events) _ id) (λ n.
      bind-Keeps (Publishes events) _ _
        (exec-Keeps (Publishes events) _
          (λ now d h. map-update publication _ (Outbox.release next) d.outbox (λ r. refl) ∙ h))
        (λ changed. refuse_if-Keeps (Publishes events) _ _))

after_failure-Publishes :
    (events : List (ℕ × Option ℕ)) (owner : Text) (request : OutboxEvent) (x : Err)
    → Keeps (Publishes events) (after_publish owner request (error x))
unfolding after_publish
after_failure-Publishes events owner request x =
    bind-Keeps (Publishes events) _ _ (time_now-Keeps (Publishes events)) (λ now.
      bind-Keeps (Publishes events) _ _
        (attempt-Keeps (Publishes events) _ (release-Publishes events request.id owner _))
        (λ answer e w p. p))

publish_claimed-Publishes :
    (publish : OutboxEvent → M (Unit {0})) (events : List (ℕ × Option ℕ)) (owner : Text)
    (claimed : Attempted (Option OutboxEvent))
    → ((request : OutboxEvent) → Fails (publish request))
    → ((request : OutboxEvent) → Keeps (Publishes events) (publish request))
    → Keeps (Publishes events) (publish_claimed publish owner claimed)
unfolding publish_claimed
publish_claimed-Publishes publish events owner (error x) never keeps = λ e w p. p
publish_claimed-Publishes publish events owner (value none) never keeps = λ e w p. p
publish_claimed-Publishes publish events owner (value (some request)) never keeps =
    attempt_failing-Keeps (Publishes events) (publish request) (after_publish owner request)
      (never request) (keeps request) (after_failure-Publishes events owner request)

-- While the broker refuses every event, and publishing leaves the outbox, a step of the relay
-- neither loses an event nor marks one as published, whichever of the statements fail.
pub run_once-unpublished :
    (publish : OutboxEvent → M (Unit {0})) (owner : Text) (e : Env) (w : World)
    → ((request : OutboxEvent) (e : Env) (w : World)
        → (x : Err) × (v : World) × (publish request e w ≡ err x v) × (v.db.outbox ≡ w.db.outbox))
    → map publication ((world_of (run_once publish owner e w)).db.outbox)
      ≡ map publication w.db.outbox
unfolding run_once
run_once-unpublished publish owner e w failing =
    let events = published w.db in
    bind-Keeps (Publishes events) _ _
      (attempt-Keeps (Publishes events) _ (claim-Publishes events owner))
      (λ claimed.
        publish_claimed-Publishes publish events owner claimed
          (λ request e w. let (x, v, r, n) = failing request e w in (x, v, r))
          (λ request e w p.
            let (x, v, r, n) = failing request e w in
            subst (λ o. Publishes events ((world_of o).db)) (sym r) (ap (map publication) n ∙ p)))
      e w refl
