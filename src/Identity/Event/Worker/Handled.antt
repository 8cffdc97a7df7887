-- ===== src/Identity/Event/Worker/Handled.antt =====
-- When a record is committed, and when the loop cleans up
-- (services/identity/internal/adapter/in/event/email_worker.go).
use flowspace_api.Base.{
  ℕ, ◌+◌, ◌<◌, ◌≤◌, ◌≡◌, refl, Bool, true, false, not, ltb, arith, sym, ap, subst, ◌∙◌, some,
  if◌then◌else◌, ◌⊎◌, inl, inr,
}
use flowspace_api.Identity.Errors.{Err, is, deadline_exceeded}
use flowspace_api.Identity.Run.{
  Env, World, ok, fail, time_now, tick, Attempted, value, error, attempt, check_context, ◌>>=◌,
}
use flowspace_api.Identity.Run.Laws.{bind-ok, pure-ok, attempt-value, map_err-ok}
use flowspace_api.Identity.Domain.Challenge.{minute}
use flowspace_api.Identity.Repository.Delivery.{purge_terminal}
use flowspace_api.Identity.Event.Worker.{
  EmailWorker, KafkaRecord, handle_record, finish_record, process_record, clean_up, go_on,
  after_poll, loop_round,
}

finish_record-ok :
    (worker : EmailWorker) (r : KafkaRecord) (handled : Attempted (Unit {0})) (e : Env)
    (w v : World) (u : Unit {0})
    → finish_record worker r handled e w ≡ ok u v
    → (handled ≡ value tt) × (worker.commit_records r e w ≡ ok tt v)
unfolding finish_record
finish_record-ok worker r (error x) e w v u h =
    let (ignored, w1, r1, h1) = bind-ok _ _ e w h in absurd (ground arith)
finish_record-ok worker r (value s) e w v u h = (refl, map_err-ok _ _ e w h)

-- A record is processed without error only if it was handled without error and, after that, its
-- offset was committed.
pub process_record-committed :
    (worker : EmailWorker) (r : KafkaRecord) (e : Env) (w v : World) (u : Unit {0})
    → process_record worker r e w ≡ ok u v
    → (between : World) × (handle_record worker (some r) e w ≡ ok tt between)
      × (worker.commit_records r e between ≡ ok tt v)
unfolding process_record
process_record-committed worker r e w v u h =
    let (handled, w1, r1, h1) = bind-ok _ _ e w h in
    let (same, committed) = finish_record-ok worker r handled e w1 v u h1 in
    (w1, attempt-value (handle_record worker (some r)) e w (r1 ∙ ap (λ x. ok x w1) same), committed)

time_now-ok :
    (e : Env) (w v : World) {t : ℕ} → time_now e w ≡ ok t v → (t ≡ e.time_now w.step) × (v ≡ tick w)
unfolding time_now
time_now-ok e w v h = ground arith

go_on-ok :
    (next : ℕ) (x : Err) (live : Attempted (Unit {0})) (e : Env) (w v : World) (t : ℕ)
    → go_on next x live e w ≡ ok t v
    → next ≡ t
unfolding go_on
go_on-ok next x (value u) e w v t h = (pure-ok h).0
go_on-ok next x (error y) e w v t h = absurd (ground arith)

after_poll-ok :
    (next : ℕ) (polled : Attempted Bool) (e : Env) (w v : World) (t : ℕ)
    → after_poll next polled e w ≡ ok t v
    → next ≡ t
unfolding after_poll
after_poll-ok next (value found) e w v t h =
    let (u, w1, r1, h1) = bind-ok _ _ e w h in (pure-ok h1).0
after_poll-ok next (error x) e w v t h = by_deadline (is x deadline_exceeded) h
  where
    by_deadline :
        (b : Bool)
        → (if b then ((attempt check_context) >>= λ live. go_on next x live) else fail x) e w
          ≡ ok t v
        → next ≡ t
    by_deadline true k =
        let (live, w1, r1, h1) = bind-ok _ _ e w k in go_on-ok next x live e w1 v t h1
    by_deadline false k = absurd (ground arith)

clean_up-ok :
    (due : Bool) (next : ℕ) (e : Env) (w v : World) (t : ℕ)
    → clean_up due next e w ≡ ok t v
    → ((due ≡ false) × (t ≡ next))
      ⊎ ((purged : World) × (due ≡ true)
          × (purge_terminal e w ≡ ok tt purged)
          × (t ≡ e.time_now purged.step + minute))
unfolding clean_up
clean_up-ok false next e w v t h = inl (refl, sym (pure-ok h).0)
clean_up-ok true next e w v t h =
    let (u, w1, r1, h1) = bind-ok _ _ e w h in
    let (now, w2, r2, h2) = bind-ok _ _ e w1 h1 in
    inr (
      w1,
      refl,
      map_err-ok _ _ e w r1,
      sym (pure-ok h2).0 ∙ ap (λ n. n + minute) (time_now-ok e w1 w2 r2).0,
    )

-- A round of the loop that ends without an error either began before the next cleanup, whose time
-- it leaves, or it purged the deliveries that are over and set the next cleanup to a minute after
-- the time that it read then.
loop_round-cleanup :
    (worker : EmailWorker) (next : ℕ) (e : Env) (w v : World) (t : ℕ)
    → loop_round worker next e w ≡ ok t v
    → ((e.time_now w.step < next) × (t ≡ next))
      ⊎ ((purged : World) × (next ≤ e.time_now w.step)
          × (purge_terminal e (tick w) ≡ ok tt purged)
          × (t ≡ e.time_now purged.step + minute))
unfolding loop_round
loop_round-cleanup worker next e w v t h =
    let (now, w1, r1, h1) = bind-ok _ _ e w h in
    let (then', w2, r2, h2) = bind-ok _ _ e w1 h1 in
    let (polled, w3, r3, h3) = bind-ok _ _ e w2 h2 in
    let (at, ticked) = time_now-ok e w w1 r1 in
    let kept = after_poll-ok then' polled e w3 v t h3 in
    elim (clean_up-ok (not (ltb now next)) next e w1 w2 then' r2) [
      | inl (early, same) ↦
          inl (early_before now next (e.time_now w.step) at early, sym kept ∙ same)
      | inr (purged, late, ran, after) ↦ inr (
        purged,
        late_after now next (e.time_now w.step) at late,
        subst (λ x. purge_terminal e x ≡ ok tt purged) ticked ran,
        sym kept ∙ after,
      )
    ]
  where
    early_before : (now next t : ℕ) → now ≡ t → not (ltb now next) ≡ false → t < next
    early_before now next t same h = ground arith

    late_after : (now next t : ℕ) → now ≡ t → not (ltb now next) ≡ true → next ≤ t
    late_after now next t same h = ground arith
