-- ===== src/Identity/Statements/Outbox/Claims.antt =====
-- Claims on outbox events (services/identity/db/queries/outbox.sql): one relay at a time has one.
use flowspace_api.Base.{
  ℕ, ◌+◌, ◌<◌, ◌≤◌, Bool, true, false, ◌&&◌, ◌||◌, ◌++◌, ltb, leb, ◌≡◌, ◌≢◌, refl, ◌==◌, List, [],
  ◌∷◌, Option, none, some, update, any, All, All-update-All, Text, Bool-cases, Option-cases, inl,
  inr, arith, sym, ap, subst, ◌∙◌,
}
use flowspace_api.Identity.Database.{Database, ChallengeRow, OutboxRow}
use flowspace_api.Identity.Run.{Env, World, ok, tick}
use flowspace_api.Identity.Run.Laws.{exec-ok, exec-run}
use flowspace_api.Identity.Statements.Outbox.{
  is_due, is_unclaimed, first_of_two, first_due, lease, claim, claim_in, claim_outbox_event,
  goes_before,
}

-- The event that a claim takes passes the test, and has what all events have.
first_of :
    (P : OutboxRow → Type 0) (p : OutboxRow → Bool) (r : OutboxRow) (o : Option OutboxRow)
    {s : OutboxRow}
    → P r × (p r ≡ true)
    → ((t : OutboxRow) → o ≡ some t → P t × (p t ≡ true))
    → first_of_two r o ≡ some s
    → P s × (p s ≡ true)
first_of P p r none hr ho h = subst (λ x. P x × (p x ≡ true)) (cc) hr
first_of P p r (some t) hr ho h = elim (Bool-cases (goes_before t r)) [
  | inl b ↦ subst (λ x. P x × (p x ≡ true)) (ground arith) (ho t refl)
  | inr b ↦ subst (λ x. P x × (p x ≡ true)) (ground arith) hr
]

first_due-some :
    (P : OutboxRow → Type 0) (p : OutboxRow → Bool) (rs : List OutboxRow) {r : OutboxRow}
    → All P rs
    → first_due p rs ≡ some r
    → P r × (p r ≡ true)
unfolding first_due
first_due-some P p [] a h = absurd (ground arith)
first_due-some P p (s ∷ rs) {r} a h = elim (Bool-cases (p s)) [
  | inl b ↦
      first_of P p s (first_due p rs) (a.0, b) (λ t. first_due-some P p rs {r = t} (a.1))
        (rw (b) at h)
  | inr b ↦ first_due-some P p rs (a.1) (rw (b) at h)
]

-- What a claim leaves: each row of the claimed event is held until the lease is over.
abbrev IsHeld : ℕ → ℕ → OutboxRow → Type 0
IsHeld id until r = r.id ≡ id → r.claimed_until ≡ some until

claim_in-some :
    (owner : Text) (now : ℕ) (d : Database) {r : OutboxRow}
    → (claim_in owner now d).0 ≡ some r
    → (s : OutboxRow) × (first_due (is_due now d.challenges) d.outbox ≡ some s)
      × (r ≡ claim owner now s)
      × ((claim_in owner now d).1.outbox ≡ update (λ t. t.id == s.id) (claim owner now) d.outbox)
unfolding claim_in
claim_in-some owner now d {r} h =
    elim (Option-cases (first_due (is_due now d.challenges) d.outbox)) [
      | inl b ↦ absurd (ground arith)
      | inr (s, b) ↦ (s, b, ground arith, ground arith)
    ]

held_not_due :
    (r : OutboxRow) (challenges : List ChallengeRow) (now until : ℕ)
    → r.claimed_until ≡ some until
    → now < until
    → is_due now challenges r ≢ true
held_not_due r challenges now until h t due = ground (arith, due)

-- An event has one owner at a time: after a claim, no claim before the lease of 30 seconds is over
-- takes the same event.
pub claim_outbox_event-exclusive :
    (e : Env) (w v u : World) (owner other : Text) (r s : OutboxRow)
    → claim_outbox_event owner e w ≡ ok (some r) v
    → claim_outbox_event other e v ≡ ok (some s) u
    → e.statement_timestamp v.step < e.statement_timestamp w.step + lease
    → s.id ≢ r.id
unfolding claim_outbox_event
claim_outbox_event-exclusive e w v u owner other r s h k t same =
    let (a, b) = exec-ok _ e w h in
    let (c, d) = exec-ok _ e v k in
    let (r0, f, g, after) = claim_in-some owner (e.statement_timestamp w.step) w.db (sym a) in
    let (s0, f2, g2, after2) = claim_in-some other (e.statement_timestamp v.step) v.db (sym c) in
    let held =
      All-update-All (IsHeld (r0.id) (e.statement_timestamp w.step + lease)) (λ t. t.id == r0.id)
        (claim owner (e.statement_timestamp w.step)) (w.db.outbox) (λ x p q. refl)
        (λ x p q. ground arith) in
    let (hs, due) =
      first_due-some (IsHeld (r0.id) (e.statement_timestamp w.step + lease)) _ (v.db.outbox)
        (subst (All (IsHeld (r0.id) (e.statement_timestamp w.step + lease)))
          (sym (ap (λ x. x.db.outbox) b ∙ after)) held)
        f2 in
    held_not_due s0 v.db.challenges (e.statement_timestamp v.step)
      (e.statement_timestamp w.step + lease)
      (hs (sym (ap (λ x. x.id) g2) ∙ same ∙ ap (λ x. x.id) g)) t due

-- Of two events, the one that is taken is due no later than either.
first_of_two-le :
    (r s : OutboxRow) (limit : ℕ)
    → s.next_attempt_at ≤ limit
    → (t : OutboxRow) × (first_of_two r (some s) ≡ some t) × (t.next_attempt_at ≤ limit)
first_of_two-le r s limit h = elim (Bool-cases (goes_before s r)) [
  | inl b ↦ (s, rw (b) refl, h)
  | inr b ↦ (r, rw (b) refl, not_later r.next_attempt_at s.next_attempt_at limit _ b h)
]
  where
    not_later : (a b limit : ℕ) (c : Bool) → (ltb b a || c) ≡ false → b ≤ limit → a ≤ limit
    not_later a b limit c k h = ground (arith, k)

first_due-head :
    (r : OutboxRow) (o : Option OutboxRow)
    → (t : OutboxRow) × (first_of_two r o ≡ some t) × (t.next_attempt_at ≤ r.next_attempt_at)
first_due-head r none = (r, refl, omega arith)
first_due-head r (some s) = elim (Bool-cases (goes_before s r)) [
  | inl b ↦ (s, rw (b) refl, earlier s.next_attempt_at r.next_attempt_at _ b)
  | inr b ↦ (r, rw (b) refl, omega arith)
]
  where
    earlier : (a b : ℕ) (c : Bool) → (ltb a b || (a == b && c)) ≡ true → a ≤ b
    earlier a b c k = ground (arith, k)

-- A row that passes the test is found, or one that is due no later.
first_due-le :
    (p : OutboxRow → Bool) (before after : List OutboxRow) (r : OutboxRow)
    → p r ≡ true
    → (t : OutboxRow) × (first_due p (before ++ r ∷ after) ≡ some t)
      × (t.next_attempt_at ≤ r.next_attempt_at)
unfolding first_due
first_due-le p [] after r h = rw (h) (first_due-head r (first_due p after))
first_due-le p (x ∷ before) after r h =
    let (s, found, earlier) = first_due-le p before after r h in
    elim (Bool-cases (p x)) [
      | inl b ↦ rw (b, found) (first_of_two-le x s r.next_attempt_at earlier)
      | inr b ↦ rw (b) (s, found, earlier)
    ]

claim_in-due :
    (owner : Text) (now : ℕ) (d : Database) (r : OutboxRow)
    → first_due (is_due now d.challenges) d.outbox ≡ some r
    → (claim_in owner now d).0 ≡ some (claim owner now r)
unfolding claim_in
claim_in-due owner now d r h = rw (h, claim_in) refl

unclaimed :
    (now : ℕ) (r : OutboxRow)
    → ((t : ℕ) → r.claimed_until ≡ some t → t ≤ now)
    → is_unclaimed now r ≡ true
unclaimed now r h = elim (Option-cases r.claimed_until) [
  | inl b ↦ rw (b) refl
  | inr (t, b) ↦ rw (b) (reached t now (h t b))
]
  where
    reached : (t now : ℕ) → t ≤ now → leb t now ≡ true
    reached t now k = ground arith

due :
    (now : ℕ) (challenges : List ChallengeRow) (r : OutboxRow)
    → any (λ c. c.id == r.challenge_id) challenges ≡ true
    → r.published_at ≡ none
    → r.next_attempt_at ≤ now
    → is_unclaimed now r ≡ true
    → is_due now challenges r ≡ true
due now challenges r known unpublished ready free = ground (arith, known, unpublished, free)

-- While some event of a known challenge is unpublished, its next attempt is due, and it was never
-- claimed or its claim has ended, a claim whose statement does not fail takes an event: for the owner,
-- for a lease from now on, and one whose next attempt was due no later.
pub claim_outbox_event-finds :
    (owner : Text) (e : Env) (w : World) (before after : List OutboxRow) (r : OutboxRow)
    → e.fault w.step ≡ none
    → w.db.outbox ≡ before ++ r ∷ after
    → any (λ c. c.id == r.challenge_id) w.db.challenges ≡ true
    → r.published_at ≡ none
    → r.next_attempt_at ≤ e.statement_timestamp w.step
    → ((t : ℕ) → r.claimed_until ≡ some t → t ≤ e.statement_timestamp w.step)
    → (s : OutboxRow) × (v : World) × (claim_outbox_event owner e w ≡ ok (some s) v)
      × (s.claim_owner ≡ some owner)
      × (s.claimed_until ≡ some (e.statement_timestamp w.step + lease))
      × (s.next_attempt_at ≤ r.next_attempt_at)
unfolding claim_outbox_event
claim_outbox_event-finds owner e w before after r quiet rows known unpublished ready ended =
    let now = e.statement_timestamp w.step in
    let test = is_due now w.db.challenges in
    let (s, found, earlier) =
      first_due-le test before after r
        (due now w.db.challenges r known unpublished ready (unclaimed now r ended)) in
    (
      claim owner now s,
      record (tick w) { db = (claim_in owner now w.db).1 },
      exec-run (claim_in owner) e w quiet
          ∙ ap (λ o. ok o (record (tick w) { db = (claim_in owner now w.db).1 }))
              (claim_in-due owner now w.db s (ap (first_due test) rows ∙ found)),
      refl,
      refl,
      earlier,
    )
