-- ===== src/Examples/Tables.antt =====
-- Challenges, limits and outbox events run at concrete inputs.
use flowspace_api.Base.{
  ℕ, ◌≤◌, ◌<◌, Bool, none, some, List, [], ◌∷◌, bytes, ◌≡◌, ◌≢◌, refl, count, arith, text_eq,
}
use flowspace_api.Identity.Database.{OutboxRow, LimitCounter}
use flowspace_api.Identity.Run.{World, ok, exec, statement}
use flowspace_api.Identity.Run.Laws.{world_of}
use flowspace_api.Identity.Domain.Challenge.{purpose_password_reset}
use flowspace_api.Identity.Statements.Challenges.{
  increment_challenge_wrong_guess, consume_current_challenge, replace_current_challenge,
  revoke_account_challenges, create_challenge, consume, is_current_for,
}
use flowspace_api.Identity.Statements.Challenges.Lifecycle.{
  AreSound, statements-AreSound, consume_current_challenge-once,
}
use flowspace_api.Identity.Statements.Limits.{Limit, is_window, uses_within, record_limit, shorter}
use flowspace_api.Identity.Statements.Limits.Bound.{IsKeyed, record_limit-bound}
use flowspace_api.Identity.Statements.Outbox.{claim, claim_outbox_event}
use flowspace_api.Identity.Statements.Outbox.Claims.{claim_outbox_event-exclusive}
use flowspace_api.Identity.Statements.Sessions.{day}
use flowspace_api.Examples.Worlds.{quiet, start, tables, ann_challenge}

one_passes : {A : Type 0} (p : A → Bool) (x : A) → count p (x ∷ []) ≤ 1
one_passes p x = ground arith

tables-AreSound : AreSound tables
tables-AreSound = (((omega arith, refl), tt), λ s p. one_passes (is_current_for s p) ann_challenge)

statements-AreSound_example :
    AreSound ((world_of (increment_challenge_wrong_guess 3 quiet start)).db)
    × AreSound ((world_of (consume_current_challenge 3 quiet start)).db)
    × AreSound
        ((world_of (replace_current_challenge (bytes "ann") purpose_password_reset quiet start)).db)
    × AreSound ((world_of (revoke_account_challenges (bytes "ann") quiet start)).db)
    × AreSound (
        (world_of (
          create_challenge
            (bytes "ann")
            purpose_password_reset
            (bytes "ann")
            (bytes "b.org")
            []
            quiet
            start)).db)
statements-AreSound_example =
    statements-AreSound quiet start 3 (bytes "ann") purpose_password_reset (bytes "ann")
      (bytes "b.org") [] tables-AreSound

-- The first statement of a run is at time 100.
abbrev consumed_once : World
consumed_once = record start {
  db = record tables { challenges = consume 100 ann_challenge ∷ [] };
  step = 1;
}

first_consume : consume_current_challenge 3 quiet start ≡ ok 1 consumed_once
unfolding consume_current_challenge exec statement
first_consume = refl

second_consume :
    consume_current_challenge 3 quiet consumed_once ≡ ok 0 (record consumed_once { step = 2 })
unfolding consume_current_challenge exec statement
second_consume = refl

consume_current_challenge-once_example : ◌≡◌ {A = ℕ} 0 0
consume_current_challenge-once_example =
    consume_current_challenge-once quiet start consumed_once (record consumed_once { step = 2 }) 3 1
      0 first_consume (omega arith) second_consume

abbrev twice : Limit
twice = record { maximum = 2; daily_maximum = 3; window = 1000; interval = 0 }

abbrev one_use : LimitCounter
one_use = record {
  scope = bytes "source";
  counter_key = bytes "k";
  action = bytes "signup";
  window_start = 10;
  uses = 1;
}

abbrev two_uses : List LimitCounter
two_uses = record one_use { window_start = 20 } ∷ one_use ∷ []

one_use-IsKeyed : IsKeyed (one_use ∷ [])
one_use-IsKeyed scope key action time = one_passes (is_window scope key action time) one_use

second_use :
    record_limit (bytes "source") (bytes "k") (bytes "signup") twice 20 (one_use ∷ [])
    ≡ some two_uses
unfolding record_limit text_eq
second_use = refl

record_limit-bound_example :
    (uses_within (bytes "source") (bytes "k") (bytes "signup") (shorter 1000 day) 30 two_uses ≤ 2)
    × ((0 < 3) → uses_within (bytes "source") (bytes "k") (bytes "signup") day 30 two_uses ≤ 3)
record_limit-bound_example =
    record_limit-bound (bytes "source") (bytes "k") (bytes "signup") twice 20 30 (one_use ∷ [])
      two_uses one_use-IsKeyed second_use (omega arith)

abbrev event : OutboxRow
event = record {
  id = 8;
  challenge_id = 3;
  created_at = 5;
  next_attempt_at = 5;
  attempt_count = 0;
  claim_owner = none;
  claimed_until = none;
  published_at = none;
}

abbrev later_event : OutboxRow
later_event = record event { id = 9; next_attempt_at = 6 }

abbrev two_events : World
two_events = record start { db = record tables { outbox = event ∷ later_event ∷ [] } }

abbrev one_claimed : World
one_claimed = record start {
  db = record tables { outbox = claim (bytes "a") 100 event ∷ later_event ∷ [] };
  step = 1;
}

abbrev both_claimed : World
both_claimed = record start {
  db = record tables {
    outbox = claim (bytes "a") 100 event ∷ claim (bytes "b") 101 later_event ∷ [];
  };
  step = 2;
}

first_claim :
    claim_outbox_event (bytes "a") quiet two_events
    ≡ ok (some (claim (bytes "a") 100 event)) one_claimed
unfolding claim_outbox_event exec statement
first_claim = refl

second_claim :
    claim_outbox_event (bytes "b") quiet one_claimed
    ≡ ok (some (claim (bytes "b") 101 later_event)) both_claimed
unfolding claim_outbox_event exec statement
second_claim = refl

claim_outbox_event-exclusive_example : ◌≢◌ {A = ℕ} 9 8
claim_outbox_event-exclusive_example =
    claim_outbox_event-exclusive quiet two_events one_claimed both_claimed (bytes "a") (bytes "b")
      (claim (bytes "a") 100 event) (claim (bytes "b") 101 later_event) first_claim second_claim
      (omega arith)
