-- ===== src/Identity/Statements/Challenges/Lifecycle.antt =====
-- The life of a challenge row under the statements of services/identity/db/queries/challenges.sql.
use flowspace_api.Base.{
  ℕ, ◌≤◌, Bool, true, false, ◌≡◌, refl, ◌&&◌, ◌||◌, ◌==◌, List, ◌∷◌, any, count, All, All-update,
  Text, text_eq, Bool-cases, text_eq→eq, arith, any_false→count, count-update, count-update_zero,
  is_none, inl, inr, &&_parts,
}
use flowspace_api.Identity.Database.{Database, ChallengeRow}
use flowspace_api.Identity.Run.{Env, World, ok, tick, settle}
use flowspace_api.Identity.Run.Laws.{world_of, exec-keeps, exec-ok, statement-keeps}
use flowspace_api.Identity.Statements.Challenges.{
  is_current, is_current_for, is_guessable, replace, consume, count_guess, update_challenges,
  replace_current_challenge, revoke_account_challenges, create_challenge, insert_challenge,
  increment_challenge_wrong_guess, consume_current_challenge,
}

-- A row has at most five wrong guesses, and was not both replaced and consumed.
abbrev pub IsSound : ChallengeRow → Type 0
IsSound c = (c.wrong_guesses ≤ 5) × ((is_none c.replaced_at || is_none c.consumed_at) ≡ true)

-- The rows of the table, and one current row at most for a subject and purpose.
abbrev pub AreSound : Database → Type 0
AreSound d =
    All IsSound d.challenges
    × ((subject purpose : Text) → count (is_current_for subject purpose) d.challenges ≤ 1)

-- An update keeps the table sound if it keeps each row sound and makes no row current.
update_challenges-AreSound :
    (p : ChallengeRow → Bool) (f : ChallengeRow → ChallengeRow) (d : Database)
    → ((c : ChallengeRow) → p c ≡ true → IsSound c → IsSound (f c))
    → ((subject purpose : Text) (c : ChallengeRow)
        → is_current_for subject purpose (f c) ≡ true
        → is_current_for subject purpose c ≡ true)
    → AreSound d
    → AreSound ((update_challenges p f d).1)
update_challenges-AreSound p f d keep current h = (
  All-update IsSound p f d.challenges keep h.0,
  λ s k. omega (arith, count-update (is_current_for s k) p f d.challenges (current s k), h.1 s k),
)

-- A new row whose key no current row has stays alone.
one_current :
    (row : ChallengeRow) (cs : List ChallengeRow) (subject purpose : Text)
    → any (is_current_for row.account_subject row.purpose) cs ≡ false
    → count (is_current_for subject purpose) cs ≤ 1
    → count (is_current_for subject purpose) (row ∷ cs) ≤ 1
one_current row cs subject purpose fresh one =
    elim (Bool-cases (is_current_for subject purpose row)) [
      | inl c ↦
          let (sk, z) =
            &&_parts (text_eq row.account_subject subject && text_eq row.purpose purpose)
              (is_current row) c in
          let (s, k) =
            &&_parts (text_eq row.account_subject subject) (text_eq row.purpose purpose) sk in
          let none_else =
            rw (text_eq→eq row.account_subject subject s, text_eq→eq row.purpose purpose k) at
              (any_false→count (is_current_for row.account_subject row.purpose) cs fresh) in
          rw (c) (omega (arith, none_else))
      | inr c ↦ rw (c) one
    ]

insert_challenge-AreSound :
    (row : ChallengeRow) (w : World)
    → IsSound row
    → AreSound w.db
    → AreSound ((world_of (settle (insert_challenge row w.db) (tick w))).db)
unfolding insert_challenge
insert_challenge-AreSound row w r h =
    elim (Bool-cases (
      any (λ c. c.id == row.id) (w.db.challenges)
      || any (is_current_for row.account_subject row.purpose) (w.db.challenges))) [
        | inl a ↦ rw (a) h
        | inr a ↦
            rw (a)
              ((r, h.0), λ s p. one_current row (w.db.challenges) s p (ground (arith, a)) (h.1 s p))
      ]

-- Whatever a statement on challenges answers, a sound table stays sound: every row has at most
-- five wrong guesses and is not both replaced and consumed, and a subject has one current
-- challenge at most for a purpose. The statements are those that count a wrong guess, consume,
-- replace, revoke and create.
pub statements-AreSound :
    (e : Env) (w : World) (id : ℕ) (subject purpose email_local email_domain verifier : Text)
    → AreSound w.db
    → AreSound ((world_of (increment_challenge_wrong_guess id e w)).db)
      × AreSound ((world_of (consume_current_challenge id e w)).db)
      × AreSound ((world_of (replace_current_challenge subject purpose e w)).db)
      × AreSound ((world_of (revoke_account_challenges subject e w)).db)
      × AreSound
          ((world_of (create_challenge subject purpose email_local email_domain verifier e w)).db)
unfolding increment_challenge_wrong_guess consume_current_challenge replace_current_challenge
    revoke_account_challenges create_challenge
statements-AreSound e w id subject purpose email_local email_domain verifier h = (
  exec-keeps AreSound _ e w h (λ now.
      update_challenges-AreSound (is_guessable id now) count_guess w.db (λ c g s. ground arith)
        (λ s k c g. g) h),
  exec-keeps AreSound _ e w h (λ now.
      update_challenges-AreSound (is_guessable id now) (consume now) w.db (λ c g s. ground arith)
        (λ s k c g. ground arith) h),
  exec-keeps AreSound _ e w h (λ now.
      update_challenges-AreSound (is_current_for subject purpose) (replace now) w.db
        (λ c g s. ground arith) (λ s k c g. ground arith) h),
  exec-keeps AreSound _ e w h (λ now.
      update_challenges-AreSound (λ c. text_eq c.account_subject subject && is_current c)
        (replace now) w.db (λ c g s. ground arith) (λ s k c g. ground arith) h),
  statement-keeps AreSound _ e w h (λ now id. insert_challenge-AreSound _ w (omega arith, refl) h),
)

-- A challenge is consumed once: after a statement that consumes it, a later one, at a time that is
-- not earlier, changes no row.
pub consume_current_challenge-once :
    (e : Env) (w v u : World) (id first second : ℕ)
    → consume_current_challenge id e w ≡ ok first v
    → e.statement_timestamp w.step ≤ e.statement_timestamp v.step
    → consume_current_challenge id e v ≡ ok second u
    → second ≡ 0
unfolding consume_current_challenge
consume_current_challenge-once e w v u id first second h t k =
    let (a, b) = exec-ok _ e w h in
    let (c, d) = exec-ok _ e v k in
    let gone =
      count-update_zero (is_guessable id (e.statement_timestamp v.step))
        (is_guessable id (e.statement_timestamp w.step)) (consume (e.statement_timestamp w.step))
        (w.db.challenges) (λ x g. ground arith) (λ x g. ground (arith, t)) in
    rw (c, b) (rw (b) at gone)
