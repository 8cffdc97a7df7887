-- ===== src/Identity/Statements/Challenges.antt =====
-- services/identity/db/queries/challenges.sql.
pub mod Lifecycle
use flowspace_api.Base.{
  ℕ, ◌+◌, ◌*◌, Bool, true, ◌&&◌, ◌||◌, List, [], ◌∷◌, Option, none, some, ltb, leb, ◌==◌,
  if◌then◌else◌, find, any, all, filter, update, count, Text, text_eq, is_none,
}
use flowspace_api.Identity.Errors.{constraint, other_constraint}
use flowspace_api.Identity.Database.{Database, ChallengeRow}
use flowspace_api.Identity.Run.{M, Reply, rows, rejected, statement, query, exec}
use flowspace_api.Identity.Domain.Challenge.{minute, purpose_reauthenticate}

-- `replaced_at IS NULL AND consumed_at IS NULL`
abbrev pub is_current : ChallengeRow → Bool
is_current c = is_none c.replaced_at && is_none c.consumed_at

abbrev pub is_current_for : Text → Text → ChallengeRow → Bool
is_current_for subject purpose c =
    text_eq c.account_subject subject && text_eq c.purpose purpose && is_current c

-- The row that a guess may still be made at.
abbrev pub is_guessable : ℕ → ℕ → ChallengeRow → Bool
is_guessable id now c = c.id == id && is_current c && ltb now c.expires_at && ltb c.wrong_guesses 5

abbrev pub replace : ℕ → ChallengeRow → ChallengeRow
replace now c = record c { replaced_at = some now }

abbrev pub consume : ℕ → ChallengeRow → ChallengeRow
consume now c = record c { consumed_at = some now }

abbrev pub count_guess : ChallengeRow → ChallengeRow
count_guess c = record c { wrong_guesses = c.wrong_guesses + 1 }

-- UPDATE identity_challenges: the number of rows and the new table.
abbrev pub update_challenges :
    (ChallengeRow → Bool) → (ChallengeRow → ChallengeRow) → Database → ℕ × Database
update_challenges p f d = (count p d.challenges, record d { challenges = update p f d.challenges })

unfoldable pub replace_current_challenge : Text → Text → M ℕ
replace_current_challenge subject purpose =
    exec (λ now d. update_challenges (is_current_for subject purpose) (replace now) d)

abbrev pub hour : ℕ
hour = 60 * minute

abbrev pub issued_in_last_hour : Text → ℕ → ChallengeRow → Bool
issued_in_last_hour subject now c =
    text_eq c.account_subject subject && ltb now (c.issued_at + hour)

-- Fewer than 5 challenges of the last hour, and none of them in the last 60 seconds.
unfoldable pub can_issue_at : Text → ℕ → List ChallengeRow → Bool
can_issue_at subject now challenges =
    let recent = filter (issued_in_last_hour subject now) challenges in
    ltb (count (λ c. true) recent) 5 && all (λ c. leb (c.issued_at + minute) now) recent

unfoldable pub can_issue_code : Text → M Bool
unfolding can_issue_at
can_issue_code subject = query (λ now d. can_issue_at subject now d.challenges)

unfoldable pub revoke_account_challenges : Text → M ℕ
revoke_account_challenges subject = exec (λ now d.
    update_challenges (λ c. text_eq c.account_subject subject && is_current c) (replace now) d)

-- The keys of the table: the id, and one current challenge for a subject and purpose.
unfoldable pub insert_challenge : ChallengeRow → Database → Reply ChallengeRow
insert_challenge row d =
    if any (λ c. c.id == row.id) d.challenges
      || any (is_current_for row.account_subject row.purpose) d.challenges
    then rejected (constraint other_constraint)
    else rows row (record d { challenges = row ∷ d.challenges })

unfoldable pub create_challenge : Text → Text → Text → Text → Text → M ChallengeRow
unfolding insert_challenge
create_challenge subject purpose email_local email_domain code_verifier = statement (λ now id d.
    insert_challenge
      (record {
        id = id;
        account_subject = subject;
        purpose = purpose;
        email_local = email_local;
        email_domain = email_domain;
        code_verifier = code_verifier;
        wrong_guesses = 0;
        issued_at = now;
        expires_at = now + 10 * minute;
        replaced_at = none;
        consumed_at = none;
      })
      d)

unfoldable pub get_current_challenge_for_update : Text → Text → M (Option ChallengeRow)
get_current_challenge_for_update subject purpose =
    query (λ now d. find (is_current_for subject purpose) d.challenges)

-- The new number of wrong guesses is not used by the caller, so the row count stands for it.
unfoldable pub increment_challenge_wrong_guess : ℕ → M ℕ
increment_challenge_wrong_guess id =
    exec (λ now d. update_challenges (is_guessable id now) count_guess d)

unfoldable pub consume_current_challenge : ℕ → M ℕ
consume_current_challenge id =
    exec (λ now d. update_challenges (is_guessable id now) (consume now) d)

-- The latest time of a list, or the zero time that stands for NULL.
unfoldable pub latest : List ChallengeRow → ℕ
latest [] = 0
latest (c ∷ cs) = let rest = latest cs in if ltb rest c.issued_at then c.issued_at else rest

unfoldable pub get_latest_reauthentication_code_issue : Text → M ℕ
unfolding latest
get_latest_reauthentication_code_issue subject = query (λ now d. latest (
    filter (λ c. text_eq c.account_subject subject && text_eq c.purpose purpose_reauthenticate)
      d.challenges))
