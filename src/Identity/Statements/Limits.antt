-- ===== src/Identity/Statements/Limits.antt =====
-- services/identity/db/queries/limits.sql, and `LimitRepository` and `recordLimit`
-- (services/identity/internal/adapter/out/postgres/limit_repository.go). A call holds the advisory
-- lock of its key from the first statement to the commit, so it runs as one step.
pub mod Bound
use flowspace_api.Base.{
  ℕ, suc, ◌+◌, Bool, true, false, bytes, ◌&&◌, ◌||◌, List, [], ◌∷◌, Option, none, some, ltb, leb,
  ◌==◌, if◌then◌else◌, any, update, Text, text_eq,
}
use flowspace_api.Identity.Run.{M, ok, pure, query, ◌>>=◌, ◌>>◌}
use flowspace_api.Identity.Database.{LimitCounter}
use flowspace_api.Identity.Statements.Sessions.{day}

abbrev pub is_counter : Text → Text → Text → LimitCounter → Bool
is_counter scope key action c =
    text_eq c.scope scope && text_eq c.counter_key key && text_eq c.action action

-- SUM(count) over the rows of the key whose window starts after the cutoff: `window_start > now - w`.
unfoldable pub uses_within : Text → Text → Text → ℕ → ℕ → List LimitCounter → ℕ
uses_within scope key action window now [] = 0
uses_within scope key action window now (c ∷ cs) =
    let rest = uses_within scope key action window now cs in
    if is_counter scope key action c && ltb now (c.window_start + window)
    then c.uses + rest
    else rest

abbrev pub later_of : ℕ → Option ℕ → ℕ
later_of t none = t
later_of t (some s) = if ltb t s then s else t

-- The latest window of the key, or NULL.
unfoldable pub latest_window : Text → Text → Text → List LimitCounter → Option ℕ
latest_window scope key action [] = none
latest_window scope key action (c ∷ cs) =
    let rest = latest_window scope key action cs in
    if is_counter scope key action c then some (later_of c.window_start rest) else rest

abbrev pub is_window : Text → Text → Text → ℕ → LimitCounter → Bool
is_window scope key action now c = is_counter scope key action c && c.window_start == now

-- INSERT … ON CONFLICT DO UPDATE SET count = count + 1
unfoldable pub increment_limit_counter :
    Text → Text → Text → ℕ → List LimitCounter → List LimitCounter
increment_limit_counter scope key action now cs =
    if any (is_window scope key action now) cs
    then update (is_window scope key action now) (λ c. record c { uses = suc c.uses }) cs
    else record { scope = scope; counter_key = key; action = action; window_start = now; uses = 1 }
      ∷ cs

-- A limit: at most so many uses in a window, so many in a day if that is not 0, and so long between
-- two uses if that is not 0.
pub record Limit : Type 0 where
  pub maximum : ℕ
  pub daily_maximum : ℕ
  pub window : ℕ
  pub interval : ℕ

-- `now.Sub(latest) < interval`, for a latest use.
abbrev pub too_soon : ℕ → ℕ → Option ℕ → Bool
too_soon now interval none = false
too_soon now interval (some t) = ltb now (t + interval)

abbrev pub shorter : ℕ → ℕ → ℕ
shorter a b = if ltb a b then a else b

-- The test of `recordLimit`. The usage counts rows of the last day only.
unfoldable pub is_limited : Text → Text → Text → Limit → ℕ → List LimitCounter → Bool
unfolding uses_within latest_window
is_limited scope key action l now cs =
    leb l.maximum (uses_within scope key action (shorter l.window day) now cs)
    || (ltb 0 l.daily_maximum && leb l.daily_maximum (uses_within scope key action day now cs))
    || (ltb 0 l.interval && too_soon now l.interval (latest_window scope key action cs))

-- `recordLimit` on the table: `none` where the use is refused.
unfoldable pub record_limit :
    Text → Text → Text → Limit → ℕ → List LimitCounter → Option (List LimitCounter)
unfolding is_limited increment_limit_counter
record_limit scope key action l now cs =
    if is_limited scope key action l now cs
    then none
    else some (increment_limit_counter scope key action now cs)

-- A statement that answers nothing the model uses, such as BEGIN, a lock or COMMIT.
unfoldable pub plain_statement : M (Unit {0})
plain_statement = query (λ now d. tt)

unfoldable pub read_counters : M (List LimitCounter)
read_counters e w = ok w.counters w

unfoldable pub write_counters : List LimitCounter → M (Unit {0})
write_counters cs e w = ok tt (record w { counters = cs })

-- The counter is written when the transaction commits.
unfoldable pub commit_counters : Option (List LimitCounter) → M Bool
commit_counters none = pure false
commit_counters (some cs) = do plain_statement; plain_statement; write_counters cs; pure true

-- `LimitRepository.Record`.
unfoldable pub record_use : Text → Text → Text → Limit → M Bool
unfolding commit_counters
record_use scope key action l = do
  plain_statement
  plain_statement
  now ← query (λ now d. now)
  plain_statement
  cs ← read_counters
  commit_counters (record_limit scope key action l now cs)

-- The second limit of a login, on the table with the first use.
unfoldable pub record_both : Limit → Text → ℕ → Option (List LimitCounter) → M Bool
unfolding commit_counters
record_both l email_key now none = pure false
record_both l email_key now (some cs) = do
  plain_statement
  plain_statement
  commit_counters (record_limit (bytes "email") email_key (bytes "password-login") l now cs)

-- `LimitRepository.RecordLogin`: both uses count, or none.
unfoldable pub record_login : Text → Text → Limit → Limit → M Bool
unfolding record_both
record_login source email_key source_limit email_limit = do
  plain_statement
  plain_statement
  plain_statement
  now ← query (λ now d. now)
  plain_statement
  cs ← read_counters
  record_both email_limit email_key now
      (record_limit (bytes "source") source (bytes "password-login") source_limit now cs)
