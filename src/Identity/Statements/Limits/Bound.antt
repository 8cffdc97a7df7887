-- ===== src/Identity/Statements/Limits/Bound.antt =====
-- The limits that `recordLimit` enforces
-- (services/identity/internal/adapter/out/postgres/limit_repository.go and limits.sql).
use flowspace_api.Base.{
  ℕ, suc, ◌+◌, ◌≤◌, ◌<◌, false, ◌≡◌, ◌&&◌, ◌==◌, List, [], ◌∷◌, some, any, update, count, Text,
  text_eq, Bool-cases, text_eq→eq, arith, inl, inr, &&_parts, ==_iff, count-update, any_false→count,
  subst,
}
use flowspace_api.Identity.Database.{LimitCounter}
use flowspace_api.Identity.Statements.Sessions.{day}
use flowspace_api.Identity.Statements.Limits.{
  is_counter, is_window, uses_within, increment_limit_counter, Limit, shorter, is_limited,
  record_limit,
}

-- The key of the table: one row for a scope, key, action and window.
abbrev pub IsKeyed : List LimitCounter → Type 0
IsKeyed cs = (scope key action : Text) (start : ℕ) → count (is_window scope key action start) cs ≤ 1

abbrev one_more : LimitCounter → LimitCounter
one_more c = record c { uses = suc c.uses }

module _ (scope key action : Text) where
  -- One use more on each row of a window adds at most the number of those rows.
  uses_within-update :
      (window now start : ℕ) (cs : List LimitCounter)
      → uses_within scope key action window now
          (update (is_window scope key action start) one_more cs)
        ≤ count (is_window scope key action start) cs + uses_within scope key action window now cs
  unfolding uses_within
  uses_within-update window now start [] = omega arith
  uses_within-update window now start (c ∷ cs) =
      ground (arith, uses_within-update window now start cs)

  -- Later, no more of the uses lie in the window.
  uses_within-later :
      (window now later : ℕ) (cs : List LimitCounter)
      → now ≤ later
      → uses_within scope key action window later cs ≤ uses_within scope key action window now cs
  unfolding uses_within
  uses_within-later window now later [] h = omega arith
  uses_within-later window now later (c ∷ cs) h =
      ground (arith, uses_within-later window now later cs h)

  uses_within-increment :
      (window now : ℕ) (cs : List LimitCounter)
      → count (is_window scope key action now) cs ≤ 1
      → uses_within scope key action window now (increment_limit_counter scope key action now cs)
        ≤ suc (uses_within scope key action window now cs)
  unfolding increment_limit_counter uses_within
  uses_within-increment window now cs h =
      elim (Bool-cases (any (is_window scope key action now) cs)) [
        | inl a ↦ rw (a) (omega (arith, uses_within-update window now now cs))
        | inr a ↦ rw (a) (ground arith)
      ]

-- A new row whose window no row has stays alone.
one_window :
    (row : LimitCounter) (cs : List LimitCounter) (scope key action : Text) (start : ℕ)
    → any (is_window row.scope row.counter_key row.action row.window_start) cs ≡ false
    → count (is_window scope key action start) cs ≤ 1
    → count (is_window scope key action start) (row ∷ cs) ≤ 1
one_window row cs scope key action start fresh one =
    elim (Bool-cases (is_window scope key action start row)) [
      | inl c ↦
          let (ska, t) = &&_parts (is_counter scope key action row) (row.window_start == start) c in
          let (sk, a) =
            &&_parts (text_eq row.scope scope && text_eq row.counter_key key)
              (text_eq row.action action) ska in
          let (s, k) = &&_parts (text_eq row.scope scope) (text_eq row.counter_key key) sk in
          let none_else =
            rw
              (
                text_eq→eq row.scope scope s,
                text_eq→eq row.counter_key key k,
                text_eq→eq row.action action a,
                (==_iff row.window_start start).0 t,
              )
              at
              (any_false→count (is_window row.scope row.counter_key row.action row.window_start) cs
                fresh) in
          rw (c) (omega (arith, none_else))
      | inr c ↦ rw (c) one
    ]

abbrev new_counter : Text → Text → Text → ℕ → LimitCounter
new_counter scope key action now = record {
  scope = scope;
  counter_key = key;
  action = action;
  window_start = now;
  uses = 1;
}

increment_limit_counter-IsKeyed :
    (scope key action : Text) (now : ℕ) (cs : List LimitCounter)
    → IsKeyed cs
    → IsKeyed (increment_limit_counter scope key action now cs)
unfolding increment_limit_counter
increment_limit_counter-IsKeyed scope key action now cs k =
    elim (Bool-cases (any (is_window scope key action now) cs)) [
      | inl a ↦ rw (a) (λ s c t n. omega (
        arith,
        count-update (is_window s c t n) (is_window scope key action now) one_more cs (λ x g. g),
        k s c t n,
      ))
      | inr a ↦
          rw (a) (λ s c t n. one_window (new_counter scope key action now) cs s c t n a (k s c t n))
    ]

module _ (scope key action : Text) where
  -- In a table with at most one row for a scope, key, action and window, a use that is recorded
  -- leaves at most the limit's number of uses in its window, of a day at most, and at most the
  -- daily number in a day where that is not 0, when it is made and at every later time.
  pub record_limit-bound :
      (l : Limit) (now later : ℕ) (cs ds : List LimitCounter)
      → IsKeyed cs
      → record_limit scope key action l now cs ≡ some ds
      → now ≤ later
      → (uses_within scope key action (shorter l.window day) later ds ≤ l.maximum)
        × ((0 < l.daily_maximum) → uses_within scope key action day later ds ≤ l.daily_maximum)
  unfolding record_limit is_limited
  record_limit-bound l now later cs ds k h t =
      let short =
        uses_within-increment scope key action (shorter l.window day) now cs
          (k scope key action now) in
      let daily = uses_within-increment scope key action day now cs (k scope key action now) in
      let shorts = uses_within-later scope key action (shorter l.window day) now later ds t in
      let dailys = uses_within-later scope key action day now later ds t in ground (arith)

  -- A table with at most one row for a scope, key, action and window keeps that when a use is
  -- recorded.
  pub record_limit-IsKeyed :
      (l : Limit) (now : ℕ) (cs ds : List LimitCounter)
      → IsKeyed cs
      → record_limit scope key action l now cs ≡ some ds
      → IsKeyed ds
  unfolding record_limit
  record_limit-IsKeyed l now cs ds k h =
      let kept = increment_limit_counter-IsKeyed scope key action now cs k in
      subst IsKeyed (ground arith) kept
