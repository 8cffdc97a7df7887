-- ===== src/Identity/Run/Laws.antt =====
-- Inversion of runs that succeed, and what the primitive steps leave alone.
use flowspace_api.Base.{
  ◌∙◌, ℕ, ◌≡◌, refl, ◌⊎◌, inl, inr, Option, none, some, Text, arith, Bool, false,
}
use flowspace_api.Identity.Database.{Database}
use flowspace_api.Identity.Errors.{Err}
use flowspace_api.Identity.Run.{
  map_err, Env, World, M, Outcome, ok, err, tick, ◌>>=◌, check_context, rand_read, Result, done,
  lift, Result-cases, refuse_if, asks, Reply, rows, settle, statement, exec, query, attempt, value,
}

pub Outcome-cases :
    {A : Type 0} (r : Outcome A)
    → ((a : A) × (v : World) × (r ≡ ok a v)) ⊎ ((x : Err) × (v : World) × (r ≡ err x v))
Outcome-cases (ok a v) = inl (a, v, refl)
Outcome-cases (err x v) = inr (x, v, refl)

-- A run of two parts succeeds only if both do.
pub bind-ok :
    {A B : Type 0} (m : M A) (f : A → M B) (e : Env) (w : World) {b : B} {v : World}
    → (m >>= f) e w ≡ ok b v
    → (a : A) × (u : World) × (m e w ≡ ok a u) × (f a e u ≡ ok b v)
unfolding ◌>>=◌
bind-ok m f e w h = elim (Outcome-cases (m e w)) [
  | inl (a, u, r) ↦ (a, u, r, ground arith)
  | inr (x, u, r) ↦ absurd (ground arith)
]

-- It goes on from where its first part ends.
pub bind-run :
    {A B : Type 0} (m : M A) (f : A → M B) (e : Env) (w : World) {a : A} {u : World}
    → m e w ≡ ok a u
    → (m >>= f) e w ≡ f a e u
unfolding ◌>>=◌
bind-run m f e w h = rw (h, ◌>>=◌)

-- And it fails with its first part.
pub bind-fail :
    {A B : Type 0} (m : M A) (f : A → M B) (e : Env) (w : World) {x : Err} {u : World}
    → m e w ≡ err x u
    → (m >>= f) e w ≡ err x u
unfolding ◌>>=◌
bind-fail m f e w h = rw (h, ◌>>=◌)

pub lift-ok :
    {A : Type 0} (f : Env → Result A) (e : Env) (w : World) {a : A} {v : World}
    → lift f e w ≡ ok a v
    → (f e ≡ done a) × (v ≡ w)
unfolding lift
lift-ok f e w h = elim (Result-cases (f e)) [
  | inl (a, r) ↦ ground arith
  | inr (x, r) ↦ absurd (ground arith)
]

pub lift-run :
    {A : Type 0} (f : Env → Result A) (e : Env) (w : World) {a : A}
    → f e ≡ done a
    → lift f e w ≡ ok a w
unfolding lift
lift-run f e w h = rw (h, lift)

pub refuse_if-ok :
    (c : Bool) (x : Err) (e : Env) (w : World) {u : Unit {0}} {v : World}
    → refuse_if c x e w ≡ ok u v
    → (c ≡ false) × (v ≡ w)
unfolding refuse_if
refuse_if-ok c x e w h = ground arith

pub rand_read-ok :
    (n : ℕ) (x : Err) (e : Env) (w : World) {s : Text} {v : World}
    → rand_read n x e w ≡ ok s v
    → (e.random w.step n ≡ some s) × (v ≡ tick w)
unfolding rand_read
rand_read-ok n x e w h = ground arith

pub check_context-ok :
    (e : Env) (w : World) {u : Unit {0}} {v : World}
    → check_context e w ≡ ok u v
    → (e.context_err w.step ≡ none) × (v ≡ tick w)
unfolding check_context
check_context-ok e w h = ground arith

pub check_context-run :
    (e : Env) (w : World) → e.context_err w.step ≡ none → check_context e w ≡ ok tt (tick w)
unfolding check_context
check_context-run e w h = rw (h, check_context)

pub asks-ok :
    {A : Type 0} (f : Env → A) (e : Env) (w : World) {a : A} {v : World}
    → asks f e w ≡ ok a v
    → (a ≡ f e) × (v ≡ w)
unfolding asks
asks-ok f e w h = ground arith

pub pure-ok :
    {A : Type 0} {a b : A} {w v : World} → ◌≡◌ {A = Outcome A} (ok a w) (ok b v) → (a ≡ b) × (w ≡ v)
pure-ok h = ground arith

pub asks-run : {A : Type 0} (f : Env → A) (e : Env) (w : World) → asks f e w ≡ ok (f e) w
unfolding asks
asks-run f e w = refl

-- The world that a run ends in, whether it succeeds or fails.
abbrev pub world_of : {A : Type 0} → Outcome A → World
world_of (ok a v) = v
world_of (err x v) = v

-- What holds of the tables before a statement, and after each answer that writes, holds after it.
pub exec-keeps :
    {A : Type 0} (P : Database → Type 0) (f : ℕ → Database → A × Database) (e : Env) (w : World)
    → P w.db
    → ((now : ℕ) → P ((f now w.db).1))
    → P ((world_of (exec f e w)).db)
unfolding exec statement
exec-keeps P f e w before after = by_fault (e.fault w.step)
  where
    by_fault :
        (o : Option Err)
        → P (
            (world_of (elim o [
              | some x ↦ err x (tick w)
              | none ↦
                  settle
                    (rows
                      (f (e.statement_timestamp w.step) w.db).0
                      (f (e.statement_timestamp w.step) w.db).1)
                    (tick w)
            ])).db)
    by_fault (some x) = before
    by_fault none = after (e.statement_timestamp w.step)

-- A statement that succeeds answers what it computes at its timestamp.
pub exec-ok :
    {A : Type 0} (f : ℕ → Database → A × Database) (e : Env) (w : World) {a : A} {v : World}
    → exec f e w ≡ ok a v
    → (a ≡ (f (e.statement_timestamp w.step) w.db).0)
      × (v ≡ record (tick w) { db = (f (e.statement_timestamp w.step) w.db).1 })
unfolding exec statement
exec-ok f e w h = ground arith

pub statement-keeps :
    {A : Type 0} (P : Database → Type 0) (f : ℕ → ℕ → Database → Reply A) (e : Env) (w : World)
    → P w.db
    → ((now id : ℕ) → P ((world_of (settle (f now id w.db) (tick w))).db))
    → P ((world_of (statement f e w)).db)
unfolding statement
statement-keeps P f e w before after = by_fault (e.fault w.step)
  where
    by_fault :
        (o : Option Err)
        → P (
            (world_of (elim o [
              | some x ↦ err x (tick w)
              | none ↦
                  settle (f (e.statement_timestamp w.step) (e.gen_random_uuid w.step) w.db) (tick w)
            ])).db)
    by_fault (some x) = before
    by_fault none = after (e.statement_timestamp w.step) (e.gen_random_uuid w.step)

-- A statement that only reads leaves the tables.
pub query-ok :
    {A : Type 0} (f : ℕ → Database → A) (e : Env) (w : World) {a : A} {v : World}
    → query f e w ≡ ok a v
    → (a ≡ f (e.statement_timestamp w.step) w.db) × (v ≡ tick w)
unfolding query statement
query-ok f e w h = ground arith

pub map_err-ok :
    {A : Type 0} (g : Err → Err) (m : M A) (e : Env) (w : World) {a : A} {v : World}
    → map_err g m e w ≡ ok a v
    → m e w ≡ ok a v
unfolding map_err
map_err-ok g m e w h = elim (Outcome-cases (m e w)) [
  | inl (b, u, r) ↦ r ∙ rw (r, map_err) at h
  | inr (x, u, r) ↦ absurd (ground arith)
]

-- An attempt that gives a value ran to it.
pub attempt-value :
    {A : Type 0} (m : M A) (e : Env) (w : World) {a : A} {v : World}
    → attempt m e w ≡ ok (value a) v
    → m e w ≡ ok a v
unfolding attempt
attempt-value m e w h = elim (Outcome-cases (m e w)) [
  | inl (b, u, r) ↦ r ∙ ground arith
  | inr (x, u, r) ↦ absurd (ground arith)
]

-- A statement that does not fail answers what it computes.
pub exec-run :
    {A : Type 0} (f : ℕ → Database → A × Database) (e : Env) (w : World)
    → e.fault w.step ≡ none
    → exec f e w
      ≡ ok
          (f (e.statement_timestamp w.step) w.db).0
          (record (tick w) { db = (f (e.statement_timestamp w.step) w.db).1 })
unfolding exec statement
exec-run f e w quiet = rw (quiet, exec, statement)
