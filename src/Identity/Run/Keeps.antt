-- ===== src/Identity/Run/Keeps.antt =====
-- What the parts of a run leave true of the tables, the run leaves true, whether it succeeds or
-- fails.
use flowspace_api.Base.{◌≡◌, ℕ, Bool, true, false, subst, sym}
use flowspace_api.Identity.Database.{Database}
use flowspace_api.Identity.Errors.{Err}
use flowspace_api.Identity.Run.{
  Env, World, M, Outcome, ok, err, pure, fail, ◌>>=◌, refuse_if, map_err, attempt, asks, time_now,
  exec, query, rows, Attempted, value, error,
}
use flowspace_api.Identity.Run.Laws.{world_of, exec-keeps, statement-keeps, bind-run}

abbrev pub Keeps : (Database → Type 0) → {A : Type 0} → M A → Type 0
Keeps P m = (e : Env) (w : World) → P w.db → P ((world_of (m e w)).db)

pub bind-Keeps :
    (P : Database → Type 0) {A B : Type 0} (m : M A) (f : A → M B)
    → Keeps P m
    → ((a : A) → Keeps P (f a))
    → Keeps P (m >>= f)
unfolding ◌>>=◌
bind-Keeps P {A} {B} m f hm hf e w p = by_outcome (m e w) (hm e w p)
  where
    by_outcome :
        (o : Outcome A)
        → P ((world_of o).db)
        → P ((world_of {A = B} (elim o [ ok a v ↦ f a e v | err x v ↦ err x v ])).db)
    by_outcome (ok a v) q = hf a e v q
    by_outcome (err x v) q = q

pub pure-Keeps : (P : Database → Type 0) {A : Type 0} (a : A) → Keeps P (pure a)
pure-Keeps P a e w p = p

pub fail-Keeps : (P : Database → Type 0) (A : Type 0) (x : Err) → Keeps P (fail {A = A} x)
fail-Keeps P A x e w p = p

pub refuse_if-Keeps : (P : Database → Type 0) (c : Bool) (x : Err) → Keeps P (refuse_if c x)
unfolding refuse_if
refuse_if-Keeps P true x e w p = p
refuse_if-Keeps P false x e w p = p

pub attempt-Keeps : (P : Database → Type 0) {A : Type 0} (m : M A) → Keeps P m → Keeps P (attempt m)
unfolding attempt
attempt-Keeps P {A} m h e w p = by_outcome (m e w) (h e w p)
  where
    by_outcome :
        (o : Outcome A)
        → P ((world_of o).db)
        → P (
            (world_of {A = Attempted A}
              (elim o [ ok a v ↦ ok (value a) v | err x v ↦ ok (error x) v ])).db)
    by_outcome (ok a v) q = q
    by_outcome (err x v) q = q

pub map_err-Keeps :
    (P : Database → Type 0) {A : Type 0} (g : Err → Err) (m : M A)
    → Keeps P m
    → Keeps P (map_err g m)
unfolding map_err
map_err-Keeps P {A} g m h e w p = by_outcome (m e w) (h e w p)
  where
    by_outcome :
        (o : Outcome A)
        → P ((world_of o).db)
        → P ((world_of {A = A} (elim o [ ok a v ↦ ok a v | err x v ↦ err (g x) v ])).db)
    by_outcome (ok a v) q = q
    by_outcome (err x v) q = q

pub asks-Keeps : (P : Database → Type 0) {A : Type 0} (f : Env → A) → Keeps P (asks f)
unfolding asks
asks-Keeps P f e w p = p

pub time_now-Keeps : (P : Database → Type 0) → Keeps P time_now
unfolding time_now
time_now-Keeps P e w p = p

pub exec-Keeps :
    (P : Database → Type 0) {A : Type 0} (f : ℕ → Database → A × Database)
    → ((now : ℕ) (d : Database) → P d → P ((f now d).1))
    → Keeps P (exec f)
exec-Keeps P f h e w p = exec-keeps P f e w p (λ now. h now w.db p)

pub query-Keeps : (P : Database → Type 0) {A : Type 0} (f : ℕ → Database → A) → Keeps P (query f)
unfolding query
query-Keeps P f e w p = statement-keeps P (λ now id d. rows (f now d) d) e w p (λ now id. p)

-- An action that never succeeds.
abbrev pub Fails : {A : Type 0} → M A → Type 0
Fails {A} m =
    (e : Env) (w : World) → (x : Err) × (v : World) × (◌≡◌ {A = Outcome A} (m e w) (err x v))

attempt-error :
    {A : Type 0} (m : M A) (e : Env) (w : World) {x : Err} {v : World}
    → m e w ≡ err x v
    → attempt m e w ≡ ok (error x) v
unfolding attempt
attempt-error m e w h = rw (h, attempt)

-- After an action that never succeeds only the answer to errors counts.
pub attempt_failing-Keeps :
    (P : Database → Type 0) {A B : Type 0} (m : M A) (f : Attempted A → M B)
    → Fails m
    → Keeps P m
    → ((x : Err) → Keeps P (f (error x)))
    → Keeps P (attempt m >>= f)
attempt_failing-Keeps P m f never hm hf e w p =
    let (x, v, r) = never e w in
    subst (λ o. P ((world_of o).db)) (sym (bind-run (attempt m) f e w (attempt-error m e w r)))
      (hf x e v (subst (λ o. P ((world_of o).db)) r (hm e w p)))
