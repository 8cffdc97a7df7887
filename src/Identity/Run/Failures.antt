-- ===== src/Identity/Run/Failures.antt =====
-- The errors that a run can end with.
use flowspace_api.Base.{◌≡◌, inl, inr, ℕ, Bool, true, false, arith, sym, subst, ◌∙◌}
use flowspace_api.Identity.Errors.{Err}
use flowspace_api.Identity.Run.{
  Env, World, M, Outcome, err, pure, fail, ◌>>=◌, refuse_if, map_err, asks, rand_read, time_now,
}
use flowspace_api.Identity.Run.Laws.{Outcome-cases, bind-run, bind-fail}

-- Each error of the run has the property.
abbrev pub FailsIn : (Err → Type 0) → {A : Type 0} → M A → Type 0
FailsIn P m = (e : Env) (w : World) (x : Err) (v : World) → m e w ≡ err x v → P x

same_error :
    {A : Type 0} {x y : Err} {w v : World} → ◌≡◌ {A = Outcome A} (err x w) (err y v) → x ≡ y
same_error h = ground arith

pub bind-FailsIn :
    (P : Err → Type 0) {A B : Type 0} (m : M A) (f : A → M B)
    → FailsIn P m
    → ((a : A) → FailsIn P (f a))
    → FailsIn P (m >>= f)
unfolding ◌>>=◌
bind-FailsIn P m f hm hf e w x v h = elim (Outcome-cases (m e w)) [
  | inl (a, u, r) ↦ hf a e u x v (sym (bind-run m f e w r) ∙ h)
  | inr (y, u, r) ↦ subst P (same_error (sym (bind-fail m f e w r) ∙ h)) (hm e w y u r)
]

pub pure-FailsIn : (P : Err → Type 0) {A : Type 0} (a : A) → FailsIn P (pure a)
pure-FailsIn P a e w x v h = absurd (ground arith)

pub fail-FailsIn : (P : Err → Type 0) {A : Type 0} (x : Err) → P x → FailsIn P (fail {A = A} x)
fail-FailsIn P x p e w y v h = subst P (same_error h) p

pub refuse_if-FailsIn : (P : Err → Type 0) (c : Bool) (x : Err) → P x → FailsIn P (refuse_if c x)
unfolding refuse_if
refuse_if-FailsIn P true x p e w y v h = subst P (same_error h) p
refuse_if-FailsIn P false x p e w y v h = absurd (ground arith)

pub map_err-FailsIn :
    (P : Err → Type 0) {A : Type 0} (g : Err → Err) (m : M A)
    → ((x : Err) → P (g x))
    → FailsIn P (map_err g m)
unfolding map_err
map_err-FailsIn P g m p e w x v h = elim (Outcome-cases (m e w)) [
  | inl (a, u, r) ↦ absurd (ground arith)
  | inr (y, u, r) ↦ subst P (same_error (rw (r, map_err) at h)) (p y)
]

pub asks-FailsIn : (P : Err → Type 0) {A : Type 0} (f : Env → A) → FailsIn P (asks f)
unfolding asks
asks-FailsIn P f e w x v h = absurd (ground arith)

pub time_now-FailsIn : (P : Err → Type 0) → FailsIn P time_now
unfolding time_now
time_now-FailsIn P e w x v h = absurd (ground arith)

pub rand_read-FailsIn : (P : Err → Type 0) (n : ℕ) (x : Err) → P x → FailsIn P (rand_read n x)
unfolding rand_read
rand_read-FailsIn P n x p e w y v h = subst P (ground arith) p
