-- ===== src/Workspace/Run/Laws.antt =====
-- Inversion of runs that succeed (services/workspace).
use flowspace_api.Base.{ℕ, ◌≡◌, refl, ◌⊎◌, inl, inr, Bool, false, Option, none, some, arith}
use flowspace_api.Workspace.Errors.{Err}
use flowspace_api.Workspace.Run.{
  Env, World, Store, Outcome, ok, err, W, ◌>>=◌, refuse_if, asks, Reply, rows, rejected, tick,
  settle, statement,
}

pub Outcome-cases :
    {A : Type 0} (r : Outcome A)
    → ((a : A) × (v : World) × (r ≡ ok a v)) ⊎ ((x : Err) × (v : World) × (r ≡ err x v))
Outcome-cases (ok a v) = inl (a, v, refl)
Outcome-cases (err x v) = inr (x, v, refl)

pub bind-ok :
    {A B : Type 0} (m : W A) (f : A → W B) (e : Env) (w : World) {b : B} {v : World}
    → (m >>= f) e w ≡ ok b v
    → (a : A) × (u : World) × (m e w ≡ ok a u) × (f a e u ≡ ok b v)
unfolding ◌>>=◌
bind-ok m f e w h = elim (Outcome-cases (m e w)) [
  | inl (a, u, r) ↦ (a, u, r, ground arith)
  | inr (x, u, r) ↦ absurd (ground arith)
]

pub refuse_if-ok :
    (c : Bool) (x : Err) (e : Env) (w : World) {u : Unit {0}} {v : World}
    → refuse_if c x e w ≡ ok u v
    → (c ≡ false) × (v ≡ w)
unfolding refuse_if
refuse_if-ok c x e w h = ground arith

pub asks-ok :
    {A : Type 0} (f : Env → A) (e : Env) (w : World) {a : A} {v : World}
    → asks f e w ≡ ok a v
    → (a ≡ f e) × (v ≡ w)
unfolding asks
asks-ok f e w h = ground arith

pub pure-ok :
    {A : Type 0} {a b : A} {w v : World} → ◌≡◌ {A = Outcome A} (ok a w) (ok b v) → (a ≡ b) × (w ≡ v)
pure-ok h = ground arith

-- A statement that succeeds replied with rows.
pub statement-ok :
    {A : Type 0} (f : Env → ℕ → Store → Reply A) (e : Env) (w : World) {a : A} {v : World}
    → statement f e w ≡ ok a v
    → (d : Store) × (f e w.step w.db ≡ rows a d) × (v ≡ record (tick w) { db = d })
unfolding statement
statement-ok {A = A} f e w {a} {v} h = by_fault (e.fault w.step) (f e w.step w.db) h
  where
    by_fault :
        (o : Option Err) (r : Reply A)
        → (elim o [ some x ↦ err x (tick w) | none ↦ settle r (tick w) ]) ≡ ok a v
        → (d : Store) × (r ≡ rows a d) × (v ≡ record (tick w) { db = d })
    by_fault (some x) r k = absurd (ground arith)
    by_fault none (rows b d) k = (d, ground arith, ground arith)
    by_fault none (rejected x) k = absurd (ground arith)
