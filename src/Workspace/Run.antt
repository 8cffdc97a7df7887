-- ===== src/Workspace/Run.antt =====
-- How the model runs the Workspace service: a state monad with errors over its tables
-- (services/workspace/db/migrations), with the outside inputs in an environment.
pub mod Laws
use flowspace_api.Base.{ℕ, suc, Bool, true, false, List, Option, none, some, Text}
use flowspace_api.Workspace.Errors.{Err}

-- workspaces
pub record WorkspaceRow : Type 0 where
  pub id : ℕ
  pub name : Text
  pub created_at : ℕ

-- workspace_memberships
pub record Membership : Type 0 where
  pub workspace_id : ℕ
  pub subject : Text
  pub role : Text

-- workspace_creations
pub record Creation : Type 0 where
  pub subject : Text
  pub idempotency_key : Text
  pub request_hash : Text
  pub workspace_id : ℕ
  pub workspace_name : Text
  pub workspace_created_at : ℕ
  pub completed_at : ℕ
  pub expires_at : ℕ

pub record Store : Type 0 where
  pub workspaces : List WorkspaceRow
  pub memberships : List Membership
  pub creations : List Creation

-- crypto/sha256 and pgtype.UUID, the errors of statements, and what a statement reads from outside:
-- the clock, the start of its transaction, a fresh uuid, and whether another transaction holds the
-- advisory lock.
pub record Env : Type 0 where
  pub sha256 : Text → Text
  pub scan_uuid : Text → Option ℕ
  pub uuid_text : ℕ → Text
  pub fault : ℕ → Option Err
  pub statement_timestamp : ℕ → ℕ
  pub transaction_timestamp : ℕ → ℕ
  pub gen_random_uuid : ℕ → ℕ
  pub lock_is_free : ℕ → ℕ → Bool

pub record World : Type 0 where
  pub db : Store
  pub step : ℕ

pub data Outcome (A : Type 0) : Type 0 where
  ok : A → World → Outcome A
  err : Err → World → Outcome A

abbrev pub W : Type 0 → Type 0
W A = Env → World → Outcome A

abbrev pub pure : {A : Type 0} → A → W A
pure a e w = ok a w

abbrev pub fail : {A : Type 0} → Err → W A
fail x e w = err x w

infixl 5 ◌>>=◌ ◌>>◌
unfoldable pub ◌>>=◌ : {A B : Type 0} → W A → (A → W B) → W B
◌>>=◌ m f e w = elim (m e w) [ ok a v ↦ f a e v | err x v ↦ err x v ]

abbrev pub ◌>>◌ : {B : Type 0} → W (Unit {0}) → W B → W B
m >> k = m >>= λ _. k

unfoldable pub refuse_if : Bool → Err → W (Unit {0})
refuse_if true x e w = err x w
refuse_if false x e w = ok tt w

unfoldable pub asks : {A : Type 0} → (Env → A) → W A
asks f e w = ok (f e) w

pub data Reply (A : Type 0) : Type 0 where
  rows : A → Store → Reply A
  rejected : Err → Reply A

abbrev pub tick : World → World
tick w = record w { step = suc w.step }

abbrev pub settle : {A : Type 0} → Reply A → World → Outcome A
settle (rows a d) w = ok a (record w { db = d })
settle (rejected x) w = err x w

-- A statement is given the environment and its number, and fails where the environment says so.
unfoldable pub statement : {A : Type 0} → (Env → ℕ → Store → Reply A) → W A
statement f e w = elim (e.fault w.step) [
  | some x ↦ err x (tick w)
  | none ↦ settle (f e w.step w.db) (tick w)
]
