-- ===== src/Identity/Run.antt =====
-- How the model runs Go code that reads clocks, draws random bytes and sends statements: a state
-- monad with errors, over a world whose outside inputs are given by an environment.
pub mod Laws
pub mod Failures
pub mod Keeps
use flowspace_api.Base.{
  Bool, true, false, ◌≡◌, refl, ◌⊎◌, inl, inr, ℕ, suc, ◌+◌, ◌≡◌, refl, Option, none, some, Bool,
  List, Text, is_some, arith,
}
use flowspace_api.Identity.Errors.{Err}
use flowspace_api.Identity.Database.{Database, LimitCounter}

-- What the services take from libraries and from outside. The functions with a step number are
-- inputs that differ from one call to the next.
pub record Env : Type 0 where
  -- crypto/hmac over SHA-256, crypto/sha256, golang.org/x/crypto/argon2
  pub hmac : Text → Text → Text
  pub sha256 : Text → Text
  pub argon2_id_key : Text → Text → Text
  -- net/mail.ParseAddress: the name and the address, or an error
  pub parse_address : Text → Option (Text × Text)
  -- golang.org/x/text/unicode/norm.NFC and strings.ToLower
  pub nfc : Text → Text
  pub to_lower : Text → Text
  -- github.com/google/uuid
  pub parse_uuid : Text → Option ℕ
  pub uuid_string : ℕ → Text
  -- the error that statement n of the database returns, if it fails
  pub fault : ℕ → Option Err
  -- statement_timestamp() of the database, and time.Now() of the service
  pub statement_timestamp : ℕ → ℕ
  pub time_now : ℕ → ℕ
  -- gen_random_uuid(), uuid.NewRandom() and crypto/rand: the number of bytes asked for is given
  pub gen_random_uuid : ℕ → ℕ
  pub random_uuid : ℕ → Option ℕ
  pub random : ℕ → ℕ → Option Text
  pub random_below : ℕ → ℕ → Option ℕ
  -- ctx.Err()
  pub context_err : ℕ → Option Err

-- The fields of `accountTransaction` and the settings of its transaction
-- (services/identity/internal/adapter/out/postgres/account_repository.go).
pub record Transaction : Type 0 where
  pub reauthentication_session : Option ℕ
  pub reauthentication_subject : Text
  pub reauthentication_deadline : ℕ
  pub requested_session : Option ℕ
  -- flowspace.reauthentication_deadline
  pub deadline_setting : Option ℕ

pub record World : Type 0 where
  pub db : Database
  -- identity_limit_counters is written on a connection of its own, which no other transaction
  -- rolls back
  pub counters : List LimitCounter
  pub transaction : Transaction
  -- how many outside inputs have been read
  pub step : ℕ

pub data Outcome (A : Type 0) : Type 0 where
  ok : A → World → Outcome A
  err : Err → World → Outcome A

abbrev pub M : Type 0 → Type 0
M A = Env → World → Outcome A

abbrev pub pure : {A : Type 0} → A → M A
pure a e w = ok a w

abbrev pub fail : {A : Type 0} → Err → M A
fail x e w = err x w

infixl 5 ◌>>=◌ ◌>>◌
-- A bind is shut, so that proofs take a run apart by the laws of Run/Laws.antt.
unfoldable pub ◌>>=◌ : {A B : Type 0} → M A → (A → M B) → M B
◌>>=◌ m f e w = elim (m e w) [ ok a v ↦ f a e v | err x v ↦ err x v ]

abbrev pub ◌>>◌ : {B : Type 0} → M (Unit {0}) → M B → M B
m >> k = m >>= λ _. k

-- `if c { return x }`.
unfoldable pub refuse_if : Bool → Err → M (Unit {0})
refuse_if true x e w = err x w
refuse_if false x e w = ok tt w

-- `if err != nil { return g(err) }` around a call.
unfoldable pub map_err : {A : Type 0} → (Err → Err) → M A → M A
map_err g m e w = elim (m e w) [ ok a v ↦ ok a v | err x v ↦ err (g x) v ]

-- A value and its error, for code that goes on after an error.
pub data Attempted (A : Type 0) : Type 0 where
  value : A → Attempted A
  error : Err → Attempted A

unfoldable pub attempt : {A : Type 0} → M A → M (Attempted A)
attempt m e w = elim (m e w) [ ok a v ↦ ok (value a) v | err x v ↦ ok (error x) v ]

abbrev pub tick : World → World
tick w = record w { step = suc w.step }

-- What a statement answers: its rows and the new tables, or an error.
pub data Reply (A : Type 0) : Type 0 where
  rows : A → Database → Reply A
  rejected : Err → Reply A

abbrev pub settle : {A : Type 0} → Reply A → World → Outcome A
settle (rows a d) w = ok a (record w { db = d })
settle (rejected x) w = err x w

-- A statement reads its timestamp and a fresh uuid, and fails where the environment says so.
unfoldable pub statement : {A : Type 0} → (ℕ → ℕ → Database → Reply A) → M A
statement f e w = elim (e.fault w.step) [
  | some x ↦ err x (tick w)
  | none ↦ settle (f (e.statement_timestamp w.step) (e.gen_random_uuid w.step) w.db) (tick w)
]

-- A statement that only reads.
unfoldable pub query : {A : Type 0} → (ℕ → Database → A) → M A
unfolding statement
query f = statement (λ now id d. rows (f now d) d)

-- A statement that writes and cannot break a constraint.
unfoldable pub exec : {A : Type 0} → (ℕ → Database → A × Database) → M A
unfolding statement
exec f = statement (λ now id d. let (a, d') = f now d in rows a d')

unfoldable pub time_now : M ℕ
time_now e w = ok (e.time_now w.step) (tick w)

-- `ctx.Err()` returned as the error.
unfoldable pub check_context : M (Unit {0})
check_context e w = elim (e.context_err w.step) [ some x ↦ err x (tick w) | none ↦ ok tt (tick w) ]

-- `rand.Read` of n bytes.
unfoldable pub rand_read : ℕ → Err → M Text
rand_read n x e w = elim (e.random w.step n) [ some b ↦ ok b (tick w) | none ↦ err x (tick w) ]

-- `uuid.NewRandom()`.
unfoldable pub new_uuid : Err → M Text
new_uuid x e w = elim (e.random_uuid w.step) [
  | some u ↦ ok (e.uuid_string u) (tick w)
  | none ↦ err x (tick w)
]

-- A library function applied under the environment.
unfoldable pub asks : {A : Type 0} → (Env → A) → M A
asks f e w = ok (f e) w

-- A sum of a value and an error, as the domain functions return it.
pub data Result (A : Type 0) : Type 0 where
  done : A → Result A
  refused : Err → Result A

unfoldable pub lift : {A : Type 0} → (Env → Result A) → M A
lift f e w = elim (f e) [ done a ↦ ok a w | refused x ↦ err x w ]

pub Result-cases :
    {A : Type 0} (r : Result A) → ((a : A) × (r ≡ done a)) ⊎ ((x : Err) × (r ≡ refused x))
Result-cases (done a) = inl (a, refl)
Result-cases (refused x) = inr (x, refl)
