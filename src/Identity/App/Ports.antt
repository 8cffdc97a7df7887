-- ===== src/Identity/App/Ports.antt =====
-- What the services are given: limits, the token signer and the delivery protector. A nil dependency
-- is `none`.
use flowspace_api.Base.{
  ℕ, Bool, false, ◌||◌, Option, none, some, List, [], ◌∷◌, ◌==◌, if◌then◌else◌, length, Text,
}
use flowspace_api.Identity.Errors.{Err, Sentinel, sentinel, is, is_context}
use flowspace_api.Identity.Run.{M, pure, check_context, time_now, ◌>>=◌}
use flowspace_api.Identity.Repository.Challenges.{DeliveryMaterial}

-- outbound.AccessTokenClaims
pub record AccessTokenClaims : Type 0 where
  pub subject : Text
  pub session_id : Text
  pub id : Text
  pub issued_at : ℕ
  pub expires_at : ℕ

-- `TokenSigner.Sign`
abbrev pub Signer : Type 0
Signer = AccessTokenClaims → M Text

-- `DeliveryProtector.Protect`: challenge id, purpose, subject, address and code.
abbrev pub Protector : Type 0
Protector = Text → Text → Text → Text → Text → M DeliveryMaterial

-- `func(context.Context, string) error`
abbrev pub LimitOf : Type 0
LimitOf = Text → M (Unit {0})

-- A call of a dependency that the caller has tested for nil.
abbrev pub limit_by : Option LimitOf → LimitOf
limit_by none key = pure tt
limit_by (some limit) key = limit key

-- `len(key) == 32` and the dependencies that must not be nil.
abbrev pub key_ready : Text → Bool
key_ready key = length key == 32

-- `errors.Is` of one of the targets, or an error of the context.
unfoldable pub is_one_of : List Sentinel → Err → Bool
unfolding is
is_one_of [] x = false
is_one_of (t ∷ ts) x = is x t || is_one_of ts x

-- The switch that returns the listed errors and context errors as they are, and another in place of
-- the rest.
unfoldable pub keep_or : List Sentinel → Sentinel → Err → Err
unfolding is_one_of is_context
keep_or kept other x = if is_one_of kept x || is_context x then x else sentinel other

-- The wait for `claimResponseFloor` ends with the timer or the context; either way the answer is
-- `ctx.Err()`.
unfoldable pub await_response_floor : ℕ → M (Unit {0})
await_response_floor started = do now ← time_now; check_context

-- `select` on a slot of `hashSlots` and the end of the context.
unfoldable pub take_hash_slot : M (Unit {0})
take_hash_slot = check_context
