-- ===== src/Identity/Http/Authenticated.antt =====
-- What an answer of services/identity/internal/adapter/in/http/identity_handler.go shows of its call.
use flowspace_api.Base.{
  ◌≡◌, refl, Bool, true, false, List, [], ◌∷◌, Option, none, some, arith, Text, bytes, is_empty,
  ◌||◌, if◌then◌else◌, ap, sym, ◌∙◌,
}
use flowspace_api.Encoding.Fields.{fields, equal_fold_ascii}
use flowspace_api.Identity.Errors.{Err}
use flowspace_api.Identity.Run.{Env, World, M, Outcome, ok, err}
use flowspace_api.Identity.Http.Handler.{
  H, reply, deny, Answer, replied, failed, RequestContext, AccessTokenIdentity, Verifier, verified,
  verify_parts, authenticate, required, call, available, ◌>>=◌,
}
use flowspace_api.Identity.Http.Status.{Status, authentication_required, logout_rpc_error}
use flowspace_api.Identity.Http.Sessions.{logout_by}

abbrev IsVerified : Option Verifier → List Text → AccessTokenIdentity → Type 0
IsVerified verifier parts identity =
    (verify : Verifier) × (scheme : Text) × (token : Text) × (verifier ≡ some verify)
    × (parts ≡ scheme ∷ token ∷ [])
    × (equal_fold_ascii scheme (bytes "Bearer") ≡ true)
    × (verify token ≡ some identity)
    × (is_empty identity.subject ≡ false)
    × (is_empty identity.session_id ≡ false)

abbrev pub IsAuthenticated : Option Verifier → List Text → AccessTokenIdentity → Type 0
IsAuthenticated verifier authorization identity =
    (value : Text) × (authorization ≡ value ∷ []) × IsVerified verifier (fields value) identity

pub replied_inj :
    {A : Type 0} {a b : A} {v w : World} → replied a v ≡ replied b w → (a ≡ b) × (v ≡ w)
replied_inj h = (ground arith, ground arith)

passed :
    {A : Type 0} (b : Bool) (k : H A) (s : Status) (a : A) (e : Env) (w v : World)
    → (if b then k else deny s) e w ≡ replied a v
    → (b ≡ true) × (k e w ≡ replied a v)
passed true k s a e w v h = (refl, h)
passed false k s a e w v h = absurd (ground arith)

pub not_denied :
    {A : Type 0} (b : Bool) (k : H A) (s : Status) (a : A) (e : Env) (w v : World)
    → (if b then deny s else k) e w ≡ replied a v
    → (b ≡ false) × (k e w ≡ replied a v)
not_denied true k s a e w v h = absurd (ground arith)
not_denied false k s a e w v h = (refl, h)

verified-replied :
    (found : Option AccessTokenIdentity) (identity : AccessTokenIdentity) (e : Env) (w v : World)
    → verified found e w ≡ replied identity v
    → (found ≡ some identity)
      × (is_empty identity.subject ≡ false)
      × (is_empty identity.session_id ≡ false)
      × (v ≡ w)
unfolding verified
verified-replied none identity e w v h = absurd (ground arith)
verified-replied (some i) identity e w v h =
    let (given, replies) =
      not_denied (is_empty i.subject || is_empty i.session_id) (reply i) authentication_required
        identity e w v h in
    let (same_identity, same_world) = replied_inj replies in
    (ap some same_identity, ground arith, ground arith, sym same_world)

verify_parts-replied :
    (verifier : Option Verifier) (parts : List Text) (identity : AccessTokenIdentity) (e : Env)
    (w v : World)
    → verify_parts verifier parts e w ≡ replied identity v
    → IsVerified verifier parts identity × (v ≡ w)
unfolding verify_parts
verify_parts-replied none parts identity e w v h = absurd (ground arith)
verify_parts-replied (some verify) [] identity e w v h = absurd (ground arith)
verify_parts-replied (some verify) (scheme ∷ []) identity e w v h = absurd (ground arith)
verify_parts-replied (some verify) (scheme ∷ token ∷ other ∷ rest) identity e w v h =
    absurd (ground arith)
verify_parts-replied (some verify) (scheme ∷ token ∷ []) identity e w v h =
    let (bearer, run) =
      passed (equal_fold_ascii scheme (bytes "Bearer")) (verified (verify token))
        authentication_required identity e w v h in
    let (found, subject, session, same) = verified-replied (verify token) identity e w v run in
    ((verify, scheme, token, refl, refl, bearer, found, subject, session), same)

authenticate-replied :
    (verifier : Option Verifier) (authorization : List Text) (identity : AccessTokenIdentity)
    (e : Env) (w v : World)
    → authenticate verifier authorization e w ≡ replied identity v
    → IsAuthenticated verifier authorization identity × (v ≡ w)
unfolding authenticate
authenticate-replied verifier [] identity e w v h = absurd (ground arith)
authenticate-replied verifier (value ∷ other ∷ rest) identity e w v h = absurd (ground arith)
authenticate-replied verifier (value ∷ []) identity e w v h =
    let (shown, same) = verify_parts-replied verifier (fields value) identity e w v h in
    ((value, refl, shown), same)

answered :
    {A : Type 0} (rpc_error : Err → Status) (o : Outcome A) (a : A) (v : World)
    → (elim o [ ok b u ↦ replied b u | err x u ↦ failed (rpc_error x) u ]) ≡ replied a v
    → o ≡ ok a v
answered rpc_error (ok b u) a v h = ground arith
answered rpc_error (err x u) a v h = absurd (ground arith)

pub call-replied :
    {A : Type 0} (rpc_error : Err → Status) (m : M A) (a : A) (e : Env) (w v : World)
    → call rpc_error m e w ≡ replied a v
    → m e w ≡ ok a v
unfolding call
call-replied rpc_error m a e w v h = answered rpc_error (m e w) a v h

continued :
    {A B : Type 0} (first : Answer A) (k : A → H B) (b : B) (e : Env) (v : World)
    → (elim first [ replied a u ↦ k a e u | failed s u ↦ failed s u ]) ≡ replied b v
    → (a : A) × (u : World) × (first ≡ replied a u) × (k a e u ≡ replied b v)
continued (replied a u) k b e v h = (a, u, refl, h)
continued (failed s u) k b e v h = absurd (ground arith)

pub bind-replied :
    {A B : Type 0} (m : H A) (k : A → H B) (b : B) (e : Env) (w v : World)
    → (m >>= k) e w ≡ replied b v
    → (a : A) × (u : World) × (m e w ≡ replied a u) × (k a e u ≡ replied b v)
unfolding ◌>>=◌
bind-replied m k b e w v h = continued (m e w) k b e v h

required-replied :
    {A : Type 0} (request : Option A) (a : A) (e : Env) (w v : World)
    → required request e w ≡ replied a v
    → w ≡ v
unfolding required
required-replied none a e w v h = absurd (ground arith)
required-replied (some r) a e w v h = (replied_inj h).1

pub available-replied :
    {A : Type 0} (s : Status) (service : Option A) (a : A) (e : Env) (w v : World)
    → available s service e w ≡ replied a v
    → (service ≡ some a) × (w ≡ v)
unfolding available
available-replied s none a e w v h = absurd (ground arith)
available-replied s (some r) a e w v h = (ap some (replied_inj h).0, (replied_inj h).1)

-- A logout that is answered had one Authorization header, a Bearer token that the verifier read as
-- an identity with both parts, and the logout of that subject and session ended well.
pub logout_by-replied :
    (logout : Bool → Text → Text → M (Unit {0})) (ctx : RequestContext) (verifier : Option Verifier)
    (request : Option (Unit {0})) (service : Option Bool) (b : Bool) (e : Env) (w v : World)
    → logout_by logout ctx verifier request service e w ≡ replied b v
    → (b ≡ true)
      × ((identity : AccessTokenIdentity) × (has_repository : Bool) × IsAuthenticated verifier
            ctx.authorization identity
          × (service ≡ some has_repository)
          × (logout has_repository identity.subject identity.session_id e w ≡ ok tt v))
unfolding logout_by
logout_by-replied logout ctx verifier request service b e w v h =
    let (given, w1, r1, h1) = bind-replied _ _ b e w v h in
    let (identity, w2, r2, h2) = bind-replied _ _ b e w1 v h1 in
    let (has_repository, w3, r3, h3) = bind-replied _ _ b e w2 v h2 in
    let (unit, w4, r4, h4) = bind-replied _ _ b e w3 v h3 in
    let same1 = required-replied request given e w w1 r1 in
    let (shown, same2) = authenticate-replied verifier ctx.authorization identity e w1 w2 r2 in
    let (given_service, same3) = available-replied _ service has_repository e w2 w3 r3 in
    let out =
      call-replied logout_rpc_error (logout has_repository identity.subject identity.session_id)
        unit e w3 w4 r4 in
    let (answer, same4) = replied_inj h4 in
    (
      sym answer,
      (
        identity,
        has_repository,
        shown,
        given_service,
        ap (logout has_repository identity.subject identity.session_id e)
              (same1 ∙ (sym same2 ∙ same3))
            ∙ (out ∙ ap (ok tt) same4),
      ),
    )
