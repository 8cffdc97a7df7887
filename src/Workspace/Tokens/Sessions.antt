-- ===== src/Workspace/Tokens/Sessions.antt =====
-- The two services together: services/workspace/internal/adapter/out/identity/token_verifier.go asks
-- services/identity/internal/adapter/in/grpc/session_check_handler.go.
use flowspace_api.Base.{
  ◌≡◌, refl, true, false, Bool, some, arith, Text, is_empty, bytes, ltb, length, ◌||◌,
  if◌then◌else◌,
}
use flowspace_api.Authn.{
  Checked, checked, unauthenticated, unavailable, Claims, Jose, SessionReply, response, failure,
  session_verdict, check_session, verify_access_token,
}
use flowspace_api.Identity.Run.{Env, World, ok}
use flowspace_api.Identity.App.Sessions
use flowspace_api.Identity.Http.Status.{
  Code, ok_code, canceled_code, deadline_exceeded_code, already_exists_code, permission_denied_code,
  resource_exhausted_code, failed_precondition_code, unauthenticated_code, Status, status,
  invalid_field, with_reason, context_status, invalid_argument_code, unavailable_code,
  authentication_required, session_check_rpc_error,
}
use flowspace_api.Identity.Http.Handler.{Answer, replied, failed, AccessTokenIdentity, reply}
use flowspace_api.Identity.Http.Sessions.{check_session_rpc, identified}
use flowspace_api.Identity.Http.Authenticated.{
  replied_inj, not_denied, call-replied, bind-replied, available-replied,
}
use flowspace_api.Workspace.Tokens.{
  Verdict, token_unauthenticated, accepted, accept_if_verified, check_claims, verify_token,
}

unfoldable pub code_of : Status → Code
code_of (status code message) = code
code_of (invalid_field field reason) = invalid_argument_code
code_of (with_reason code message reason) = code
code_of (context_status code) = code

unfoldable pub reply_of : Answer Bool → SessionReply
unfolding code_of
reply_of (replied verified v) = response (some verified)
reply_of (failed s v) = failure (code_of s)

-- A call of the session check that the handler of Identity answers, in one world.
unfoldable pub ask_identity : Bool → Env → World → Text → Text → SessionReply
unfolding reply_of
ask_identity has_repository e w subject session_id = reply_of (
    check_session_rpc (some (record { subject = subject; session_id = session_id }))
      (some has_repository) e w)

identified-replied :
    (r a : AccessTokenIdentity) (e : Env) (w v : World)
    → identified (some r) e w ≡ replied a v
    → (r ≡ a) × (w ≡ v)
unfolding identified
identified-replied r a e w v h =
    let (given, replies) =
      not_denied (is_empty r.subject || is_empty r.session_id) (reply r) authentication_required a e
        w v h in
    replied_inj replies

check_session_rpc-replied :
    (r : AccessTokenIdentity) (has_repository verified : Bool) (e : Env) (w v : World)
    → check_session_rpc (some r) (some has_repository) e w ≡ replied verified v
    → Sessions.check_session has_repository r.subject r.session_id e w ≡ ok verified v
unfolding check_session_rpc
check_session_rpc-replied r has_repository verified e w v h =
    let (a, w1, r1, h1) = bind-replied _ _ verified e w v h in
    let (same, same1) = identified-replied r a e w w1 r1 in
    let (b, w2, r2, h2) = bind-replied _ _ verified e w1 v h1 in
    let (given, same2) =
      available-replied (status unavailable_code (bytes "session check unavailable"))
        (some has_repository) b e w1 w2 r2 in
    let out =
      call-replied session_check_rpc_error (Sessions.check_session b a.subject a.session_id)
        verified e w2 v h2 in
    cc (same, same1, same2, given, out)

failure-verdict : (code : Code) → session_verdict (failure code) ≡ checked true → ⊥
unfolding session_verdict
failure-verdict ok_code h = ground arith
failure-verdict canceled_code h = ground arith
failure-verdict invalid_argument_code h = ground arith
failure-verdict deadline_exceeded_code h = ground arith
failure-verdict already_exists_code h = ground arith
failure-verdict permission_denied_code h = ground arith
failure-verdict resource_exhausted_code h = ground arith
failure-verdict failed_precondition_code h = ground arith
failure-verdict unavailable_code h = ground arith
failure-verdict unauthenticated_code h = ground arith

reply_of-response :
    (a : Answer Bool)
    → session_verdict (reply_of a) ≡ checked true
    → (v : World) × (a ≡ replied true v)
unfolding reply_of session_verdict
reply_of-response (replied true v) h = (v, refl)
reply_of-response (replied false v) h = absurd (ground arith)
reply_of-response (failed s v) h = absurd (failure-verdict (code_of s) h)

accept_if_verified-accepted :
    (named subject : Text) (found : Checked Bool)
    → accept_if_verified named found ≡ accepted subject
    → (named ≡ subject) × (found ≡ checked true)
accept_if_verified-accepted named subject (checked true) h = (ground arith, refl)
accept_if_verified-accepted named subject (checked false) h = absurd (ground arith)
accept_if_verified-accepted named subject unauthenticated h = absurd (ground arith)
accept_if_verified-accepted named subject unavailable h = absurd (ground arith)

check_session-checked :
    (claims : Claims) (check : Text → Text → SessionReply) (verified : Bool)
    → check_session claims check ≡ checked verified
    → session_verdict (check claims.subject claims.session_id) ≡ checked verified
unfolding check_session
check_session-checked claims check verified h = ground arith

accepted_if :
    (b : Bool) (run : Verdict) (subject : Text)
    → (if b then token_unauthenticated else run) ≡ accepted subject
    → (b ≡ false) × (run ≡ accepted subject)
accepted_if true run subject h = absurd (ground arith)
accepted_if false run subject h = (refl, h)

check_claims-accepted :
    (found : Checked Claims) (check : Text → Text → SessionReply) (subject : Text)
    → check_claims found check ≡ accepted subject
    → (claims : Claims) × (found ≡ checked claims)
      × (claims.subject ≡ subject)
      × (session_verdict (check claims.subject claims.session_id) ≡ checked true)
unfolding check_claims
check_claims-accepted unavailable check subject h = absurd (ground arith)
check_claims-accepted unauthenticated check subject h = absurd (ground arith)
check_claims-accepted (checked claims) check subject h =
    let (same, verified) =
      accept_if_verified-accepted claims.subject subject (check_session claims check) h in
    (claims, refl, same, check_session-checked claims check true verified)

-- An accepted token has claims that verify with the published key, and the session that they name is
-- one for which the session check of Identity answered that the account has a verified address.
pub verify_token-accepted :
    (jose : Jose) (issuer audience : Text) (key_for : Text → Checked jose.Key)
    (has_repository : Bool) (e : Env) (w : World) (raw subject : Text)
    → verify_token jose issuer audience key_for (ask_identity has_repository e w) raw
      ≡ accepted subject
    → (claims : Claims) × (v : World) × (verify_access_token jose issuer audience raw key_for
        ≡ checked claims)
      × (claims.subject ≡ subject)
      × (Sessions.check_session has_repository claims.subject claims.session_id e w ≡ ok true v)
unfolding verify_token ask_identity
verify_token-accepted jose issuer audience key_for has_repository e w raw subject h =
    let (given, run) =
      accepted_if (is_empty raw || ltb 8192 (length raw))
        (check_claims (verify_access_token jose issuer audience raw key_for)
          (ask_identity has_repository e w))
        subject h in
    let (claims, shown, same, verdict) =
      check_claims-accepted (verify_access_token jose issuer audience raw key_for)
        (ask_identity has_repository e w) subject run in
    let (v, answer) =
      reply_of-response
        (check_session_rpc
          (some (record { subject = claims.subject; session_id = claims.session_id }))
          (some has_repository) e w)
        verdict in
    (
      claims,
      v,
      shown,
      same,
      check_session_rpc-replied
          (record { subject = claims.subject; session_id = claims.session_id }) has_repository true
          e w v answer,
    )
