-- ===== src/Identity/Errors.antt =====
-- Go errors of the Identity service (services/identity/internal/domain/errors.go, app/errors.go,
-- port/out/errors.go, adapter/out/postgres/errors.go, adapter/in/event/errors.go) and `errors.Is`.
use flowspace_api.Base.{ℕ, Bool, false, ◌||◌, ◌==◌}

-- The values made by `errors.New`, with the two errors of a context.
pub data Sentinel : Type 0 where
  code_generation_unavailable invalid_attempt_token invalid_challenge invalid_handoff_code
        invalid_email invalid_password invalid_provider invalid_provider_proof
        password_check_unavailable password_hashing_unavailable invalid_claim_code claim_unavailable
        all_logout_unavailable claim_code_unavailable invalid_reauthentication_code
        reauthentication_email_unverified current_logout_unavailable invalid_limit_key
        limit_unavailable rate_limited invalid_credentials login_unavailable
        password_reset_code_unavailable invalid_password_reset_code password_reset_unavailable
        provider_login_unavailable invalid_provider_callback provider_handoff_rejected
        provider_account_unavailable reauthentication_unavailable session_check_unavailable
        invalid_refresh_token unauthenticated_refresh refresh_unavailable session_issue
        signup_unavailable email_already_verified verification_code_unavailable
        invalid_verification_code unauthenticated reauthentication_required account_exists
        delivery_material_gone outbox_claim_lost invalid_delivery_event email_delivery
        delivery_broker invalid_source_address canceled deadline_exceeded :
      Sentinel

-- Each `errors.New` is a value of its own, so its place in the list identifies it.
unfoldable pub tag : Sentinel → ℕ
tag code_generation_unavailable = 0
tag invalid_attempt_token = 1
tag invalid_challenge = 2
tag invalid_handoff_code = 3
tag invalid_email = 4
tag invalid_password = 5
tag invalid_provider = 6
tag invalid_provider_proof = 7
tag password_check_unavailable = 8
tag password_hashing_unavailable = 9
tag invalid_claim_code = 10
tag claim_unavailable = 11
tag all_logout_unavailable = 12
tag claim_code_unavailable = 13
tag invalid_reauthentication_code = 14
tag reauthentication_email_unverified = 15
tag current_logout_unavailable = 16
tag invalid_limit_key = 17
tag limit_unavailable = 18
tag rate_limited = 19
tag invalid_credentials = 20
tag login_unavailable = 21
tag password_reset_code_unavailable = 22
tag invalid_password_reset_code = 23
tag password_reset_unavailable = 24
tag provider_login_unavailable = 25
tag invalid_provider_callback = 26
tag provider_handoff_rejected = 27
tag provider_account_unavailable = 28
tag reauthentication_unavailable = 29
tag session_check_unavailable = 30
tag invalid_refresh_token = 31
tag unauthenticated_refresh = 32
tag refresh_unavailable = 33
tag session_issue = 34
tag signup_unavailable = 35
tag email_already_verified = 36
tag verification_code_unavailable = 37
tag invalid_verification_code = 38
tag unauthenticated = 39
tag reauthentication_required = 40
tag account_exists = 41
tag delivery_material_gone = 42
tag outbox_claim_lost = 43
tag invalid_delivery_event = 44
tag email_delivery = 45
tag delivery_broker = 46
tag invalid_source_address = 47
tag canceled = 48
tag deadline_exceeded = 49

-- The constraints whose violation the code tells from other database errors.
pub data Constraint : Type 0 where
  active_email reauthentication_deadline other_constraint : Constraint

-- An error value: a sentinel, a database constraint, an error of a library, or `errors.Join`.
pub data Err : Type 0 where
  sentinel : Sentinel → Err
  constraint : Constraint → Err
  foreign : ℕ → Err
  joined : Err → Err → Err

-- `errors.Is(err, target)`: the error itself, or one that it joins.
unfoldable pub is : Err → Sentinel → Bool
unfolding tag
is (sentinel s) t = tag s == tag t
is (constraint c) t = false
is (foreign n) t = false
is (joined a b) t = is a t || is b t

-- `errors.Is(err, context.Canceled), errors.Is(err, context.DeadlineExceeded)`.
unfoldable pub is_context : Err → Bool
unfolding is
is_context x = is x canceled || is x deadline_exceeded

-- Errors that are made in place, and that no code asks for: an id that does not parse, "invalid
-- normalized email", "invalid challenge verifier", "password account unavailable" and "password
-- notice account unavailable".
abbrev pub invalid_uuid : Err
invalid_uuid = foreign 0

abbrev pub invalid_normalized_email : Err
invalid_normalized_email = foreign 1

abbrev pub invalid_challenge_verifier : Err
invalid_challenge_verifier = foreign 2

abbrev pub password_account_unavailable : Err
password_account_unavailable = foreign 3

abbrev pub password_notice_unavailable : Err
password_notice_unavailable = foreign 4

-- The error of uuid.NewRandom.
abbrev pub random_uuid_unavailable : Err
random_uuid_unavailable = foreign 6
