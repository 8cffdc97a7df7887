-- ===== src/Examples/Tokens.antt =====
-- A token verified by the Workspace service with the session check of Identity, at concrete inputs. A
-- token is a text here, signed by every key, whose session ID is two zeros.
use flowspace_api.Base.{◌≡◌, refl, true, some, [], ◌∷◌, Text, bytes, length, text_eq}
use flowspace_api.Authn.{Jose, Claims, Checked, checked, unauthenticated, verify_access_token}
use flowspace_api.Authn
use flowspace_api.Identity.Run
use flowspace_api.Identity.Run.{World, ok}
use flowspace_api.Identity.Http.Handler
use flowspace_api.Identity.Http.Sessions.{check_session_rpc}
use flowspace_api.Identity.Repository.Sessions.{check}
use flowspace_api.Identity.Repository.Transactions.{parse_uuid_or, row_or}
use flowspace_api.Identity.Statements.Sessions.{get_active_session_state}
use flowspace_api.Identity.App.Sessions
use flowspace_api.Workspace.Tokens.{accepted, verify_token}
use flowspace_api.Workspace.Tokens.Sessions.{ask_identity, verify_token-accepted}
use flowspace_api.Examples.Worlds.{quiet, start, zeros}

abbrev plain_jose : Jose
plain_jose = record {
  Token = Text;
  Key = Text;
  Standard = Text;
  parse_signed = λ raw. some raw;
  headers = λ token. (record { key_id = bytes "k"; typ = some (bytes "at+jwt") }) ∷ [];
  key_size = length;
  decode = λ token key. some (token, zeros 2);
  subject = λ standard. standard;
  token_id = λ standard. bytes "id";
  issued_at = λ standard. some 1;
  expiry = λ standard. some 9;
  is_expected = λ standard issuer audience. true;
}

abbrev published : Text → Checked Text
published key_id = checked (zeros 32)

ann_accepted :
    verify_token plain_jose
      (bytes "i")
      (bytes "a")
      published
      (ask_identity true quiet start)
      (bytes "ann")
    ≡ accepted (bytes "ann")
unfolding verify_token verify_access_token text_eq Authn.check_session ask_identity
    check_session_rpc Handler.◌>>=◌ Run.◌>>=◌ Run.refuse_if Run.map_err check parse_uuid_or
    get_active_session_state Run.query row_or Sessions.check_session
ann_accepted = refl

verify_token-accepted_example :
    (claims : Claims) × (v : World) × (verify_access_token plain_jose
        (bytes "i")
        (bytes "a")
        (bytes "ann")
        published
      ≡ checked claims)
    × (claims.subject ≡ bytes "ann")
    × (Sessions.check_session true claims.subject claims.session_id quiet start ≡ ok true v)
verify_token-accepted_example =
    verify_token-accepted plain_jose (bytes "i") (bytes "a") published true quiet start
      (bytes "ann") (bytes "ann") ann_accepted
