-- ===== src/Examples/Transport.antt =====
-- The HTTP handlers of Identity run at concrete inputs. Addresses and prefixes are texts here, and a
-- prefix contains itself alone.
use flowspace_api.Base.{
  ◌≡◌, refl, true, false, none, some, List, [], ◌∷◌, Text, bytes, text_eq, Bool, if◌then◌else◌,
}
use flowspace_api.Identity.Run.{World, done, ok}
use flowspace_api.Identity.Run.Laws.{world_of}
use flowspace_api.Identity.App.Sessions.{logout_current_session}
use flowspace_api.Identity.Http.Source.{Net, SourceHeaders, source_address, is_given}
use flowspace_api.Identity.Http.Source.Trusted.{Answers, source_address-Answers}
use flowspace_api.Identity.Http.Handler.{RequestContext, AccessTokenIdentity, Verifier, replied}
use flowspace_api.Identity.Http.Sessions.{logout_by}
use flowspace_api.Identity.Http.Authenticated.{IsAuthenticated, logout_by-replied}
use flowspace_api.Examples.Worlds.{quiet, start, zeros}

abbrev plain_net : Net
plain_net = record {
  Addr = Text;
  Prefix = Text;
  split_host_port = λ s. some (s, []);
  parse_addr = λ s. some s;
  zone = λ a. [];
  unmap = λ a. a;
  addr_text = λ a. a;
  parse_prefix = λ s. some s;
  bits = λ p. 32;
  prefix_addr = λ p. p;
  masked = λ p. p;
  contains = text_eq;
}

abbrev proxies : List Text
proxies = bytes "p" ∷ []

abbrev forwarded_twice : SourceHeaders
forwarded_twice = record { forwarded = []; x_real_ip = []; x_forwarded_for = bytes "z, a, p" ∷ [] }

forwarded_source : source_address plain_net (bytes "p") forwarded_twice proxies ≡ done (bytes "a")
unfolding source_address flowspace_api.Encoding.Split.split text_eq
    flowspace_api.Encoding.Trim.trim_space
forwarded_source = refl

source_address-Answers_example :
    (is_given plain_net forwarded_twice.forwarded ≡ false)
    × (is_given plain_net forwarded_twice.x_real_ip ≡ false)
    × Answers plain_net proxies (bytes "p") forwarded_twice (bytes "a")
source_address-Answers_example =
    source_address-Answers plain_net proxies (bytes "p") forwarded_twice (bytes "a")
      forwarded_source

abbrev ann_identity : AccessTokenIdentity
ann_identity = record { subject = bytes "ann"; session_id = zeros 2 }

abbrev knows_ann : Verifier
knows_ann token = if text_eq token (bytes "t") then some ann_identity else none

abbrev ann_context : RequestContext
ann_context = record {
  idempotency_keys = [];
  authorization = bytes "bearer t" ∷ [];
  stored_source = none;
  peer_address = none;
  headers = forwarded_twice;
}

abbrev logged_out : World
logged_out = world_of (logout_current_session true (bytes "ann") (zeros 2) quiet start)

ann_logs_out :
    logout_by logout_current_session ann_context (some knows_ann) (some tt) (some true) quiet start
    ≡ replied true logged_out
unfolding logout_by flowspace_api.Identity.Http.Handler.◌>>=◌ flowspace_api.Encoding.Fields.fields
    flowspace_api.Encoding.Fields.equal_fold_ascii text_eq logout_current_session
    flowspace_api.Identity.Run.◌>>=◌ flowspace_api.Identity.Run.refuse_if
    flowspace_api.Identity.Run.map_err flowspace_api.Identity.Repository.Sessions.revoke_current
    flowspace_api.Identity.Repository.Transactions.parse_uuid_or
    flowspace_api.Identity.Statements.Sessions.revoke_current_session
    flowspace_api.Identity.Run.exec
ann_logs_out = refl

logout_by-replied_example :
    (true ≡ true)
    × ((identity : AccessTokenIdentity) × (has_repository : Bool) × IsAuthenticated
          (some knows_ann)
          ann_context.authorization
          identity
        × (some true ≡ some has_repository)
        × (logout_current_session has_repository identity.subject identity.session_id quiet start
            ≡ ok tt logged_out))
logout_by-replied_example =
    logout_by-replied logout_current_session ann_context (some knows_ann) (some tt) (some true) true
      quiet start logged_out ann_logs_out
