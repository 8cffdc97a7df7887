-- ===== src/Examples/Domains.antt =====
-- Encodings, addresses and challenges at concrete inputs.
use flowspace_api.Base.{
  ◌+◌, ◌*◌, ◌<◌, true, false, some, List, [], ◌∷◌, ◌++◌, map, Text, bytes, ◌≡◌, ◌↔◌, refl, inr, All,
  length, any, ltb, is_empty, arith, text_eq,
}
use flowspace_api.Encoding.Base64.{raw_url, encode, decode}
use flowspace_api.Encoding.Base64.RoundTrip.{IsByte, decode-encode}
use flowspace_api.Identity.Run.{done, ok, tick, ◌>>=◌, lift, asks}
use flowspace_api.Identity.Domain.Code.{new_code, valid_verification_code, code_verifier}
use flowspace_api.Identity.Domain.Code.Framing.{frame-injective}
use flowspace_api.Identity.Domain.Email.{at_sign, lower, is_bare_address, normalize_email}
use flowspace_api.Identity.Domain.Email.Normal.{has_at}
use flowspace_api.Identity.Domain.Email.Normal.{normalize_email-parts, normalize_email_idem}
use flowspace_api.Identity.Domain.Challenge.{
  Challenge, minute, purpose_verify_email, valid_purpose, new_challenge, check, code_accepted,
}
use flowspace_api.Identity.Domain.Challenge.Rules.{check-accepted, check-new_challenge}
use flowspace_api.Examples.Worlds.{quiet, start, zeros}

ann_bytes : All IsByte (bytes "ann")
ann_bytes = (omega arith, (omega arith, (omega arith, tt)))

decode-encode_example : decode false raw_url (encode raw_url (bytes "ann")) ≡ some (bytes "ann")
decode-encode_example = decode-encode false raw_url (bytes "ann") (inr refl) ann_bytes

frame-injective_example :
    ◌≡◌ {A = List Text} (bytes "a" ∷ bytes "bc" ∷ []) (bytes "a" ∷ bytes "bc" ∷ [])
frame-injective_example =
    frame-injective (bytes "a" ∷ bytes "bc" ∷ []) (bytes "a" ∷ bytes "bc" ∷ []) refl refl

ann_normal : normalize_email quiet (bytes "Ann@B.Org") ≡ done (bytes "Ann@b.org")
unfolding normalize_email text_eq
ann_normal = refl

normalize_email-parts_example :
    (local : Text) × (domain : Text) × (bytes "Ann@B.Org" ≡ local ++ at_sign ∷ domain)
    × (bytes "Ann@b.org" ≡ local ++ at_sign ∷ map lower domain)
    × (is_empty local ≡ false)
    × (is_empty domain ≡ false)
    × (has_at domain ≡ false)
    × (any (ltb 127) (bytes "Ann@B.Org") ≡ false)
    × (is_bare_address quiet (bytes "Ann@B.Org") ≡ true)
normalize_email-parts_example =
    normalize_email-parts quiet (bytes "Ann@B.Org") (bytes "Ann@b.org") ann_normal

normalize_email_idem_example : normalize_email quiet (bytes "Ann@b.org") ≡ done (bytes "Ann@b.org")
normalize_email_idem_example =
    normalize_email_idem quiet (bytes "Ann@B.Org") (bytes "Ann@b.org") ann_normal refl

abbrev ann_verifier : Text
ann_verifier =
    code_verifier quiet (zeros 32) (bytes "ann") (bytes "ann@b.org") purpose_verify_email
      (bytes "123456")

abbrev open_challenge : Challenge
open_challenge = record {
  id = bytes "1";
  email = bytes "ann@b.org";
  verifier = ann_verifier;
  wrong_guesses = 4;
  expires_at = 50 + 10 * minute;
}

check-accepted_example :
    (check quiet open_challenge
        (zeros 32)
        (bytes "ann")
        (bytes "ann@b.org")
        purpose_verify_email
        (bytes "123456")
        60
      ≡ code_accepted)
    ↔ ((bytes "ann@b.org" ≡ bytes "ann@b.org")
        × (4 < 5)
        × (60 < 50 + 10 * minute)
        × (length (zeros 32) ≡ 32)
        × (is_empty (bytes "ann") ≡ false)
        × (valid_purpose purpose_verify_email ≡ true)
        × (valid_verification_code (bytes "123456") ≡ true)
        × (normal : Text) × (normalize_email quiet (bytes "ann@b.org") ≡ done normal)
        × (code_verifier quiet (zeros 32) (bytes "ann") normal purpose_verify_email (bytes "123456")
            ≡ ann_verifier))
check-accepted_example =
    check-accepted quiet open_challenge (zeros 32) (bytes "ann") (bytes "ann@b.org")
      purpose_verify_email (bytes "123456") 60

address_normal : normalize_email quiet (bytes "ann@b.org") ≡ done (bytes "ann@b.org")
unfolding normalize_email text_eq
address_normal = refl

issued :
    new_challenge (zeros 32) (bytes "ann") (bytes "ann@b.org") purpose_verify_email 50 quiet start
    ≡ ok (bytes "123456", ann_verifier, 50 + 10 * minute) (tick start)
unfolding new_challenge ◌>>=◌ lift asks normalize_email text_eq valid_purpose purpose_verify_email
    new_code
issued = refl

check-new_challenge_example :
    check quiet open_challenge
      (zeros 32)
      (bytes "ann")
      (bytes "ann@b.org")
      purpose_verify_email
      (bytes "123456")
      60
    ≡ code_accepted
check-new_challenge_example =
    check-new_challenge quiet start (tick start) open_challenge (zeros 32) (bytes "ann")
      (bytes "ann@b.org") purpose_verify_email (bytes "123456") 50 60 (50 + 10 * minute)
      address_normal issued refl (omega arith) refl (omega arith)
