-- ===== src/Examples/Worlds.antt =====
-- A concrete environment and a small database for the runs.
use flowspace_api.Base.{ℕ, zero, suc, ◌+◌, none, some, [], ◌∷◌, Text, bytes, length}
use flowspace_api.Identity.Database.{Account, Session, ChallengeRow, Database}
use flowspace_api.Identity.Run.{Env, World}
use flowspace_api.Identity.Domain.Password.{stored_password}
use flowspace_api.Identity.Domain.Challenge.{purpose_password_reset}

abbrev pub zeros : ℕ → Text
zeros zero = []
zeros (suc n) = 0 ∷ zeros n

-- The first bytes of a text, padded with zeros.
abbrev pub first : ℕ → Text → Text
first zero t = []
first (suc n) [] = 0 ∷ first n []
first (suc n) (c ∷ t) = c ∷ first n t

-- Outside inputs that never fail. A keyed hash is the start of its message, a key is zeros, and the
-- clocks count the inputs that were read.
abbrev pub quiet : Env
quiet = record {
  hmac = λ k m. first 32 m;
  sha256 = λ s. s;
  argon2_id_key = λ p s. zeros 32;
  parse_address = λ s. some ([], s);
  nfc = λ s. s;
  to_lower = λ s. s;
  parse_uuid = λ s. some (length s);
  uuid_string = λ n. zeros n;
  fault = λ n. none;
  statement_timestamp = λ n. n + 100;
  time_now = λ n. n + 100;
  gen_random_uuid = λ n. n + 50;
  random_uuid = λ n. some (n + 50);
  random = λ n k. some (zeros k);
  random_below = λ n k. some 123456;
  context_err = λ n. none;
}

abbrev pub ann : Account
ann = record {
  subject = bytes "ann";
  email_local = bytes "ann";
  email_domain = bytes "b.org";
  password_hash = some (stored_password (zeros 16) (zeros 32));
  email_verified_at = some 1;
  retired_at = none;
}

abbrev pub ann_session : Session
ann_session = record {
  id = 2;
  account_subject = bytes "ann";
  refresh_token_hash = bytes "t1";
  created_at = 1;
  reauthenticated_at = some 1;
  idle_expires_at = 5000;
  absolute_expires_at = 9000;
  revoked_at = none;
}

-- A challenge whose code is 123456: the verifier is the start of the framed message.
abbrev pub ann_challenge : ChallengeRow
ann_challenge = record {
  id = 3;
  account_subject = bytes "ann";
  purpose = purpose_password_reset;
  email_local = bytes "ann";
  email_domain = bytes "b.org";
  code_verifier = first 32 (bytes "3:ann9:ann@b.org14:password-reset6:123456");
  wrong_guesses = 1;
  issued_at = 10;
  expires_at = 4000;
  replaced_at = none;
  consumed_at = none;
}

abbrev pub tables : Database
tables = record {
  accounts = ann ∷ [];
  sessions = ann_session ∷ [];
  challenges = ann_challenge ∷ [];
  deliveries = [];
  outbox = [];
  notices = [];
  rotated_tokens = [];
  attempts = [];
  links = [];
}

abbrev pub start : World
start = record {
  db = tables;
  counters = [];
  transaction = record {
    reauthentication_session = none;
    reauthentication_subject = [];
    reauthentication_deadline = 0;
    requested_session = none;
    deadline_setting = none;
  };
  step = 0;
}
