-- ===== src/Identity/Domain/Password/Stored.antt =====
-- A stored password is read back: what HashPassword stores, VerifyPassword accepts.
use flowspace_api.Base.{
  ℕ, ◌≡◌, refl, Bool, true, false, [], ◌∷◌, ◌++◌, some, none, Option, All, arith, any, length, Text,
  text_eq_refl, ◌==◌, inl, suc,
}
use flowspace_api.Base.{◌∙◌, sym, ap}
use flowspace_api.Identity.Domain.Password.Rules.{normalize_login_password-validate_password}
use flowspace_api.Encoding.Base64.{raw_std, encode, letter}
use flowspace_api.Encoding.Base64.RoundTrip.{IsByte, decode-encode}
use flowspace_api.Encoding.Split.{split}
use flowspace_api.Identity.Run.{Env, World, M, done, ok, tick}
use flowspace_api.Identity.Run.Laws.{
  asks-run, asks-ok, pure-ok, bind-ok, lift-ok, rand_read-ok, bind-run, lift-run, check_context-run,
}
use flowspace_api.Identity.Domain.Password.{
  scheme_part, version_part, parameters_part, stored_password, stored_parts, hash_password,
  verify_password, validate_password, normalize_login_password,
}

abbrev has_dollar : Text → Bool
has_dollar = any (λ c. c == b'$')

-- Splitting cuts off the text in front of the first separator.
split-append : (s t : Text) → has_dollar s ≡ false → split b'$' (s ++ b'$' ∷ t) ≡ s ∷ split b'$' t
unfolding split
split-append [] t h = refl
split-append (c ∷ s) t h = ground (arith, split-append s t)

split-last : (s : Text) → has_dollar s ≡ false → split b'$' s ≡ s ∷ []
unfolding split
split-last [] h = refl
split-last (c ∷ s) h = ground (arith, split-last s)

letter-dollar : (v : ℕ) → (letter raw_std v == b'$') ≡ false
unfolding letter
letter-dollar v = ground arith

encode-dollar : (s : Text) → has_dollar (encode raw_std s) ≡ false
unfolding encode
encode-dollar [] = refl
encode-dollar (a ∷ []) = simp letter-dollar
encode-dollar (a ∷ b ∷ []) = simp letter-dollar
encode-dollar (a ∷ b ∷ c ∷ s) = simp letter-dollar (encode-dollar s)

scheme_plain : has_dollar scheme_part ≡ false
unfolding scheme_part
scheme_plain = refl

version_plain : has_dollar version_part ≡ false
unfolding version_part
version_plain = refl

parameters_plain : has_dollar parameters_part ≡ false
unfolding parameters_part
parameters_plain = refl

split-stored_password :
    (salt hash : Text)
    → split b'$' (stored_password salt hash)
      ≡ []
        ∷ scheme_part
        ∷ version_part
        ∷ parameters_part
        ∷ encode raw_std salt
        ∷ encode raw_std hash
        ∷ []
unfolding stored_password
split-stored_password salt hash = rw (
  split-append [] _ refl,
  split-append scheme_part _ scheme_plain,
  split-append version_part _ version_plain,
  split-append parameters_part _ parameters_plain,
  split-append (encode raw_std salt) _ (encode-dollar salt),
  split-last (encode raw_std hash) (encode-dollar hash),
)

-- The salt and the hash are read back from the stored text, when they are bytes and have the lengths
-- that HashPassword asks for.
pub stored_parts-stored_password :
    (salt hash : Text)
    → All IsByte salt
    → All IsByte hash
    → length salt ≡ 16
    → length hash ≡ 32
    → stored_parts (split b'$' (stored_password salt hash)) ≡ some (salt, hash)
unfolding stored_parts
stored_parts-stored_password salt hash bs bh ls lh = rw (
  split-stored_password salt hash,
  text_eq_refl scheme_part,
  text_eq_refl version_part,
  text_eq_refl parameters_part,
  decode-encode false raw_std salt (inl refl) bs,
  decode-encode false raw_std hash (inl refl) bh,
  ls,
  lh,
)

-- What the random source and the key function are documented to return: as many bytes as asked for.
pub record MakesBytes (e : Env) : Type 0 where
  pub salt_bytes : (n k : ℕ) {s : Text} → e.random n k ≡ some s → All IsByte s × (length s ≡ k)
  pub key_bytes :
      (p s : Text) → All IsByte (e.argon2_id_key p s) × (length (e.argon2_id_key p s) ≡ 32)
  pub nfc_empty : e.nfc [] ≡ []

verify_stored :
    (e : Env) (w : World) (input password salt : Text)
    → MakesBytes e
    → normalize_login_password e input ≡ done password
    → All IsByte salt
    → length salt ≡ 16
    → e.context_err w.step ≡ none
    → e.context_err (suc w.step) ≡ none
    → verify_password input (stored_password salt (e.argon2_id_key password salt)) e w
      ≡ ok true (tick (tick w))
unfolding verify_password
verify_stored e w input password salt m n bs ls c d =
    let (bh, lh) = m.key_bytes password salt in
    let parts = stored_parts-stored_password salt (e.argon2_id_key password salt) bs bh ls lh in
    bind-run _ _ e w (lift-run _ e w n)
    ∙ bind-run _ _ e w {a = (salt, e.argon2_id_key password salt)} (rw parts)
    ∙ bind-run _ _ e w (check_context-run e w c)
    ∙ bind-run _ _ e (tick w) (asks-run _ e (tick w))
    ∙ bind-run _ _ e (tick w) (check_context-run e (tick w) d)
    ∙ rw (text_eq_refl (e.argon2_id_key password salt))

hash_password-stored :
    (e : Env) (w v : World) (input stored : Text) (compromised : Option (Text → M Bool))
    → hash_password input compromised e w ≡ ok stored v
    → (password : Text) × (salt : Text) × (n : ℕ) × (validate_password e input ≡ done password)
      × (e.random n 16 ≡ some salt)
      × (stored ≡ stored_password salt (e.argon2_id_key password salt))
unfolding hash_password
hash_password-stored e w v input stored compromised h =
    let (password, w1, validated, h1) = bind-ok _ _ e w h in
    let (blocked, w2, asked, h2) = bind-ok _ _ e w1 h1 in
    let (_, w3, passed, h3) = bind-ok _ _ e w2 h2 in
    let (_, w4, live, h4) = bind-ok _ _ e w3 h3 in
    let (salt, w5, drawn, h5) = bind-ok _ _ e w4 h4 in
    let (hash, w6, hashed, h6) = bind-ok _ _ e w5 h5 in
    (
      password,
      salt,
      w4.step,
      (lift-ok _ e w validated).0,
      (rand_read-ok 16 _ e w4 drawn).0,
      sym (pure-ok h6).0 ∙ ap (stored_password salt) (asks-ok _ e w5 hashed).0,
    )

-- What HashPassword stores for a password, VerifyPassword accepts for the same password, in any
-- run whose context is not ended, whatever the check for compromised passwords does, if the
-- random source and the key function return as many bytes as asked for and the empty text is its
-- own NFC form.
pub verify_password-hash_password :
    (e : Env) (w v u : World) (input stored : Text) (compromised : Option (Text → M Bool))
    → MakesBytes e
    → hash_password input compromised e w ≡ ok stored v
    → e.context_err u.step ≡ none
    → e.context_err (suc u.step) ≡ none
    → verify_password input stored e u ≡ ok true (tick (tick u))
verify_password-hash_password e w v u input stored compromised m h c d =
    let (password, salt, n, valid, drawn, eq) =
      hash_password-stored e w v input stored compromised h in
    let (bs, ls) = m.salt_bytes n 16 drawn in
    rw eq (
      verify_stored e u input password salt m
        (normalize_login_password-validate_password e input password m.nfc_empty valid) bs ls c d)
