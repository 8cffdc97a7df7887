-- ===== src/Identity/Domain/Challenge/Rules.antt =====
-- What the checks of a challenge decide.
use flowspace_api.Base.{
  ℕ, ◌+◌, ◌*◌, ◌≡◌, refl, ◌<◌, ◌↔◌, true, false, arith, length, Text, text_eq_refl, text_eq→eq,
  is_empty, Option-cases, inl, inr,
}
use flowspace_api.Identity.Run.{Env, World, done, ok, Result-cases, ◌>>=◌, lift, asks}
use flowspace_api.Identity.Domain.Email.{normalize_email}
use flowspace_api.Identity.Domain.Code.{
  valid_verification_code, six_digits, new_code, code_verifier,
}
use flowspace_api.Identity.Domain.Challenge.{
  Challenge, code_accepted, valid_purpose, matches_verifier, check, check_in_fixed_time,
  new_challenge, minute,
}

-- `Check` and `CheckInFixedTime` give the same result on every input.
pub check_in_fixed_time-check :
    (e : Env) (c : Challenge) (key subject email purpose code : Text) (now : ℕ)
    → check_in_fixed_time e c key subject email purpose code now
      ≡ check e c key subject email purpose code now
unfolding check check_in_fixed_time
check_in_fixed_time-check e c key subject email purpose code now = refl

-- A code is accepted exactly when the challenge is for this address, has fewer than 5 wrong
-- guesses and has not expired, and the code has 6 digits whose verifier under a 32-byte key, for a
-- subject, a known purpose and the normalized address, is the stored one.
pub check-accepted :
    (e : Env) (c : Challenge) (key subject email purpose code : Text) (now : ℕ)
    → (check e c key subject email purpose code now ≡ code_accepted) ↔ (
        (c.email ≡ email)
        × (c.wrong_guesses < 5)
        × (now < c.expires_at)
        × (length key ≡ 32)
        × (is_empty subject ≡ false)
        × (valid_purpose purpose ≡ true)
        × (valid_verification_code code ≡ true)
        × (normal : Text) × (normalize_email e email ≡ done normal)
        × (code_verifier e key subject normal purpose code ≡ c.verifier))
unfolding check matches_verifier
check-accepted e c key subject email purpose code now = (
  λ h. elim (Result-cases (normalize_email e email)) [
    | inl (normal, n) ↦ (
      ground (arith, text_eq→eq c.email email),
      ground arith,
      ground arith,
      ground arith,
      ground arith,
      ground arith,
      ground arith,
      normal,
      n,
      ground (arith, text_eq→eq (code_verifier e key subject normal purpose code) c.verifier),
    )
    | inr (x, n) ↦ absurd (ground arith)
  ],
  λ (address, guesses, open_until, key_size, named, known, digits, normal, n, v).
      ground (arith, text_eq_refl email, text_eq_refl c.verifier),
)

six_digits-valid : (n : ℕ) → valid_verification_code (six_digits n) ≡ true
unfolding valid_verification_code six_digits
six_digits-valid n = ground arith

-- A code made by NewChallenge for a normalized address is accepted until the challenge expires,
-- by a challenge for that address with fewer than 5 wrong guesses that is stored with the
-- verifier and expiry that it returned.
pub check-new_challenge :
    (e : Env) (w v : World) (c : Challenge) (key subject address purpose code : Text)
    (now later expires : ℕ)
    → normalize_email e address ≡ done address
    → new_challenge key subject address purpose now e w ≡ ok (code, c.verifier, expires) v
    → c.email ≡ address
    → c.wrong_guesses < 5
    → c.expires_at ≡ expires
    → later < now + 10 * minute
    → check e c key subject address purpose code later ≡ code_accepted
unfolding new_challenge new_code ◌>>=◌ lift asks
check-new_challenge e w v c key subject address purpose code now later expires n h a g x t =
    (check-accepted e c key subject address purpose code later).1 (
      a,
      g,
      ground arith,
      ground arith,
      ground arith,
      ground arith,
      drawn,
      address,
      n,
      ground arith,
    )
  where
    drawn : valid_verification_code code ≡ true
    drawn = elim (Option-cases (e.random_below w.step 1000000)) [
      | inl r ↦ absurd (ground arith)
      | inr (k, r) ↦ ground (arith, six_digits-valid k)
    ]
