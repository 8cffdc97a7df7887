-- ===== src/Identity/Domain/ProviderLogin/Secrets.antt =====
-- Issued secrets are well formed, and which provider accounts start verified.
use flowspace_api.Base.{
  not, ◌&&◌, ◌||◌, ◌≡◌, refl, ◌⊎◌, ◌↔◌, Bool, true, false, some, arith, Text, text_eq, text_eq→eq,
  text_eq_refl, inl, inr, is_empty, ap, sym, subst, ◌∙◌,
}
use flowspace_api.Encoding.Base64.{raw_url}
use flowspace_api.Encoding.Base64.RoundTrip.{decode-encode}
use flowspace_api.Identity.Run.{Env, World, done, ok, Result-cases}
use flowspace_api.Identity.Run.Laws.{bind-ok, rand_read-ok, pure-ok}
use flowspace_api.Identity.Domain.Email.{normalize_email}
use flowspace_api.Identity.Domain.Password.Stored.{MakesBytes}
use flowspace_api.Identity.Domain.ProviderLogin.{
  new_provider_handoff_code, valid_provider_secret, new_provider_account_email, usable_email,
  provider_google, has_suffix, gmail_suffix,
}

-- A code from NewProviderHandoffCode passes ValidProviderSecret, given a random source that returns
-- as many bytes as asked for.
pub valid_provider_secret-new_provider_handoff_code :
    (e : Env) (w v : World) (code : Text)
    → MakesBytes e
    → new_provider_handoff_code e w ≡ ok code v
    → valid_provider_secret code ≡ true
unfolding new_provider_handoff_code valid_provider_secret
valid_provider_secret-new_provider_handoff_code e w v code m h =
    let (random, u, drawn, h1) = bind-ok _ _ e w h in
    let (bs, ls) = m.salt_bytes _ 32 (rand_read-ok 32 _ e w drawn).0 in
    rw (← (pure-ok h1).0, decode-encode true raw_url random (inr refl) bs, ls)

-- Whether an account of the provider starts verified.
starts : Text → Text → Text → Bool
starts provider address hosted_domain =
    text_eq provider provider_google
    && (has_suffix address gmail_suffix || not (is_empty hosted_domain))

StartsVerified : Text → Text → Text → Type 0
StartsVerified provider address hosted_domain =
    (provider ≡ provider_google)
    × ((has_suffix address gmail_suffix ≡ true) ⊎ (is_empty hosted_domain ≡ false))

starts_iff :
    (provider address hosted_domain : Text)
    → (starts provider address hosted_domain ≡ true) ↔ StartsVerified provider address hosted_domain
unfolding starts StartsVerified
starts_iff provider address hosted_domain = (
  λ h. (ground (arith, text_eq→eq provider provider_google), ground arith),
  λ (p, q). rw p (ground (arith, text_eq_refl provider_google)),
)

Bool_ext : (a b : Bool) → (a ≡ true → b ≡ true) → (b ≡ true → a ≡ true) → a ≡ b
Bool_ext a b f g = ground arith

usable :
    (e : Env) (provider email hosted_domain normal : Text)
    → normalize_email e email ≡ done normal
    → new_provider_account_email e provider email true hosted_domain
      ≡ some (normal, starts provider normal hosted_domain)
unfolding new_provider_account_email usable_email starts
usable e provider email hosted_domain normal n = rw n

-- A provider account gets an address exactly when the provider verified it and it normalizes, and
-- the account starts verified exactly when the provider is Google and the address is one of
-- gmail.com or the account has a hosted domain.
pub new_provider_account_email-some :
    (e : Env) (provider email hosted_domain address : Text) (verified starts_verified : Bool)
    → (new_provider_account_email e provider email verified hosted_domain
        ≡ some (address, starts_verified))
      ↔ ((verified ≡ true)
          × (normalize_email e email ≡ done address)
          × ((starts_verified ≡ true) ↔ (
              (provider ≡ provider_google)
              × ((has_suffix address gmail_suffix ≡ true) ⊎ (is_empty hosted_domain ≡ false)))))
unfolding new_provider_account_email StartsVerified
new_provider_account_email-some e provider email hosted_domain address false b =
    (λ h. absurd (cc h), λ (v, n, s). absurd (cc v))
new_provider_account_email-some e provider email hosted_domain address true b =
    elim (Result-cases (normalize_email e email)) [
      | inl (normal, n) ↦
          let made = usable e provider email hosted_domain normal n in
          (
            λ h.
                let same = sym made ∙ h in
                (
                  refl,
                  ground arith,
                  subst (λ c. (c ≡ true) ↔ StartsVerified provider address hosted_domain)
                      (ground arith) (starts_iff provider address hosted_domain),
                ),
            λ (v, m, s).
                let same : normal ≡ address = ground arith in
                let flag = starts_iff provider address hosted_domain in
                made
                ∙ rw same (
                    ap (λ c. some (address, c))
                      (Bool_ext (starts provider address hosted_domain) b (λ q. s.1 (flag.0 q))
                        (λ q. flag.1 (s.0 q)))),
          )
      | inr (x, n) ↦ (λ h. absurd (ground arith), λ (v, m, s). absurd (cc (n, m)))
    ]
