-- ===== src/Identity/Domain/Email/Normal.antt =====
-- What a normalized address looks like.
use flowspace_api.Base.{
  ℕ, ◌≡◌, refl, Bool, true, false, [], ◌∷◌, ◌++◌, map, none, some, arith, ltb, any, Text,
  text_eq_refl, Option-cases, inl, inr, is_empty, ◌==◌, ◌||◌, ◌∙◌,
}
use flowspace_api.Identity.Run.{Env, done}
use flowspace_api.Identity.Domain.Email.{
  at_sign, lower, cut_last, is_bare_address, lower_domain, normalize_email,
}

lower-lower : (c : ℕ) → lower (lower c) ≡ lower c
unfolding lower
lower-lower c = ground arith

lower_at : (c : ℕ) → (lower c == at_sign) ≡ (c == at_sign)
unfolding lower
lower_at c = ground arith

lower_ascii : (c : ℕ) → ltb 127 (lower c) ≡ ltb 127 c
unfolding lower
lower_ascii c = ground arith

map-lower-lower : (s : Text) → map lower (map lower s) ≡ map lower s
map-lower-lower [] = refl
map-lower-lower (c ∷ s) = cc (lower-lower c, map-lower-lower s)

abbrev pub has_at : Text → Bool
has_at = any (λ c. c == at_sign)

has_at-lower : (s : Text) → has_at (map lower s) ≡ has_at s
has_at-lower [] = refl
has_at-lower (c ∷ s) = rw (lower_at c, has_at-lower s)

any-lower : (s : Text) → any (ltb 127) (map lower s) ≡ any (ltb 127) s
any-lower [] = refl
any-lower (c ∷ s) = rw (lower_ascii c, any-lower s)

any-append : (p : ℕ → Bool) (s t : Text) → any p (s ++ t) ≡ (any p s || any p t)
any-append p [] t = refl
any-append p (c ∷ s) t = ground (arith, any-append p s t)

-- A text without '@' has no last one.
cut_last-none : (s : Text) → has_at s ≡ false → cut_last s ≡ none
unfolding cut_last
cut_last-none [] h = refl
cut_last-none (c ∷ s) h = ground (arith, cut_last-none s)

-- The '@' that `cut_last` finds is the last one.
cut_last-append :
    (local domain : Text)
    → has_at domain ≡ false
    → cut_last (local ++ at_sign ∷ domain) ≡ some (local, domain)
unfolding cut_last
cut_last-append [] domain h = rw (cut_last-none domain h)
cut_last-append (c ∷ local) domain h = rw (cut_last-append local domain h)

none-cut_last : (s : Text) → cut_last s ≡ none → has_at s ≡ false
unfolding cut_last
none-cut_last [] h = refl
none-cut_last (c ∷ s) h = ground (arith, none-cut_last s)

-- It finds the last one: the text is put together again, and no '@' follows.
cut_last-domain :
    (s : Text) {local domain : Text}
    → cut_last s ≡ some (local, domain)
    → (s ≡ local ++ at_sign ∷ domain) × (has_at domain ≡ false)
unfolding cut_last
cut_last-domain [] h = absurd (cc)
cut_last-domain (c ∷ s) h = elim (Option-cases (cut_last s)) [
  | inl e ↦ ground (arith, none-cut_last s e)
  | inr ((l, d), e) ↦ ground (arith, cut_last-domain s e)
]

-- An address that normalizes is ASCII and bare, and has a local part and a domain, neither of
-- them empty, with no '@' in the domain; the normal form has the same local part and the domain
-- in lower case.
pub normalize_email-parts :
    (e : Env) (address normal : Text)
    → normalize_email e address ≡ done normal
    → (local : Text) × (domain : Text) × (address ≡ local ++ at_sign ∷ domain)
      × (normal ≡ local ++ at_sign ∷ map lower domain)
      × (is_empty local ≡ false)
      × (is_empty domain ≡ false)
      × (has_at domain ≡ false)
      × (any (ltb 127) address ≡ false)
      × (is_bare_address e address ≡ true)
unfolding normalize_email lower_domain
normalize_email-parts e address normal h = elim (Option-cases (cut_last address)) [
  | inl n ↦ absurd (ground arith)
  | inr ((l, d), s) ↦ (
    l,
    d,
    (cut_last-domain address s).0,
    ground arith,
    ground arith,
    ground arith,
    (cut_last-domain address s).1,
    ground arith,
    ground arith,
  )
]

bare : (e : Env) (s : Text) → e.parse_address s ≡ some ([], s) → is_bare_address e s ≡ true
unfolding is_bare_address
bare e s p = ground (arith, text_eq_refl s)

normalize_email-normal :
    (e : Env) (local domain : Text)
    → is_empty local ≡ false
    → is_empty domain ≡ false
    → has_at domain ≡ false
    → any (ltb 127) (local ++ at_sign ∷ domain) ≡ false
    → e.parse_address (local ++ at_sign ∷ map lower domain)
      ≡ some ([], local ++ at_sign ∷ map lower domain)
    → normalize_email e (local ++ at_sign ∷ map lower domain)
      ≡ done (local ++ at_sign ∷ map lower domain)
unfolding normalize_email lower_domain
normalize_email-normal e local (d ∷ domain) le de hd asc p = rw (
  any-append (ltb 127) local (at_sign ∷ map lower (d ∷ domain)),
  any-lower (d ∷ domain),
  ← any-append (ltb 127) local (at_sign ∷ d ∷ domain),
  asc,
  bare e _ p,
  cut_last-append local (map lower (d ∷ domain)) (has_at-lower (d ∷ domain) ∙ hd),
  le,
  map-lower-lower domain,
  lower-lower d,
)
normalize_email-normal e local [] le de hd asc p = absurd (cc)

-- A normalized address is left alone by a further normalization, when the library still reads it
-- as a bare address.
pub normalize_email_idem :
    (e : Env) (address normal : Text)
    → normalize_email e address ≡ done normal
    → e.parse_address normal ≡ some ([], normal)
    → normalize_email e normal ≡ done normal
normalize_email_idem e address normal h p =
    let (local, domain, a, n, le, de, hd, asc, b) = normalize_email-parts e address normal h in
    rw n (normalize_email-normal e local domain le de hd (rw a at asc) (rw n at p))
