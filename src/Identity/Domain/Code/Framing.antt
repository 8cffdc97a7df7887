-- ===== src/Identity/Domain/Code/Framing.antt =====
-- The framed message determines its fields, so two verifiers share a message only if all fields agree.
use flowspace_api.Base.{
  ℕ, zero, suc, ◌+◌, ◌-◌, ◌*◌, ◌/◌, ◌%◌, ◌≡◌, refl, ◌<◌, List, [], ◌∷◌, ◌++◌, arith, length, Text,
  ap, sym, ◌∙◌, ◌==◌, if◌then◌else◌,
}
use flowspace_api.Identity.Domain.Code.{digits_from, decimal, frame}

-- The text up to the first ':' and the text behind it.
split_colon : Text → Text × Text
split_colon [] = ([], [])
split_colon (c ∷ s) = let (a, b) = split_colon s in if c == b':' then ([], s) else (c ∷ a, b)

-- The number that digits stand for, from the left.
value : ℕ → Text → ℕ
value n [] = n
value n (c ∷ s) = value (n * 10 + (c - b'0')) s

value_at : (n : ℕ) (acc : Text) → value (n / 10 * 10 + (b'0' + n % 10 - b'0')) acc ≡ value n acc
value_at n acc = ap (λ (k : ℕ). value k acc) (omega arith)

-- digits_from writes the digits of n in front of acc.
value-digits_from :
    (fuel n : ℕ) (acc : Text) → n < fuel → value 0 (digits_from fuel n acc) ≡ value n acc
unfolding digits_from value
value-digits_from zero n acc h = absurd (omega arith)
value-digits_from (suc fuel) n acc h =
    ground (arith, value-digits_from fuel (n / 10) ((b'0' + n % 10) ∷ acc), value_at n acc)

split-digits_from :
    (fuel n : ℕ) (acc s : Text)
    → n < fuel
    → split_colon (digits_from fuel n acc ++ s)
      ≡ (digits_from fuel n (split_colon (acc ++ s)).0, (split_colon (acc ++ s)).1)
unfolding digits_from split_colon
split-digits_from zero n acc s h = absurd (omega arith)
split-digits_from (suc fuel) n acc s h =
    ground (arith, split-digits_from fuel (n / 10) ((b'0' + n % 10) ∷ acc) s)

split-decimal : (n : ℕ) (s : Text) → split_colon (decimal n ++ b':' ∷ s) ≡ (decimal n, s)
unfolding decimal split_colon
split-decimal n s = split-digits_from (suc n) n [] (b':' ∷ s) (omega arith)

decimal-injective : (m n : ℕ) → decimal m ≡ decimal n → m ≡ n
unfolding decimal value
decimal-injective m n h = cc (
  value-digits_from (suc m) m [] (omega arith),
  value-digits_from (suc n) n [] (omega arith),
  ap (value 0) h,
)

append-injective : (s t u v : Text) → length s ≡ length t → s ++ u ≡ t ++ v → (s ≡ t) × (u ≡ v)
append-injective [] [] u v l h = (refl, h)
append-injective [] (d ∷ t) u v l h = absurd (omega arith)
append-injective (c ∷ s) [] u v l h = absurd (omega arith)
append-injective (c ∷ s) (d ∷ t) u v l h =
    let (a, b) = append-injective s t u v (omega arith) (cc) in (cc, b)

-- Two lists with as many fields and the same framed message are the same list, for fields of any
-- bytes, digits and ':' included.
pub frame-injective :
    (fields others : List Text)
    → length fields ≡ length others
    → frame fields ≡ frame others
    → fields ≡ others
unfolding frame
frame-injective [] [] l h = refl
frame-injective [] (g ∷ gs) l h = absurd (omega arith)
frame-injective (f ∷ fs) [] l h = absurd (omega arith)
frame-injective (f ∷ fs) (g ∷ gs) l h =
    let (a, b) =
      append-injective f g (frame fs) (frame gs) (decimal-injective _ _ (ap (λ p. p.0) parts))
        (ap (λ p. p.1) parts) in
    cc (a, frame-injective fs gs (omega arith) b)
  where
    parts :
        ◌≡◌ {A = Text × Text}
          (decimal (length f), f ++ frame fs)
          (decimal (length g), g ++ frame gs)
    parts =
        sym (split-decimal (length f) (f ++ frame fs))
        ∙ (ap split_colon h ∙ split-decimal (length g) (g ++ frame gs))
