-- ===== src/Examples/Draws.antt =====
-- What the concrete environment draws are bytes.
use flowspace_api.Base.{
  ℕ, zero, suc, ap, sym, subst, ◌∙◌, none, some, Option, Text, ◌≡◌, refl, All, length, arith,
}
use flowspace_api.Encoding.Base64.RoundTrip.{IsByte}
use flowspace_api.Identity.Domain.Password.Stored.{MakesBytes}
use flowspace_api.Examples.Worlds.{quiet, zeros}

pub zeros-IsByte : (n : ℕ) → All IsByte (zeros n)
zeros-IsByte zero = tt
zeros-IsByte (suc n) = (omega arith, zeros-IsByte n)

length-zeros : (n : ℕ) → length (zeros n) ≡ n
length-zeros zero = refl
length-zeros (suc n) = omega (arith, length-zeros n)

zeros_from_some :
    (k : ℕ) {s : Text}
    → ◌≡◌ {A = Option Text} (some (zeros k)) (some s)
    → All IsByte s × (length s ≡ k)
zeros_from_some k {s} h =
    let same = ap (λ o. elim o [ some x ↦ x | none ↦ s ]) h in
    (subst (All IsByte) same (zeros-IsByte k), sym (ap length same) ∙ length-zeros k)

pub quiet-MakesBytes : MakesBytes quiet
quiet-MakesBytes = record {
  salt_bytes = λ n k h. zeros_from_some k h;
  key_bytes = λ p s. (zeros-IsByte 32, refl);
  nfc_empty = refl;
}
