-- ===== src/Base/Lists.antt =====
-- Lists measured and tested with native numbers and Boolean tests.
use Prim.Native.Nat.{ℕ, suc, ◌+◌, ◌≤◌}
use mathlib.Core.Path.{◌≡◌, refl}
use mathlib.Core.Bool.{Bool, true, false, ◌&&◌, ◌||◌}
use mathlib.Core.List.{map, List, [], ◌∷◌, ◌++◌}
use mathlib.Core.Option.{Option, none, some}
use native.Mathlib.Omega.{arith}
use mathlib.Core.Logic.{inl, inr}
use flowspace_api.Base.Tests.{if◌then◌else◌, Bool-cases}

module _ {ℓ} {A : Type ℓ} where
  abbrev pub length : List A → ℕ
  length [] = 0
  length (x ∷ xs) = suc (length xs)

  pub length-append : (xs ys : List A) → length (xs ++ ys) ≡ length xs + length ys
  length-append [] ys = omega arith
  length-append (x ∷ xs) ys = omega (arith, length-append xs ys)

  -- The first element that passes the test.
  abbrev pub find : (A → Bool) → List A → Option A
  find p [] = none
  find p (x ∷ xs) = if p x then some x else find p xs

  abbrev pub any : (A → Bool) → List A → Bool
  any p [] = false
  any p (x ∷ xs) = p x || any p xs

  abbrev pub all : (A → Bool) → List A → Bool
  all p [] = true
  all p (x ∷ xs) = p x && all p xs

  abbrev pub filter : (A → Bool) → List A → List A
  filter p [] = []
  filter p (x ∷ xs) = let rest = filter p xs in if p x then x ∷ rest else rest

  -- UPDATE: each row that passes the test is changed.
  abbrev pub update : (A → Bool) → (A → A) → List A → List A
  update p f [] = []
  update p f (x ∷ xs) = (if p x then f x else x) ∷ update p f xs

  -- The number of rows that pass the test.
  abbrev pub count : (A → Bool) → List A → ℕ
  count p [] = 0
  count p (x ∷ xs) = let rest = count p xs in if p x then suc rest else rest

  -- A predicate that every row has.
  abbrev pub All {κ} : (A → Type κ) → List A → Type κ
  All P [] = Unit
  All P (x ∷ xs) = P x × All P xs

module _ {ℓ} {A : Type ℓ} where
  pub All-update {κ} :
      (P : A → Type κ) (p : A → Bool) (f : A → A) (xs : List A)
      → ((x : A) → p x ≡ true → P x → P (f x))
      → All P xs
      → All P (update p f xs)
  All-update P p f [] keep h = tt
  All-update P p f (x ∷ xs) keep h = (head (p x) (keep x) h.0, All-update P p f xs keep h.1)
    where
      head : (b : Bool) → (b ≡ true → P x → P (f x)) → P x → P (if b then f x else x)
      head true k h = k refl h
      head false k h = h

  pub any_false→count : (p : A → Bool) (xs : List A) → any p xs ≡ false → count p xs ≡ 0
  any_false→count p [] h = refl
  any_false→count p (x ∷ xs) h = ground (arith, any_false→count p xs)

  -- An update that lets no further row pass a test leaves no more rows that pass it.
  pub count-update :
      (q p : A → Bool) (f : A → A) (xs : List A)
      → ((x : A) → q (f x) ≡ true → q x ≡ true)
      → count q (update p f xs) ≤ count q xs
  count-update q p f [] k = omega arith
  count-update q p f (x ∷ xs) k = ground (arith, count-update q p f xs k, k x)

  -- An update that no row passes the test after.
  pub count-update_zero :
      (q p : A → Bool) (f : A → A) (xs : List A)
      → ((x : A) → p x ≡ true → q (f x) ≡ false)
      → ((x : A) → p x ≡ false → q x ≡ false)
      → count q (update p f xs) ≡ 0
  count-update_zero q p f [] k n = refl
  count-update_zero q p f (x ∷ xs) k n = ground (arith, count-update_zero q p f xs k n, k x, n x)

  pub count_zero→find : (p : A → Bool) (xs : List A) → count p xs ≡ 0 → find p xs ≡ none
  count_zero→find p [] h = refl
  count_zero→find p (x ∷ xs) h = ground (arith, count_zero→find p xs)

  pub count_zero→any : (p : A → Bool) (xs : List A) → count p xs ≡ 0 → any p xs ≡ false
  count_zero→any p [] h = refl
  count_zero→any p (x ∷ xs) h = ground (arith, count_zero→any p xs)

  -- A predicate that the changed rows have, and the rows that an update leaves had before.
  pub All-update-All {κ} :
      (P : A → Type κ) (p : A → Bool) (f : A → A) (xs : List A)
      → ((x : A) → p x ≡ true → P (f x))
      → ((x : A) → p x ≡ false → P x)
      → All P (update p f xs)
  All-update-All P p f [] k n = tt
  All-update-All P p f (x ∷ xs) k n = (
    elim (Bool-cases (p x)) [ inl b ↦ rw (b) (k x b) | inr b ↦ rw (b) (n x b) ],
    All-update-All P p f xs k n,
  )

  pub All-filter {κ} :
      (P : A → Type κ) (p : A → Bool) (xs : List A) → All P xs → All P (filter p xs)
  All-filter P p [] a = tt
  All-filter P p (x ∷ xs) a = elim (Bool-cases (p x)) [
    | inl b ↦ rw (b) (a.0, All-filter P p xs a.1)
    | inr b ↦ rw (b) (All-filter P p xs a.1)
  ]

-- An update that does not change a column.
pub map-update {ℓ κ} :
    {A : Type ℓ} {B : Type κ} (g : A → B) (p : A → Bool) (f : A → A) (xs : List A)
    → ((x : A) → g (f x) ≡ g x)
    → map g (update p f xs) ≡ map g xs
map-update g p f [] k = refl
map-update g p f (x ∷ xs) k = elim (Bool-cases (p x)) [
  | inl b ↦ rw (b, k x, map-update g p f xs k) refl
  | inr b ↦ rw (b, map-update g p f xs k) refl
]

-- A search after a filter is a search for both tests.
pub find-filter {ℓ} :
    {A : Type ℓ} (p k q : A → Bool) (xs : List A)
    → ((x : A) → (p x && k x) ≡ q x)
    → find p (filter k xs) ≡ find q xs
find-filter p k q [] same = refl
find-filter p k q (x ∷ xs) same = ground (arith, same x, find-filter p k q xs same)
