-- ===== src/Common/Sort.antt =====
-- `sort_unstable` by a total test, and the order of the result by a numeric key. Two elements
-- that the test puts before each other are equal at every use, so stability does not matter.
use Prim.Native.Nat.{ℕ, zero, suc, ◌≤◌}
use mathlib.Core.Path.{◌≡◌, refl, sym}
use mathlib.Core.Logic.{◌≢◌, ◌⊎◌, inl, inr}
use mathlib.Core.Bool.{Bool, true, false}
use mathlib.Core.List.{List, [], ◌∷◌}
use native.Mathlib.Omega.{arith}
use ratash.Common.Tests.{if◌then◌else◌, Bool-cases}
use ratash.Common.Lists.{length, take, All, All-take}

-- The value stands in the list.
abbrev pub Listed : {A : Type 0} → A → List A → Type 0
Listed x [] = ⊥
Listed x (y ∷ ys) = (x ≡ y) ⊎ Listed x ys

module _ {A : Type 0} (before : A → A → Bool) where
  unfoldable pub place : A → List A → List A
  place x [] = x ∷ []
  place x (y ∷ ys) = let rest = place x ys in if before x y then x ∷ y ∷ ys else y ∷ rest

  unfoldable pub sort : List A → List A
  unfolding place
  sort [] = []
  sort (x ∷ xs) = place x (sort xs)

  place-Listed : (a x : A) (xs : List A) → (a ≡ x) ⊎ Listed a xs → Listed a (place x xs)
  unfolding place
  place-Listed a x [] h = h
  place-Listed a x (y ∷ ys) h = ground (arith, place-Listed a x ys)

  pub sort-Listed : (a : A) (xs : List A) → Listed a xs → Listed a (sort xs)
  unfolding sort
  sort-Listed a [] h = h
  sort-Listed a (x ∷ xs) (inl e) = place-Listed a x (sort xs) (inl e)
  sort-Listed a (x ∷ xs) (inr h) = place-Listed a x (sort xs) (inr (sort-Listed a xs h))

  module _ {κ} (P : A → Type κ) where
    place-All : (x : A) (xs : List A) → P x → All P xs → All P (place x xs)
    unfolding place
    place-All x [] p h = (p, tt)
    place-All x (y ∷ ys) p h = ground (arith, p, h, place-All x ys p h.1)

    pub sort-All : (xs : List A) → All P xs → All P (sort xs)
    unfolding sort
    sort-All [] h = tt
    sort-All (x ∷ xs) h = place-All x (sort xs) h.0 (sort-All xs h.1)

  length-place : (x : A) (xs : List A) → length (place x xs) ≡ suc (length xs)
  unfolding place
  length-place x [] = refl
  length-place x (y ∷ ys) = ground (arith, length-place x ys)

  pub length-sort : (xs : List A) → length (sort xs) ≡ length xs
  unfolding sort
  length-sort [] = refl
  length-sort (x ∷ xs) = omega (arith, length-place x (sort xs), length-sort xs)

pub All_at {κ} : {A : Type 0} (P : A → Type κ) (a : A) (xs : List A) → All P xs → Listed a xs → P a
All_at P a [] h m = elim m [ ]
All_at P a (x ∷ xs) h (inl e) = rw e h.0
All_at P a (x ∷ xs) h (inr m) = All_at P a xs h.1 m

-- Keys do not fall along the list.
abbrev pub Ascends {ℓ} : {A : Type ℓ} → (A → ℕ) → List A → Type 0
Ascends key [] = Unit
Ascends key (x ∷ xs) = All (λ y. key x ≤ key y) xs × Ascends key xs

All-le {ℓ} :
    {A : Type ℓ} (key : A → ℕ) (lo hi : ℕ) (xs : List A)
    → lo ≤ hi
    → All (λ y. hi ≤ key y) xs
    → All (λ y. lo ≤ key y) xs
All-le key lo hi [] h a = tt
All-le key lo hi (x ∷ xs) h a = (omega arith, All-le key lo hi xs h a.1)

module _ {A : Type 0} (before : A → A → Bool) (key : A → ℕ)
    (le_of_before : (x y : A) → before x y ≡ true → key x ≤ key y)
    (le_of_after : (x y : A) → before x y ≡ false → key y ≤ key x) where
  place-Ascends : (x : A) (xs : List A) → Ascends key xs → Ascends key (place before x xs)
  unfolding place
  place-Ascends x [] h = (tt, tt)
  place-Ascends x (y ∷ ys) h = elim (Bool-cases (before x y)) [
    | inl e ↦ let le = le_of_before x y e in rw e ((le, All-le key (key x) (key y) ys le h.0), h)
    | inr e ↦
        rw e (
          place-All before (λ z. key y ≤ key z) x ys (le_of_after x y e) h.0,
          place-Ascends x ys h.1,
        )
  ]

  pub sort-Ascends : (xs : List A) → Ascends key (sort before xs)
  unfolding sort
  sort-Ascends [] = tt
  sort-Ascends (x ∷ xs) = place-Ascends x (sort before xs) (sort-Ascends xs)

-- What a prefix of an ascending list leaves out is no smaller than all that it takes, and the
-- prefix is then full.
pub Listed-take :
    {A : Type 0} (key : A → ℕ) (n : ℕ) (a : A) (xs : List A)
    → Ascends key xs
    → Listed a xs
    → Listed a (take n xs) ⊎ ((length (take n xs) ≡ n) × All (λ y. key y ≤ key a) (take n xs))
Listed-take key zero a xs h m = inr (refl, tt)
Listed-take key (suc n) a [] h m = elim m [ ]
Listed-take key (suc n) a (x ∷ xs) h (inl e) = inl (inl e)
Listed-take key (suc n) a (x ∷ xs) h (inr m) = elim (Listed-take key n a xs h.1 m) [
  | inl taken ↦ inl (inr taken)
  | inr (full, later) ↦ inr (omega arith, (All_at (λ y. key x ≤ key y) a xs h.0 m, later))
]

-- No two elements have one key.
abbrev pub Distinct {ℓ} : {A : Type ℓ} → (A → ℕ) → List A → Type 0
Distinct key [] = Unit
Distinct key (x ∷ xs) = All (λ y. key y ≢ key x) xs × Distinct key xs

module _ {A : Type 0} (before : A → A → Bool) (key : A → ℕ) where
  place-Distinct :
      (x : A) (xs : List A)
      → All (λ y. key y ≢ key x) xs
      → Distinct key xs
      → Distinct key (place before x xs)
  unfolding place
  place-Distinct x [] new h = (tt, tt)
  place-Distinct x (y ∷ ys) new h = elim (Bool-cases (before x y)) [
    | inl e ↦ rw e (new, h)
    | inr e ↦ rw e (
      place-All before (λ z. key z ≢ key y) x ys (λ p. new.0 (sym p)) h.0,
      place-Distinct x ys new.1 h.1,
    )
  ]

  pub sort-Distinct : (xs : List A) → Distinct key xs → Distinct key (sort before xs)
  unfolding sort
  sort-Distinct [] h = tt
  sort-Distinct (x ∷ xs) h =
      place-Distinct x (sort before xs) (sort-All before (λ y. key y ≢ key x) xs h.0)
        (sort-Distinct xs h.1)

pub take-Distinct {ℓ} :
    {A : Type ℓ} (key : A → ℕ) (n : ℕ) (xs : List A) → Distinct key xs → Distinct key (take n xs)
take-Distinct key zero xs h = tt
take-Distinct key (suc n) [] h = tt
take-Distinct key (suc n) (x ∷ xs) h =
    (All-take (λ y. key y ≢ key x) n xs h.0, take-Distinct key n xs h.1)
