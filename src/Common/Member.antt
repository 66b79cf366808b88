-- ===== src/Common/Member.antt =====
-- Membership in a list as a type with its position, and a predicate that holds of every element.
use mathlib.Core.Path.{◌≡◌}
use mathlib.Core.Logic.{◌⊎◌, inl, inr}
use mathlib.Core.Bool.{Bool, true}
use mathlib.Core.List.{List, [], ◌∷◌, ◌++◌}
use native.Mathlib.Omega.{arith}
use contractor_reviewer.Common.Lists.{filter}

abbrev pub In : {A : Type 0} → A → List A → Type 0
In x [] = ⊥
In x (y ∷ ys) = (x ≡ y) ⊎ In x ys

abbrev pub All {ℓ κ} : {A : Type ℓ} → (A → Type κ) → List A → Type κ
All P [] = Unit
All P (x ∷ xs) = P x × All P xs

module _ {A : Type 0} where
  pub In-append_left : (x : A) (xs ys : List A) → In x xs → In x (xs ++ ys)
  In-append_left x (y ∷ xs) ys (inl e) = inl e
  In-append_left x (y ∷ xs) ys (inr m) = inr (In-append_left x xs ys m)
  In-append_left x [] ys m = absurd m

  pub In-append_right : (x : A) (xs ys : List A) → In x ys → In x (xs ++ ys)
  In-append_right x [] ys m = m
  In-append_right x (y ∷ xs) ys m = inr (In-append_right x xs ys m)

  pub In-append_cases : (x : A) (xs ys : List A) → In x (xs ++ ys) → In x xs ⊎ In x ys
  In-append_cases x [] ys m = inr m
  In-append_cases x (y ∷ xs) ys (inl e) = inl (inl e)
  In-append_cases x (y ∷ xs) ys (inr m) = elim (In-append_cases x xs ys m) [
    | inl i ↦ inl (inr i)
    | inr j ↦ inr j
  ]

module _ {ℓ} {A : Type ℓ} where
  pub All-append {κ} : (P : A → Type κ) (xs ys : List A) → All P xs → All P ys → All P (xs ++ ys)
  All-append P [] ys hx hy = hy
  All-append P (x ∷ xs) ys hx hy = (hx.0, All-append P xs ys hx.1 hy)

  pub All-filter : (p : A → Bool) (xs : List A) → All (λ x. p x ≡ true) (filter p xs)
  All-filter p [] = tt
  All-filter p (x ∷ xs) = ground (arith, All-filter p xs)

module _ {A : Type 0} (p : A → Bool) where
  pub In-filter_sound : (x : A) (xs : List A) → In x (filter p xs) → In x xs × (p x ≡ true)
  In-filter_sound x [] m = absurd m
  In-filter_sound x (y ∷ xs) m = ground (arith, In-filter_sound x xs)

  pub In-filter_complete : (x : A) (xs : List A) → In x xs → p x ≡ true → In x (filter p xs)
  In-filter_complete x [] m h = absurd m
  In-filter_complete x (y ∷ xs) m h = ground (arith, In-filter_complete x xs)
