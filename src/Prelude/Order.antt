-- ===== src/Prelude/Order.antt =====
-- Python's `sort`, which is stable: insertion by a Boolean order given as a parameter.
use native.Mathlib.Omega.{arith}
use Prim.Native.Nat.{suc, ◌+◌}
use mathlib.Core.Path.{◌≡◌, refl}
use mathlib.Core.Bool.{Bool, true, false}
use mathlib.Core.Logic.{inl, inr}
use mathlib.Core.List.{List, [], ◌∷◌}
use app_datasource_validator.Prelude.Tests.{if◌then◌else◌, Bool-cases}
use app_datasource_validator.Prelude.Lists.{All, length, tally}

module _ {ℓ} {A : Type ℓ} (le : A → A → Bool) where
  abbrev pub insert_sorted : A → List A → List A
  insert_sorted x [] = x ∷ []
  insert_sorted x (y ∷ ys) =
      let rest = insert_sorted x ys in if le x y then x ∷ y ∷ ys else y ∷ rest

  abbrev pub sort : List A → List A
  sort [] = []
  sort (x ∷ xs) = insert_sorted x (sort xs)

  -- each element is `le` every later one
  abbrev pub IsSorted : List A → Type 0
  IsSorted [] = Unit
  IsSorted (x ∷ xs) = All (λ y. le x y ≡ true) xs × IsSorted xs

module _ {ℓ} {A : Type ℓ} (le : A → A → Bool) where
  length-insert_sorted : (x : A) (ys : List A) → length (insert_sorted le x ys) ≡ suc (length ys)
  length-insert_sorted x [] = refl
  length-insert_sorted x (y ∷ ys) = ground (arith, length-insert_sorted x ys)

  pub length-sort : (xs : List A) → length (sort le xs) ≡ length xs
  length-sort [] = refl
  length-sort (x ∷ xs) = ground (arith, length-insert_sorted x (sort le xs), length-sort xs)

  tally-insert_sorted :
      (p : A → Bool) (x : A) (ys : List A)
      → tally p (insert_sorted le x ys) ≡ (if p x then 1 else 0) + tally p ys
  tally-insert_sorted p x [] = refl
  tally-insert_sorted p x (y ∷ ys) = ground (arith, tally-insert_sorted p x ys)

  pub tally-sort : (p : A → Bool) (xs : List A) → tally p (sort le xs) ≡ tally p xs
  tally-sort p [] = refl
  tally-sort p (x ∷ xs) = ground (arith, tally-insert_sorted p x (sort le xs), tally-sort p xs)

module _ {ℓ} {A : Type ℓ} (le : A → A → Bool) where
  All-insert_sorted :
      (P : A → Type 0) (x : A) (ys : List A) → P x → All P ys → All P (insert_sorted le x ys)
  All-insert_sorted P x [] h hs = (h, tt)
  All-insert_sorted P x (y ∷ ys) h (k, ks) = elim (Bool-cases (le x y)) [
    | inl first ↦ rw first (h, (k, ks))
    | inr later ↦ rw later (k, All-insert_sorted P x ys h ks)
  ]

  pub All-sort : (P : A → Type 0) (xs : List A) → All P xs → All P (sort le xs)
  All-sort P [] h = tt
  All-sort P (x ∷ xs) (h, hs) = All-insert_sorted P x (sort le xs) h (All-sort P xs hs)

module _ {ℓ} {A : Type ℓ} (le : A → A → Bool) (total : (x y : A) → le x y ≡ false → le y x ≡ true)
    (transitive : (x y z : A) → le x y ≡ true → le y z ≡ true → le x z ≡ true) where
  -- What is below an element is below all that follow it.
  below-All :
      (x y : A) (ys : List A)
      → le x y ≡ true
      → All (λ z. le y z ≡ true) ys
      → All (λ z. le x z ≡ true) ys
  below-All x y [] h below = tt
  below-All x y (z ∷ zs) h (b, below) = (transitive x y z h b, below-All x y zs h below)

  insert_sorted-IsSorted :
      (x : A) (ys : List A) → IsSorted le ys → IsSorted le (insert_sorted le x ys)
  insert_sorted-IsSorted x [] h = (tt, tt)
  insert_sorted-IsSorted x (y ∷ ys) (below, h) = elim (Bool-cases (le x y)) [
    | inl first ↦ rw first ((first, below-All x y ys first below), (below, h))
    | inr later ↦ rw later (
      All-insert_sorted le (λ z. le y z ≡ true) x ys (total x y later) below,
      insert_sorted-IsSorted x ys h,
    )
  ]

  pub sort-IsSorted : (xs : List A) → IsSorted le (sort le xs)
  sort-IsSorted [] = tt
  sort-IsSorted (x ∷ xs) = insert_sorted-IsSorted x (sort le xs) (sort-IsSorted xs)
