-- ===== src/Base/Sort.antt =====
-- `sort_by` and `sort_by_key` of Rust's slices: a stable sort. Only the order it leaves matters, and
-- insertion sort leaves the same.
use Prim.Native.Nat.{suc}
use mathlib.Core.Path.{◌≡◌, refl, ◌∙◌}
use mathlib.Core.Logic.{inl, inr}
use mathlib.Core.List.{List, [], ◌∷◌, ◌++◌}
use mathlib.Core.Bool.{Bool, true, false}
use native.Mathlib.Omega.{arith}
use kafka_proxy.Base.Tests.{if◌then◌else◌, Bool-cases}
use kafka_proxy.Base.Lists.{length, All, retain}

module _ {ℓ} {A : Type ℓ} where
  -- Before the first element that `x` is at most: `x` stood before all of them.
  abbrev pub sort_insert : (A → A → Bool) → A → List A → List A
  sort_insert le x [] = x ∷ []
  sort_insert le x (y ∷ ys) = if le x y then x ∷ y ∷ ys else y ∷ sort_insert le x ys

  unfoldable pub sort_by : (A → A → Bool) → List A → List A
  sort_by le [] = []
  sort_by le (x ∷ xs) = sort_insert le x (sort_by le xs)

  abbrev pub IsSorted : (A → A → Bool) → List A → Type 0
  IsSorted le [] = Unit {0}
  IsSorted le (x ∷ xs) = All (λ y. le x y ≡ true) xs × IsSorted le xs

  pub All-append {κ} : (P : A → Type κ) (xs ys : List A) → All P xs → All P ys → All P (xs ++ ys)
  All-append P [] ys a b = b
  All-append P (x ∷ xs) ys a b = (a.0, All-append P xs ys a.1 b)

  pub All-map {κ μ} :
      (P : A → Type κ) (Q : A → Type μ)
      → ((x : A) → P x → Q x)
      → (xs : List A) → All P xs
      → All Q xs
  All-map P Q f [] a = tt
  All-map P Q f (x ∷ xs) a = (f x a.0, All-map P Q f xs a.1)

  sort_insert-All {κ} :
      (P : A → Type κ) (le : A → A → Bool) (x : A) (ys : List A)
      → P x
      → All P ys
      → All P (sort_insert le x ys)
  sort_insert-All P le x [] p a = (p, tt)
  sort_insert-All P le x (y ∷ ys) p a = elim (Bool-cases (le x y)) [
    | inl e ↦ rw e (p, a)
    | inr e ↦ rw e (a.0, sort_insert-All P le x ys p a.1)
  ]

  pub sort_by-All {κ} :
      (P : A → Type κ) (le : A → A → Bool) (xs : List A) → All P xs → All P (sort_by le xs)
  unfolding sort_by
  sort_by-All P le [] a = tt
  sort_by-All P le (x ∷ xs) a = sort_insert-All P le x (sort_by le xs) a.0 (sort_by-All P le xs a.1)

  -- How many elements pass a test does not change.
  retain-sort_insert :
      (p : A → Bool) (le : A → A → Bool) (x : A) (ys : List A)
      → length (retain p (sort_insert le x ys)) ≡ length (retain p (x ∷ ys))
  retain-sort_insert p le x [] = refl
  retain-sort_insert p le x (y ∷ ys) = ground (arith, retain-sort_insert p le x ys)

  pub retain-sort_by :
      (p : A → Bool) (le : A → A → Bool) (xs : List A)
      → length (retain p (sort_by le xs)) ≡ length (retain p xs)
  unfolding sort_by
  retain-sort_by p le [] = refl
  retain-sort_by p le (x ∷ xs) =
      retain-sort_insert p le x (sort_by le xs) ∙ ground (arith, retain-sort_by p le xs)

  pub length-sort_by : (le : A → A → Bool) (xs : List A) → length (sort_by le xs) ≡ length xs
  unfolding sort_by
  length-sort_by le [] = refl
  length-sort_by le (x ∷ xs) = inserted (sort_by le xs) ∙ ground (arith, length-sort_by le xs)
    where
      inserted : (ys : List A) → length (sort_insert le x ys) ≡ suc (length ys)
      inserted [] = refl
      inserted (y ∷ ys) = ground (arith, inserted ys)

  -- For an order that is total and transitive.
  module _ (le : A → A → Bool) (total : (x y : A) → le x y ≡ false → le y x ≡ true)
      (le_trans : (x y z : A) → le x y ≡ true → le y z ≡ true → le x z ≡ true) where
    sort_insert-IsSorted :
        (x : A) (ys : List A) → IsSorted le ys → IsSorted le (sort_insert le x ys)
    sort_insert-IsSorted x [] s = (tt, tt)
    sort_insert-IsSorted x (y ∷ ys) s = elim (Bool-cases (le x y)) [
      | inl e ↦ rw e ((e, All-map _ _ (λ z h. le_trans x y z e h) ys s.0), s)
      | inr e ↦ rw e (sort_insert-All _ le x ys (total x y e) s.0, sort_insert-IsSorted x ys s.1)
    ]

    pub sort_by-IsSorted : (xs : List A) → IsSorted le (sort_by le xs)
    unfolding sort_by
    sort_by-IsSorted [] = tt
    sort_by-IsSorted (x ∷ xs) = sort_insert-IsSorted x (sort_by le xs) (sort_by-IsSorted xs)
