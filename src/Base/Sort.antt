-- ===== src/Base/Sort.antt =====
-- Go's `sort.SliceStable`: a stable insertion sort, where equal elements keep their order.
use Prim.Native.Nat.{◌+◌}
use Prim.Native.String.{String}
use mathlib.Core.Path.{◌≡◌, refl}
use mathlib.Core.Logic.{inl, inr}
use mathlib.Core.Bool.{Bool}
use mathlib.Core.List.{List, [], ◌∷◌}
use native.Mathlib.Omega.{arith}
use plan_my_pickle_backend.Base.Tests.{if◌then◌else◌, Bool-cases}
use plan_my_pickle_backend.Base.Lists.{All, length}
use plan_my_pickle_backend.Base.Ids.{hit, count}

-- The ids of a list of things that have one.
abbrev pub ids_by {ℓ} : {A : Type ℓ} → (A → String) → List A → List String
ids_by f [] = []
ids_by f (x ∷ xs) = f x ∷ ids_by f xs

module _ {ℓ} {A : Type ℓ} (less : A → A → Bool) where
  unfoldable pub insert_stable : A → List A → List A
  insert_stable x [] = x ∷ []
  insert_stable x (y ∷ ys) = if less y x then y ∷ insert_stable x ys else x ∷ y ∷ ys

  unfoldable pub sort_stable : List A → List A
  unfolding insert_stable
  sort_stable [] = []
  sort_stable (x ∷ xs) = insert_stable x (sort_stable xs)

  insert_stable-count :
      (f : A → String) (a : String) (x : A) (xs : List A)
      → count a (ids_by f (insert_stable x xs)) ≡ hit (f x) a + count a (ids_by f xs)
  unfolding insert_stable
  insert_stable-count f a x [] = refl
  insert_stable-count f a x (y ∷ ys) = ground (arith, insert_stable-count f a x ys)

  pub sort_stable-count :
      (f : A → String) (a : String) (xs : List A)
      → count a (ids_by f (sort_stable xs)) ≡ count a (ids_by f xs)
  unfolding sort_stable
  sort_stable-count f a [] = refl
  sort_stable-count f a (x ∷ xs) =
      omega (arith, insert_stable-count f a x (sort_stable xs), sort_stable-count f a xs)

  insert_stable-All {κ} :
      (P : A → Type κ) (x : A) (xs : List A) → P x → All P xs → All P (insert_stable x xs)
  unfolding insert_stable
  insert_stable-All P x [] p h = (p, h)
  insert_stable-All P x (y ∷ ys) p h = elim (Bool-cases (less y x)) [
    | inl later ↦ rw later (h.0, insert_stable-All P x ys p h.1)
    | inr here ↦ rw here (p, h)
  ]

  pub sort_stable-All {κ} : (P : A → Type κ) (xs : List A) → All P xs → All P (sort_stable xs)
  unfolding sort_stable
  sort_stable-All P [] h = h
  sort_stable-All P (x ∷ xs) h =
      insert_stable-All P x (sort_stable xs) h.0 (sort_stable-All P xs h.1)

  insert_stable-length : (x : A) (xs : List A) → length (insert_stable x xs) ≡ length (x ∷ xs)
  unfolding insert_stable
  insert_stable-length x [] = refl
  insert_stable-length x (y ∷ ys) = ground (arith, insert_stable-length x ys)

  pub sort_stable-length : (xs : List A) → length (sort_stable xs) ≡ length xs
  unfolding sort_stable
  sort_stable-length [] = refl
  sort_stable-length (x ∷ xs) =
      omega (arith, insert_stable-length x (sort_stable xs), sort_stable-length xs)

pub ids_by_self : (a : String) (xs : List String) → count a (ids_by (λ x. x) xs) ≡ count a xs
ids_by_self a [] = refl
ids_by_self a (x ∷ xs) = omega (arith, ids_by_self a xs)
