-- ===== src/Base/Totals.antt =====
-- What the elements of a list weigh together; a weight of 0 and 1 counts.
use Prim.Native.Nat.{ℕ, ◌+◌}
use mathlib.Core.Path.{◌≡◌, refl}
use mathlib.Core.List.{List, [], ◌∷◌, ◌++◌, map}
use mathlib.Core.Bool.{Bool}
use native.Mathlib.Omega.{arith}
use plan_my_pickle_backend.Base.Sort.{insert_stable, sort_stable}

module _ {ℓ} {A : Type ℓ} where
  abbrev pub total : (A → ℕ) → List A → ℕ
  total w [] = 0
  total w (x ∷ xs) = w x + total w xs

  pub total-append : (w : A → ℕ) (xs ys : List A) → total w (xs ++ ys) ≡ total w xs + total w ys
  total-append w [] ys = omega arith
  total-append w (x ∷ xs) ys = omega (arith, total-append w xs ys)

  insert_stable-total :
      (less : A → A → Bool) (w : A → ℕ) (x : A) (xs : List A)
      → total w (insert_stable less x xs) ≡ w x + total w xs
  unfolding insert_stable
  insert_stable-total less w x [] = refl
  insert_stable-total less w x (y ∷ ys) = ground (arith, insert_stable-total less w x ys)

  pub sort_stable-total :
      (less : A → A → Bool) (w : A → ℕ) (xs : List A) → total w (sort_stable less xs) ≡ total w xs
  unfolding sort_stable
  sort_stable-total less w [] = refl
  sort_stable-total less w (x ∷ xs) =
      omega (arith, insert_stable-total less w x (sort_stable less xs), sort_stable-total less w xs)

pub total-map {ℓ κ} :
    {A : Type ℓ} {B : Type κ} (w : B → ℕ) (f : A → B) (xs : List A)
    → total w (map f xs) ≡ total (λ x. w (f x)) xs
total-map w f [] = refl
total-map w f (x ∷ xs) = omega (arith, total-map w f xs)
