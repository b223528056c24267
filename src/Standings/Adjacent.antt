-- ===== src/Standings/Adjacent.antt =====
-- Rows that stand next to each other in a list.
use plan_my_pickle_backend.Base.{
  ◌≡◌, inl, inr, Bool, true, false, List, [], ◌∷◌, ◌++◌, Bool-cases, All, sort_stable,
  insert_stable,
}

module _ {ℓ} {A : Type ℓ} where
  abbrev pub Above {κ} : (A → A → Type κ) → A → List A → Type κ
  Above R x [] = Unit
  Above R x (y ∷ ys) = R x y

  -- Every element stands rightly above the next one.
  abbrev pub Adjacent {κ} : (A → A → Type κ) → List A → Type κ
  Adjacent R [] = Unit
  Adjacent R (x ∷ xs) = Above R x xs × Adjacent R xs

  pub Adjacent-append {κ} :
      (R : A → A → Type κ) (xs ys : List A)
      → Adjacent R xs
      → Adjacent R ys
      → All (λ x. All (R x) ys) xs
      → Adjacent R (xs ++ ys)
  Adjacent-append R [] ys f g h = g
  Adjacent-append R (x ∷ []) [] f g h = (tt, tt)
  Adjacent-append R (x ∷ []) (y ∷ ys) f g h = (h.0.0, g)
  Adjacent-append R (x ∷ z ∷ xs) ys f g h = (f.0, Adjacent-append R (z ∷ xs) ys f.1 g h.1)

  pub Adjacent-map {κ} :
      (P : A → Type κ) (R Q : A → A → Type κ) (xs : List A)
      → ((x y : A) → P x → P y → R x y → Q x y)
      → All P xs
      → Adjacent R xs
      → Adjacent Q xs
  Adjacent-map P R Q [] f p h = tt
  Adjacent-map P R Q (x ∷ []) f p h = (tt, tt)
  Adjacent-map P R Q (x ∷ y ∷ xs) f p h =
      (f x y p.0 p.1.0 h.0, Adjacent-map P R Q (y ∷ xs) f p.1 h.1)

  module _ (less : A → A → Bool) (asym : (a b : A) → less a b ≡ true → less b a ≡ false) where
    abbrev pub NotBelow : A → A → Type 0
    NotBelow a b = less b a ≡ false

    insert_stable-Above :
        (y x : A) (ys : List A)
        → Above NotBelow y ys
        → NotBelow y x
        → Above NotBelow y (insert_stable less x ys)
    unfolding insert_stable
    insert_stable-Above y x [] h r = r
    insert_stable-Above y x (z ∷ ys) h r = elim (Bool-cases (less z x)) [
      | inl e ↦ rw e h
      | inr e ↦ rw e r
    ]

    insert_stable-Adjacent :
        (x : A) (ys : List A) → Adjacent NotBelow ys → Adjacent NotBelow (insert_stable less x ys)
    unfolding insert_stable
    insert_stable-Adjacent x [] h = (tt, tt)
    insert_stable-Adjacent x (y ∷ ys) h = elim (Bool-cases (less y x)) [
      | inl e ↦ rw e (insert_stable-Above y x ys h.0 (asym y x e), insert_stable-Adjacent x ys h.1)
      | inr e ↦ rw e (e, h)
    ]

    -- In a sorted list no element stands right below one that it comes before.
    pub sort_stable-Adjacent : (xs : List A) → Adjacent NotBelow (sort_stable less xs)
    unfolding sort_stable
    sort_stable-Adjacent [] = tt
    sort_stable-Adjacent (x ∷ xs) =
        insert_stable-Adjacent x (sort_stable less xs) (sort_stable-Adjacent xs)
