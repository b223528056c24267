-- ===== src/Schedule/Window.antt =====
-- The organizer's window of rounds, and the fit of a round-robin to it.
use plan_my_pickle_backend.Base.{
  ℕ, zero, suc, ◌+◌, ◌%◌, ◌≤◌, ◌<◌, ◌≡◌, refl, ap, ◌∙◌, List, [], ◌∷◌, some, arith, length,
  length-take, length-tabulate, take, get_or, get_elem?, tabulate, get_elem?-tabulate, mod-eq_of_lt,
  ◌⊎◌, ℤ, pos, ◌≤ℤ◌, ◌<ℤ◌, inl, inr,
}
use plan_my_pickle_backend.Schedule.{RawMatch, bounded_target, fit_rounds}

-- The target is at least one round and at least the minimum. It is at most the maximum, but for a
-- maximum that is not set or lies below the minimum. It is the natural count, but for a natural
-- count below one or below the minimum, or above a maximum that is set.
pub bounded_target_bounds :
    (natural min_rounds max_rounds : ℤ)
    → let t = bounded_target natural min_rounds max_rounds in
      (pos 1 ≤ℤ t)
      × (min_rounds ≤ℤ t)
      × ((max_rounds ≤ℤ pos 0) ⊎ (max_rounds <ℤ min_rounds) ⊎ (t ≤ℤ max_rounds))
      × ((natural <ℤ pos 1)
          ⊎ (natural <ℤ min_rounds)
          ⊎ ((pos 0 <ℤ max_rounds) × (max_rounds <ℤ natural))
          ⊎ (t ≡ natural))
unfolding bounded_target
bounded_target_bounds natural min_rounds max_rounds =
    (ground arith, ground arith, ground arith, ground arith)

get_elem?-take {ℓ} :
    {A : Type ℓ} (xs : List A) (n i : ℕ) → i < n → get_elem? (take n xs) i ≡ get_elem? xs i
get_elem?-take [] zero i h = refl
get_elem?-take [] (suc n) i h = refl
get_elem?-take (x ∷ xs) zero i h = absurd (omega arith)
get_elem?-take (x ∷ xs) (suc n) zero h = refl
get_elem?-take (x ∷ xs) (suc n) (suc i) h = get_elem?-take xs n i (omega arith)

get_elem?-get_or {ℓ} :
    {A : Type ℓ} (xs : List A) (i : ℕ) (d : A)
    → i < length xs
    → get_elem? xs i ≡ some (get_or xs i d)
get_elem?-get_or [] i d h = absurd (omega arith)
get_elem?-get_or (x ∷ xs) zero d h = refl
get_elem?-get_or (x ∷ xs) (suc i) d h = get_elem?-get_or xs i d (omega arith)

-- Truncated or as long as the target, the round at an index is that of the round-robin.
fit_rounds-kept :
    (rr : List (List RawMatch)) (target i : ℕ)
    → target ≤ length rr
    → i < target
    → get_elem? (fit_rounds rr (pos target)) i ≡ get_elem? rr i
unfolding fit_rounds
fit_rounds-kept rr target i long h = ground (arith, get_elem?-take rr target i h)

fit_rounds-cycled :
    (rr : List (List RawMatch)) (target : ℕ)
    → 0 < length rr
    → length rr < target
    → fit_rounds rr (pos target) ≡ tabulate (λ i. get_or rr (i % length rr) []) 0 target
unfolding fit_rounds
fit_rounds-cycled rr target some_round short = ground arith

fit_rounds-at :
    (rr : List (List RawMatch)) (target i : ℕ)
    → 0 < length rr
    → i < target
    → get_elem? (fit_rounds rr (pos target)) i ≡ some (get_or rr (i % length rr) [])
fit_rounds-at rr target i some_round h =
    let cases : (target ≤ length rr) ⊎ (length rr < target) = omega arith in
    elim cases [
      | inl long ↦
          let e : i % length rr ≡ i = mod-eq_of_lt (omega arith) in
          rw e (fit_rounds-kept rr target i long h ∙ get_elem?-get_or rr i [] (omega arith))
      | inr short ↦
          let e : 0 + i ≡ i = omega arith in
          rw (fit_rounds-cycled rr target some_round short) (
            get_elem?-tabulate (λ j. get_or rr (j % length rr) []) 0 target i h
            ∙ ap (λ k. some (get_or rr (k % length rr) [])) e)
    ]

-- A round-robin that has a round is fitted to exactly the target, and the round at an index is the
-- one at that index modulo its length: truncated or cycled from the start.
pub fit_rounds_cycles :
    (rr : List (List RawMatch)) (target : ℕ)
    → 0 < length rr
    → 0 < target
    → (length (fit_rounds rr (pos target)) ≡ target)
      × ((i : ℕ)
          → i < target
          → get_elem? (fit_rounds rr (pos target)) i ≡ some (get_or rr (i % length rr) []))
unfolding fit_rounds
fit_rounds_cycles rr target some_round some_target = (
  ground
      (arith, length-take target rr, length-tabulate (λ i. get_or rr (i % length rr) []) 0 target),
  λ i h. fit_rounds-at rr target i some_round h,
)
