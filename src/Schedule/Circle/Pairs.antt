-- ===== src/Schedule/Circle/Pairs.antt =====
-- The matches of one round, and the players that the field's places hold.
use plan_my_pickle_backend.Base.{
  Bool, ℕ, zero, suc, ◌+◌, ◌-◌, ◌*◌, ◌/◌, ◌≤◌, ◌<◌, ◌≡◌, ◌≢◌, refl, ap, ◌⊎◌, inl, inr, List, [],
  ◌∷◌, some, String, arith, ◌||◌, Bool-cases, str_eq, eq_iff, length, length-append, get_or,
  get_elem?, hit, hit_self, hit-cases, hit-pos, hit-le, count, count-append, IsDistinct,
}
use plan_my_pickle_backend.Schedule.{RawMatch}
use plan_my_pickle_backend.Schedule.Circle.{bye, single, pairs_from, even_field}

abbrev skips : List String → ℕ → ℕ → Bool
skips arr n i = str_eq (get_or arr i bye) bye || str_eq (get_or arr (n - 1 - i) bye) bye

pairs_from-head :
    (arr : List String) (n i m j : ℕ) {x : RawMatch}
    → get_elem?
        (single (get_or arr i bye) (get_or arr (n - 1 - i) bye) ∷ pairs_from arr n (suc i) m)
        j
      ≡ some x
    → ((j' : ℕ)
        → get_elem? (pairs_from arr n (suc i) m) j' ≡ some x
        → (k : ℕ) × (suc i ≤ k)
          × (k < suc i + m)
          × (x ≡ single (get_or arr k bye) (get_or arr (n - 1 - k) bye)))
    → (k : ℕ) × (i ≤ k)
      × (k < i + suc m)
      × (x ≡ single (get_or arr k bye) (get_or arr (n - 1 - k) bye))
pairs_from-head arr n i m zero h ih = (i, omega arith, omega arith, cc)
pairs_from-head arr n i m (suc j) h ih =
    let (k, lo, hi, e) = ih j h in (k, omega arith, omega arith, e)

-- Every match of a round is between two facing places.
pub pairs_from-of :
    (arr : List String) (n i m j : ℕ) {x : RawMatch}
    → get_elem? (pairs_from arr n i m) j ≡ some x
    → (k : ℕ) × (i ≤ k) × (k < i + m) × (x ≡ single (get_or arr k bye) (get_or arr (n - 1 - k) bye))
unfolding pairs_from
pairs_from-of arr n i zero j h = cc
pairs_from-of arr n i (suc m) j {x} h = elim (Bool-cases (skips arr n i)) [
  | inl skip ↦
      let (k, lo, hi, e) = pairs_from-of arr n (suc i) m j (rw (skip, pairs_from) at h) in
      (k, omega arith, omega arith, e)
  | inr play ↦
      pairs_from-head arr n i m j (rw (play, pairs_from) at h)
        (λ j' h'. pairs_from-of arr n (suc i) m j' h')
]

-- Two facing places without a bye make a match.
pub pairs_from-at :
    (arr : List String) (n i m k : ℕ)
    → i ≤ k
    → k < i + m
    → get_or arr k bye ≢ bye
    → get_or arr (n - 1 - k) bye ≢ bye
    → (j : ℕ) × (get_elem? (pairs_from arr n i m) j
        ≡ some (single (get_or arr k bye) (get_or arr (n - 1 - k) bye)))
unfolding pairs_from
pairs_from-at arr n i zero k lo hi p q = absurd (omega arith)
pairs_from-at arr n i (suc m) k lo hi p q =
    let same_or : (k ≡ i) ⊎ (suc i ≤ k) = omega arith in
    elim same_or [
      | inl e ↦ (
        0,
        ground (
          arith,
          e,
          eq_iff (get_or arr i bye) bye,
          eq_iff (get_or arr (n - 1 - i) bye) bye,
          ap (λ t. get_or arr t bye) e,
          ap (λ t. get_or arr (n - 1 - t) bye) e,
        ),
      )
      | inr later ↦
          let (j, e) = pairs_from-at arr n (suc i) m k later (omega arith) p q in
          elim (Bool-cases (skips arr n i)) [
            | inl skip ↦ (j, rw (skip, pairs_from) e)
            | inr play ↦ (suc j, rw (play, pairs_from) e)
          ]
    ]

-- Whoever is in a list stands at one of its places, and in a distinct list at one only.
pub place_of :
    (xs : List String) (a : String)
    → 0 < count a xs
    → (i : ℕ) × (i < length xs) × (get_or xs i bye ≡ a)
place_of [] a h = absurd (omega arith)
place_of (x ∷ xs) a h = elim (hit-cases x a) [
  | inl e ↦ (0, omega arith, e)
  | inr other ↦ let (i, lt, e) = place_of xs a (omega arith) in (suc i, omega arith, e)
]

count-get_or : (xs : List String) (i : ℕ) → i < length xs → 0 < count (get_or xs i bye) xs
count-get_or [] i h = absurd (omega arith)
count-get_or (x ∷ xs) zero h = omega (arith, hit_self x)
count-get_or (x ∷ xs) (suc i) h = omega (arith, count-get_or xs i (omega arith))

pub place_unique :
    (xs : List String) (i j : ℕ)
    → IsDistinct xs
    → i < length xs
    → j < length xs
    → get_or xs i bye ≡ get_or xs j bye
    → i ≡ j
place_unique [] i j d hi hj e = absurd (omega arith)
place_unique (x ∷ xs) zero zero d hi hj e = refl
place_unique (x ∷ xs) zero (suc j) d hi hj e = absurd (
    omega (
      arith,
      d (get_or xs j bye),
      count-get_or xs j (omega arith),
      ap (λ y. hit y (get_or xs j bye)) e,
      hit_self (get_or xs j bye),
    ))
place_unique (x ∷ xs) (suc i) zero d hi hj e = absurd (
    omega (
      arith,
      d (get_or xs i bye),
      count-get_or xs i (omega arith),
      ap (λ y. hit y (get_or xs i bye)) e,
      hit_self (get_or xs i bye),
    ))
place_unique (x ∷ xs) (suc i) (suc j) d hi hj e =
    ap suc (place_unique xs i j (λ a. omega (arith, d a)) (omega arith) (omega arith) e)

-- The field is even; it holds the players, and a bye at most.
pub even_field-even : (players : List String) → (h : ℕ) × (length (even_field players) ≡ 2 * h)
unfolding even_field
even_field-even players =
    ((length players + 1) / 2, ground (arith, length-append players (bye ∷ [])))

pub even_field-count :
    (players : List String) (a : String) → a ≢ bye → count a (even_field players) ≡ count a players
unfolding even_field
even_field-count players a ne = ground (arith, count-append a players (bye ∷ []), hit-pos bye a)

pub even_field-IsDistinct :
    (players : List String)
    → IsDistinct players
    → count "" players ≡ 0
    → IsDistinct (even_field players)
unfolding even_field
even_field-IsDistinct players d no_blank a =
    ground (arith, d a, count-append a players (bye ∷ []), hit-cases bye a, hit-le bye a)
