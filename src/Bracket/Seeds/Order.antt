-- ===== src/Bracket/Seeds/Order.antt =====
-- `seedOrder` is an order of the seeds 1..n in which neighbours are first-round opponents.
use plan_my_pickle_backend.Base.{
  ℕ, zero, suc, ◌+◌, ◌-◌, ◌*◌, ◌^◌, ◌≤◌, ◌<◌, ◌≡◌, refl, sym, subst, ap, ◌⊎◌, arith, ltb, leb, ◌==◌,
  if◌then◌else◌, Bool-cases, inl, inr, true, false, List, [], ◌∷◌, length, lt→ltb, le→ltb, pow-suc,
}
use plan_my_pickle_backend.Bracket.Seeds.{expand, expand_until, seed_order}
use plan_my_pickle_backend.Bracket.Seeds.Powers.{pow_pos, lt-pow}

-- How often a seed occurs.
abbrev pub times : ℕ → List ℕ → ℕ
times j [] = 0
times j (r ∷ rs) = (if r == j then 1 else 0) + times j rs

-- Each of 1..n exactly once, and nothing else.
pub record IsSeeding (n : ℕ) (order : List ℕ) : Type 0 where
  pub size : length order ≡ n
  pub each_once : (j : ℕ) → 1 ≤ j → j ≤ n → times j order ≡ 1
  pub no_other : (j : ℕ) → (j ≡ 0) ⊎ (n < j) → times j order ≡ 0

length-expand : (len : ℕ) (order : List ℕ) → length (expand len order) ≡ length order * 2
unfolding expand
length-expand len [] = refl
length-expand len (r ∷ rs) = omega (arith, length-expand len rs)

-- Every seed is at most `n`.
abbrev Bounded : ℕ → List ℕ → Type 0
Bounded n [] = Unit
Bounded n (r ∷ rs) = (1 ≤ r) × (r ≤ n) × Bounded n rs

times-expand :
    (len : ℕ) (order : List ℕ) (j : ℕ)
    → Bounded len order
    → 1 ≤ j
    → j ≤ len
    → times j (expand len order) ≡ times j order + times (len + 1 - j) order
unfolding expand
times-expand len [] j b lo hi = omega arith
times-expand len (r ∷ rs) j b lo hi = ground (arith, times-expand len rs j b.2 lo hi)

Bounded-expand : (len : ℕ) (order : List ℕ) → Bounded len order → Bounded len (expand len order)
unfolding expand
Bounded-expand len [] b = tt
Bounded-expand len (r ∷ rs) b = (b.0, b.1, (omega arith, omega arith, Bounded-expand len rs b.2))

Bounded-weaken : (n m : ℕ) (order : List ℕ) → n ≤ m → Bounded n order → Bounded m order
Bounded-weaken n m [] h b = tt
Bounded-weaken n m (r ∷ rs) h b = (b.0, omega (arith, b.1), Bounded-weaken n m rs h b.2)

times-Bounded :
    (n : ℕ) (order : List ℕ) (j : ℕ) → Bounded n order → (j ≡ 0) ⊎ (n < j) → times j order ≡ 0
times-Bounded n [] j b h = refl
times-Bounded n (r ∷ rs) j b h = ground (arith, times-Bounded n rs j b.2 h)

-- Neighbours are opponents: their seeds add up to one more than the field.
abbrev pub Opponents : ℕ → List ℕ → Type 0
Opponents len [] = Unit
Opponents len (a ∷ []) = ⊥
Opponents len (a ∷ b ∷ rest) = (a + b ≡ len + 1) × Opponents len rest

Opponents-expand : (len : ℕ) (order : List ℕ) → Bounded len order → Opponents len (expand len order)
unfolding expand
Opponents-expand len [] b = tt
Opponents-expand len (r ∷ rs) b = (omega (arith, b.1), Opponents-expand len rs b.2)

-- One doubling keeps the order a seeding.
expand-IsSeeding :
    (n : ℕ) (order : List ℕ)
    → IsSeeding n order
    → Bounded n order
    → IsSeeding (n * 2) (expand (n * 2) order)
expand-IsSeeding n order v b =
    let b' = Bounded-weaken n (n * 2) order (omega arith) b in
    record {
      size = omega (arith, length-expand (n * 2) order, v.size);
      each_once = λ j lo hi. elim (Bool-cases (leb j n)) [
        | inl small ↦
            let far : n < n * 2 + 1 - j = ground arith in
            omega (
              arith,
              times-expand (n * 2) order j b' lo hi,
              v.each_once j lo (ground arith),
              v.no_other (n * 2 + 1 - j) (inr far),
            )
        | inr large ↦
            let above : n < j = ground arith in
            omega (
              arith,
              times-expand (n * 2) order j b' lo hi,
              v.no_other j (inr above),
              v.each_once (n * 2 + 1 - j) (omega arith) (omega arith),
            )
      ];
      no_other =
          λ j h. times-Bounded (n * 2) (expand (n * 2) order) j (Bounded-expand (n * 2) order b') h;
    }

-- What is known of the order when it has 2 ^ i seeds.
record Grown (i : ℕ) (order : List ℕ) : Type 0 where
  seeding : IsSeeding (2 ^ i) order
  bounded : Bounded (2 ^ i) order
  paired : (i ≡ 0) ⊎ Opponents (2 ^ i) order

Grown-expand :
    (i : ℕ) (order : List ℕ) → Grown i order → Grown (suc i) (expand (length order * 2) order)
Grown-expand i order g =
    let e : 2 ^ i * 2 ≡ 2 ^ suc i = sym (pow-suc 2 i) in
    let b' = Bounded-weaken (2 ^ i) (2 ^ i * 2) order (omega arith) g.bounded in
    let next = expand (2 ^ i * 2) order in
    rw (g.seeding.size) (record {
      seeding =
          subst (λ m. IsSeeding m next) e (expand-IsSeeding (2 ^ i) order g.seeding g.bounded);
      bounded = subst (λ m. Bounded m next) e (Bounded-expand (2 ^ i * 2) order b');
      paired = inr (subst (λ m. Opponents m next) e (Opponents-expand (2 ^ i * 2) order b'));
    })

pow-lt : (i k : ℕ) → i < k → 2 ^ i < 2 ^ k
pow-lt i zero h = absurd (omega arith)
pow-lt i (suc k) h =
    let same_or : (i ≡ k) ⊎ (i < k) = omega arith in
    elim same_or [
      | inl e ↦ omega (arith, ap (λ j. 2 ^ j) e, pow-suc 2 k, pow_pos k)
      | inr lt ↦ omega (arith, pow-lt i k lt, pow-suc 2 k)
    ]

expand_until-Grown :
    (fuel k i : ℕ) (order : List ℕ)
    → i ≤ k
    → k ≤ i + fuel
    → Grown i order
    → Grown k (expand_until fuel (2 ^ k) order)
unfolding expand_until
expand_until-Grown zero k i order le enough g =
    let e : i ≡ k = omega arith in subst (λ j. Grown j order) e g
expand_until-Grown (suc fuel) k i order le enough g =
    let same_or : (i ≡ k) ⊎ (i < k) = omega arith in
    elim same_or [
      | inl e ↦
          let full : ltb (length order) (2 ^ k) ≡ false =
            le→ltb (length order) (2 ^ k) (omega (arith, g.seeding.size, ap (λ j. 2 ^ j) e)) in
          rw (full, expand_until) (subst (λ j. Grown j order) e g)
      | inr lt ↦
          let more : ltb (length order) (2 ^ k) ≡ true =
            lt→ltb (length order) (2 ^ k) (omega (arith, g.seeding.size, pow-lt i k lt)) in
          rw (more, expand_until)
            (expand_until-Grown fuel k (suc i) (expand (length order * 2) order) (omega arith)
              (omega arith) (Grown-expand i order g))
    ]

-- For a field of 2 ^ k the seed order holds each of the seeds 1 to 2 ^ k exactly once and nothing
-- else, and, if the field has more than one, first-round opponents add up to 2 ^ k + 1.
pub seed_order-IsSeeding :
    (k : ℕ)
    → IsSeeding (2 ^ k) (seed_order (2 ^ k)) × ((k ≡ 0) ⊎ Opponents (2 ^ k) (seed_order (2 ^ k)))
unfolding seed_order
seed_order-IsSeeding k =
    let g = expand_until-Grown (2 ^ k) k 0 (1 ∷ []) (omega arith) (omega (arith, lt-pow k)) first in
    (g.seeding, g.paired)
  where
    first : Grown 0 (1 ∷ [])
    first = record {
      seeding = record {
        size = refl;
        each_once = λ j lo hi. ground arith;
        no_other = λ j h. ground arith;
      };
      bounded = (omega arith, omega arith, tt);
      paired = inl refl;
    }
