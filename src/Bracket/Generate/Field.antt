-- ===== src/Bracket/Generate/Field.antt =====
-- The field of a bracket: more than half of its places are taken, so no match has two byes.
use plan_my_pickle_backend.Base.{
  ℕ, zero, suc, ◌+◌, ◌-◌, ◌*◌, ◌/◌, ◌^◌, ◌≤◌, ◌<◌, ◌≡◌, ap, ◌⊎◌, inl, inr, false, true, List, [],
  ◌∷◌, some, String, arith, All, ltb, Bool-cases, length, get_or, ltb→lt,
}
use plan_my_pickle_backend.Bracket.Seeds.{next_pow2, seed_order}
use plan_my_pickle_backend.Bracket.Seeds.Powers.{next_pow2_lem}
use plan_my_pickle_backend.Bracket.Seeds.Order.{Opponents, seed_order-IsSeeding}
use plan_my_pickle_backend.Bracket.Generate.{is_bye, is_real, side_for_seed}
use plan_my_pickle_backend.Bracket.Generate.Step.{is_real-is_bye}
use plan_my_pickle_backend.Bracket.Generate.Opening.{side_a, side_b}

-- A side that is not a bye.
abbrev pub IsEntrant : List String → Type 0
IsEntrant ids = is_real (some ids) ≡ true

entrant_at :
    (sides : List (List String)) (i : ℕ)
    → All IsEntrant sides
    → i < length sides
    → is_bye (some (get_or sides i [])) ≡ false
entrant_at [] i v h = absurd (omega arith)
entrant_at (s ∷ sides) zero v h = is_real-is_bye (some s) v.0
entrant_at (s ∷ sides) (suc i) v h = entrant_at sides i v.1 (omega arith)

-- Only a seed beyond the sides is a bye.
bye_seed :
    (sides : List (List String)) (s : ℕ)
    → 0 < length sides
    → All IsEntrant sides
    → (is_bye (side_for_seed sides s) ≡ false) ⊎ (length sides < s)
unfolding side_for_seed
bye_seed sides s some_side v = elim (Bool-cases (ltb (s - 1) (length sides))) [
  | inl e ↦ inl (rw e (entrant_at sides (s - 1) v (ltb→lt (s - 1) (length sides) e)))
  | inr e ↦ inr (ground arith)
]

Opponents-at :
    (n : ℕ) (order : List ℕ) (i : ℕ)
    → Opponents n order
    → 2 * i < length order
    → get_or order (2 * i) 0 + get_or order (2 * i + 1) 0 ≡ n + 1
Opponents-at n [] i v h = absurd (omega arith)
Opponents-at n (x ∷ []) i v h = absurd v
Opponents-at n (x ∷ y ∷ order) zero v h = v.0
Opponents-at n (x ∷ y ∷ order) (suc i) v h =
    let e : 2 * suc i ≡ suc (suc (2 * i)) = omega arith in
    let f : suc (suc (2 * i)) + 1 ≡ suc (suc (2 * i + 1)) = omega arith in
    rw (e, f) (Opponents-at n order i v.1 (omega arith))

seeds_at :
    (n k i : ℕ)
    → n ≡ 2 ^ k
    → 2 ≤ n
    → i < n / 2
    → get_or (seed_order n) (2 * i) 0 + get_or (seed_order n) (2 * i + 1) 0 ≡ n + 1
seeds_at n k i e h hi =
    let (v, paired) = seed_order-IsSeeding k in
    rw e (elim paired [
      | inl q ↦ absurd (omega (arith, h, e, ap (λ j. 2 ^ j) q))
      | inr q ↦ Opponents-at (2 ^ k) (seed_order (2 ^ k)) i q (omega (arith, v.size, e, hi))
    ])

-- In the bracket of two sides or more, none of them a bye, no match of round 1 has two byes.
pub side_for_seed_no_two_byes :
    (sides : List (List String)) (i : ℕ)
    → 2 ≤ length sides
    → All IsEntrant sides
    → i < next_pow2 (length sides) / 2
    → let n = next_pow2 (length sides) in
      (is_bye (side_a sides n i) ≡ false) ⊎ (is_bye (side_b sides n i) ≡ false)
side_for_seed_no_two_byes sides i h v hi =
    let n = next_pow2 (length sides) in
    let (k, e, ge, lt) = next_pow2_lem (length sides) (omega arith) in
    let total = seeds_at n k i e (omega (arith, e, ge, h)) hi in
    elim (bye_seed sides (get_or (seed_order n) (2 * i) 0) (omega arith) v) [
      | inl fine ↦ inl fine
      | inr beyond ↦ elim (bye_seed sides (get_or (seed_order n) (2 * i + 1) 0) (omega arith) v) [
        | inl fine ↦ inr fine
        | inr beyond' ↦ absurd (omega (arith, total, e, lt, beyond, beyond'))
      ]
    ]
