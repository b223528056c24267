-- ===== src/Bracket/Seeds/Powers.antt =====
-- `nextPow2` and `ilog2` return, with the least power of two that is big enough, and its exponent.
use plan_my_pickle_backend.Base.{
  ℕ, zero, suc, ◌+◌, ◌*◌, ◌/◌, ◌^◌, ◌≤◌, ◌<◌, ◌≡◌, refl, ◌∙◌, arith, ltb, Bool-cases, inl, inr,
  true, ltb→lt, lt→ltb, pow-suc,
}
use plan_my_pickle_backend.Bracket.Seeds.{double_until, next_pow2, halve_until, ilog2}

pub pow_pos : (k : ℕ) → 0 < 2 ^ k
pow_pos zero = omega arith
pow_pos (suc k) = omega (arith, pow_pos k, pow-suc 2 k)

double_until_lem :
    (fuel n k : ℕ)
    → n ≤ 2 ^ k + fuel
    → (2 ^ k < n * 2)
    → (j : ℕ) × (double_until fuel n (2 ^ k) ≡ 2 ^ j) × (n ≤ 2 ^ j) × (2 ^ j < n * 2)
unfolding double_until
double_until_lem zero n k h lt = (k, refl, omega arith, lt)
double_until_lem (suc fuel) n k h lt = elim (Bool-cases (ltb (2 ^ k) n)) [
  | inl more ↦
      let e : 2 ^ k * 2 ≡ 2 ^ suc k = omega (arith, pow-suc 2 k) in
      rw (more, e)
        (double_until_lem fuel n (suc k) (omega (arith, e, pow_pos k))
          (omega (arith, e, ltb→lt (2 ^ k) n more)))
  | inr done ↦ rw done (k, refl, ground arith, lt)
]

-- For a positive number the loop ends by its test, at the least power of two that is not below it.
pub next_pow2_lem :
    (n : ℕ) → 0 < n → (k : ℕ) × (next_pow2 n ≡ 2 ^ k) × (n ≤ 2 ^ k) × (2 ^ k < n * 2)
unfolding next_pow2
next_pow2_lem n h = double_until_lem n n 0 (omega arith) (omega arith)

halve_until_pow : (fuel k acc : ℕ) → k < fuel → halve_until fuel (2 ^ k) acc ≡ acc + k
unfolding halve_until
halve_until_pow zero k acc h = absurd (omega arith)
halve_until_pow (suc fuel) zero acc h = omega arith
halve_until_pow (suc fuel) (suc k) acc h =
    let e : 2 ^ suc k / 2 ≡ 2 ^ k = omega (arith, pow-suc 2 k) in
    let big : ltb 1 (2 ^ suc k) ≡ true =
      lt→ltb 1 (2 ^ suc k) (omega (arith, pow-suc 2 k, pow_pos k)) in
    rw (big, e) (omega (arith, halve_until_pow fuel k (acc + 1) (omega arith)))

pub lt-pow : (k : ℕ) → k < 2 ^ k
lt-pow zero = omega arith
lt-pow (suc k) = omega (arith, lt-pow k, pow-suc 2 k)

-- The exponent of a power of two.
pub ilog2-pow : (k : ℕ) → ilog2 (2 ^ k) ≡ k
unfolding ilog2
ilog2-pow k = halve_until_pow (2 ^ k) k 0 (lt-pow k) ∙ omega arith
