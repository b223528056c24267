-- ===== src/Pools/Dealt.antt =====
-- The pools hold every unit once, and differ by one in size at most.
use plan_my_pickle_backend.Base.{
  ℕ, zero, suc, ◌+◌, ◌*◌, ◌/◌, ◌%◌, ◌≤◌, ◌<◌, ◌≡◌, ◌≢◌, refl, sym, subst, ap, ◌∙◌, inl, inr, Bool,
  false, List, [], ◌∷◌, String, ltb, ◌==◌, length, replicate, length-replicate, sort_stable,
  sort_stable-total, sort_stable-length, total, All, Bool-cases, div-add-mod, arith,
}
use native.Mathlib.Nat.{mul-div_cancel, zero-div, zero-mod, le-div_iff_mul-le, div-lt_iff_lt-mul}
use plan_my_pickle_backend.Pools.{deal, split_pools}
use plan_my_pickle_backend.Pools.Sizes.{size_at, Sizes, deal-lem}

no_units : (n k : ℕ) → size_at n 0 k ≡ 0
unfolding size_at
no_units n k = rw (zero-div n, zero-mod n) (ground arith)

Sizes-replicate {ℓ} : (A : Type ℓ) (n k m : ℕ) → Sizes {A = A} n 0 k (replicate m [])
unfolding Sizes
Sizes-replicate A n k zero = tt
Sizes-replicate A n k (suc m) = (sym (no_units n k), Sizes-replicate A n (suc k) m)

replicate-total {ℓ} : {A : Type ℓ} (w : A → ℕ) (m : ℕ) → total (total w) (replicate m []) ≡ 0
replicate-total w zero = refl
replicate-total w (suc m) = omega (arith, replicate-total w m)

size_at-bounds : (n i p : ℕ) → (i / n ≤ size_at n i p) × (size_at n i p ≤ i / n + 1)
unfolding size_at
size_at-bounds n i p = ground arith

size_at-even : (n i p : ℕ) → i % n ≡ 0 → size_at n i p ≡ i / n
unfolding size_at
size_at-even n i p e = rw e (ground arith)

-- Pools of three to five for eight units or more.
pool_sizes : (n i p : ℕ) → n ≡ (i + 4) / 5 → 8 ≤ i → (3 ≤ size_at n i p) × (size_at n i p ≤ 5)
pool_sizes n i p e many =
    let some_pool : 0 < n = omega (arith, e) in
    let (low, high) = size_at-bounds n i p in
    let three : 3 ≤ i / n = (le-div_iff_mul-le some_pool).1 (omega (arith, e)) in
    let six : i / n < 6 = (div-lt_iff_lt-mul some_pool).1 (omega (arith, e)) in
    elim (Bool-cases (i % n == 0)) [
      | inl even ↦
          let exact = size_at-even n i p (ground (arith, even)) in
          (omega (arith, low, three), omega (arith, exact, six))
      | inr odd ↦
          let apart : i ≢ 5 * n = λ same. absurd (
            let q : i / n ≡ 5 = ap (λ k. k / n) same ∙ mul-div_cancel 5 some_pool in
            let rest = ap (λ k. n * k) q in ground (arith, odd, div-add-mod i n, rest, same)) in
          let five : i / n < 5 = (div-lt_iff_lt-mul some_pool).1 (omega (arith, e, apart)) in
          (omega (arith, low, three), omega (arith, high, five))
    ]

Sizes-All {ℓ} :
    {A : Type ℓ} (n i k lo hi : ℕ) (pools : List (List A))
    → ((p : ℕ) → (lo ≤ size_at n i p) × (size_at n i p ≤ hi))
    → Sizes n i k pools
    → All (λ pool. (lo ≤ length pool) × (length pool ≤ hi)) pools
unfolding Sizes
Sizes-All n i k lo hi [] f h = tt
Sizes-All n i k lo hi (pool ∷ pools) f h =
    let (low, high) = f k in
    ((omega (arith, low, h.0), omega (arith, high, h.0)), Sizes-All n i (suc k) lo hi pools f h.1)

-- Whatever the ratings, in a field of eight units or more: every unit is in one pool, as often as it is in
-- the field; there is a pool for each five units or part of five, each pool has three to five, and
-- no pool has more than one unit more than another.
pub split_pools_lem :
    (rated_over : List String → List String → Bool) (units : List (List String))
    → 8 ≤ length units
    → ((w : List String → ℕ) → total (total w) (split_pools rated_over units) ≡ total w units)
      × (length (split_pools rated_over units) ≡ (length units + 4) / 5)
      × All (λ pool. (3 ≤ length pool) × (length pool ≤ 5)) (split_pools rated_over units)
      × (size : ℕ) × All
          (λ pool. (size ≤ length pool) × (length pool ≤ size + 1))
          (split_pools rated_over units)
unfolding split_pools
split_pools_lem better units enough =
    let i = length units in
    let n = (i + 4) / 5 in
    let many : ltb i 8 ≡ false = ground (arith, enough) in
    let sorted = sort_stable better units in
    let (len, sizes, kept) =
      deal-lem n 0 sorted (replicate n []) (omega (arith, enough)) (length-replicate n [])
        (Sizes-replicate _ n 0 n) in
    let e : 0 + length sorted ≡ i = omega (arith, sort_stable-length better units) in
    let sized = subst (λ j. Sizes n j 0 (deal n 0 sorted (replicate n []))) e sizes in
    rw many (
      λ w. omega (arith, kept w, replicate-total w n, sort_stable-total better w units),
      len,
      Sizes-All n i 0 3 5 _ (λ p. pool_sizes n i p refl enough) sized,
      i / n,
      Sizes-All n i 0 (i / n) (i / n + 1) _ (size_at-bounds n i) sized,
    )
