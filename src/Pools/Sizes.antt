-- ===== src/Pools/Sizes.antt =====
-- What each pool holds when some of the units have been dealt.
use plan_my_pickle_backend.Base.{
  ℕ, zero, suc, ◌+◌, ◌-◌, ◌*◌, ◌/◌, ◌%◌, ◌≤◌, ◌<◌, ◌≡◌, ◌⊎◌, refl, sym, subst, ap, ◌∙◌, inl, inr,
  true, false, List, [], ◌∷◌, ltb, ◌==◌, if◌then◌else◌, length, length-append, total, total-append,
  Bool-cases, div-add-mod, mod-lt, mod-eq_of_lt, arith,
}
use native.Mathlib.Nat.{suc-mod, mod_self, mul-div_cancel_left}
use plan_my_pickle_backend.Pools.{pool_of, add_at, deal}

-- A place in the laps after `i`, from the place of `i`.
next_place :
    (n i : ℕ)
    → 0 < n
    → ((i % n + 1 < n) × (suc i / n ≡ i / n) × (suc i % n ≡ i % n + 1))
      ⊎ ((i % n + 1 ≡ n) × (suc i / n ≡ i / n + 1) × (suc i % n ≡ 0))
next_place n i h = elim (Bool-cases (ltb (i % n + 1) n)) [
  | inl e ↦
      let less : suc (i % n) < n = ground (arith, e) in
      let r : suc i % n ≡ i % n + 1 = suc-mod i n ∙ mod-eq_of_lt less ∙ omega arith in
      let q : n * (suc i / n) ≡ n * (i / n) =
        omega (arith, div-add-mod i n, div-add-mod (suc i) n, r) in
      inl (
        omega (arith, less),
        sym (mul-div_cancel_left (suc i / n) h) ∙ ap (λ k. k / n) q ∙ mul-div_cancel_left (i / n) h,
        r,
      )
  | inr e ↦
      let full : suc (i % n) ≡ n = ground (arith, e, mod-lt i h) in
      let r : suc i % n ≡ 0 = suc-mod i n ∙ ap (λ k. k % n) full ∙ mod_self n in
      let q : n * (suc i / n) ≡ n * (i / n + 1) =
        grind (arith, div-add-mod i n, div-add-mod (suc i) n, r, full) in
      inr (
        omega (arith, full),
        sym (mul-div_cancel_left (suc i / n) h)
            ∙ ap (λ k. k / n) q
            ∙ mul-div_cancel_left (i / n + 1) h,
        r,
      )
]

-- How many units the pool at `p` holds once `i` have been dealt.
unfoldable pub size_at : ℕ → ℕ → ℕ → ℕ
size_at n i p =
    i / n
    + (if (i / n) % 2 == 1
        then (if ltb (n - 1 - p) (i % n) then 1 else 0)
        else (if ltb p (i % n) then 1 else 0))

size_at-suc :
    (n i p : ℕ) → p < n → size_at n (suc i) p ≡ size_at n i p + (if p == pool_of n i then 1 else 0)
unfolding size_at pool_of
size_at-suc n i p h = elim (next_place n i (omega arith)) [
  | inl (less, q, r) ↦ rw (q, r) (ground arith)
  | inr (full, q, r) ↦ rw (q, r) (ground arith)
]

pool_of-lt : (n i : ℕ) → 0 < n → pool_of n i < n
unfolding pool_of
pool_of-lt n i h = ground (arith, mod-lt i h)

-- The pools from the one at `k` on hold what they should once `i` units have been dealt.
unfoldable pub Sizes {ℓ} : {A : Type ℓ} → ℕ → ℕ → ℕ → List (List A) → Type 0
Sizes n i k [] = Unit
Sizes n i k (pool ∷ pools) = (length pool ≡ size_at n i k) × Sizes n i (suc k) pools

module _ {ℓ} {A : Type ℓ} (n i : ℕ) where
  -- The pools behind the one that gets the unit.
  Sizes-behind :
      (k : ℕ) (pools : List (List A))
      → k + length pools ≤ n
      → pool_of n i < k
      → Sizes n i k pools
      → Sizes n (suc i) k pools
  unfolding Sizes
  Sizes-behind k [] fits past h = tt
  Sizes-behind k (pool ∷ pools) fits past h =
      let other : (k == pool_of n i) ≡ false = ground arith in
      let same : size_at n (suc i) k ≡ size_at n i k + 0 =
        size_at-suc n i k (omega (arith, fits))
        ∙ ap (λ b. size_at n i k + (if b then 1 else 0)) other in
      (
        omega (arith, h.0, same),
        Sizes-behind (suc k) pools (omega (arith, fits)) (omega (arith, past)) h.1,
      )

  Sizes-add :
      (k p : ℕ) (u : A) (pools : List (List A))
      → k + length pools ≤ n
      → pool_of n i ≡ k + p
      → Sizes n i k pools
      → Sizes n (suc i) k (add_at p u pools)
  unfolding Sizes add_at
  Sizes-add k p u [] fits at h = tt
  Sizes-add k zero u (pool ∷ pools) fits at h =
      let this : (k == pool_of n i) ≡ true = ground (arith, at) in
      let more : size_at n (suc i) k ≡ size_at n i k + 1 =
        size_at-suc n i k (omega (arith, fits))
        ∙ ap (λ b. size_at n i k + (if b then 1 else 0)) this in
      (
        omega (arith, length-append pool (u ∷ []), h.0, more),
        Sizes-behind (suc k) pools (omega (arith, fits)) (omega (arith, at)) h.1,
      )
  Sizes-add k (suc p) u (pool ∷ pools) fits at h =
      let other : (k == pool_of n i) ≡ false = ground (arith, at) in
      let same : size_at n (suc i) k ≡ size_at n i k + 0 =
        size_at-suc n i k (omega (arith, fits))
        ∙ ap (λ b. size_at n i k + (if b then 1 else 0)) other in
      (
        omega (arith, h.0, same),
        Sizes-add (suc k) p u pools (omega (arith, fits)) (omega (arith, at)) h.1,
      )

module _ {ℓ} {A : Type ℓ} where
  add_at-length : (p : ℕ) (u : A) (pools : List (List A)) → length (add_at p u pools) ≡ length pools
  unfolding add_at
  add_at-length p u [] = refl
  add_at-length zero u (pool ∷ pools) = refl
  add_at-length (suc p) u (pool ∷ pools) = ap suc (add_at-length p u pools)

  add_at-total :
      (w : A → ℕ) (p : ℕ) (u : A) (pools : List (List A))
      → p < length pools
      → total (total w) (add_at p u pools) ≡ w u + total (total w) pools
  unfolding add_at
  add_at-total w p u [] h = absurd (omega arith)
  add_at-total w zero u (pool ∷ pools) h = omega (arith, total-append w pool (u ∷ []))
  add_at-total w (suc p) u (pool ∷ pools) h =
      omega (arith, add_at-total w p u pools (omega (arith, h)))

  -- What dealing comes to.
  pub deal-lem :
      (n i : ℕ) (units : List A) (pools : List (List A))
      → 0 < n
      → length pools ≡ n
      → Sizes n i 0 pools
      → (length (deal n i units pools) ≡ n)
        × Sizes n (i + length units) 0 (deal n i units pools)
        × ((w : A → ℕ)
            → total (total w) (deal n i units pools) ≡ total w units + total (total w) pools)
  unfolding deal
  deal-lem n i [] pools some_pool len sizes =
      let e : i ≡ i + 0 = omega arith in
      (len, subst (λ j. Sizes n j 0 pools) e sizes, λ w. omega arith)
  deal-lem n i (u ∷ units) pools some_pool len sizes =
      let p = pool_of n i in
      let pools' = add_at p u pools in
      let (len', sizes', kept) =
        deal-lem n (suc i) units pools' some_pool (add_at-length p u pools ∙ len)
          (Sizes-add n i 0 p u pools (omega (arith, len)) (omega arith) sizes) in
      let e : suc i + length units ≡ i + suc (length units) = omega arith in
      (
        len',
        subst (λ j. Sizes n j 0 (deal n (suc i) units pools')) e sizes',
        λ w. omega (
          arith,
          kept w,
          add_at-total w p u pools (omega (arith, len, pool_of-lt n i some_pool)),
        ),
      )
