-- ===== src/Pools.antt =====
-- internal/service/service.go: `splitPools`, which deals the units of a field into balanced pools. The rating
-- of a unit is an average of decimal numbers; `rated_over` is its comparison.
pub mod Sizes
pub mod Dealt
use plan_my_pickle_backend.Base.{
  ℕ, zero, suc, ◌+◌, ◌-◌, ◌/◌, ◌%◌, Bool, List, [], ◌∷◌, ◌++◌, String, ltb, ◌==◌, if◌then◌else◌,
  length, replicate, sort_stable,
}

-- The pool of the unit at index `i`: the laps run forth and back.
unfoldable pub pool_of : ℕ → ℕ → ℕ
pool_of num_pools i =
    if (i / num_pools) % 2 == 1 then num_pools - 1 - i % num_pools else i % num_pools

-- `pools[p] = append(pools[p], u)`
unfoldable pub add_at {ℓ} : {A : Type ℓ} → ℕ → A → List (List A) → List (List A)
add_at p u [] = []
add_at zero u (pool ∷ pools) = (pool ++ u ∷ []) ∷ pools
add_at (suc p) u (pool ∷ pools) = pool ∷ add_at p u pools

unfoldable pub deal {ℓ} : {A : Type ℓ} → ℕ → ℕ → List A → List (List A) → List (List A)
unfolding pool_of add_at
deal num_pools i [] pools = pools
deal num_pools i (u ∷ units) pools =
    deal num_pools (suc i) units (add_at (pool_of num_pools i) u pools)

unfoldable pub split_pools :
    (List String → List String → Bool) → List (List String) → List (List (List String))
unfolding deal sort_stable
split_pools rated_over units =
    if ltb (length units) 8
    then units ∷ []
    else deal ((length units + 4) / 5) 0 (sort_stable rated_over units)
        (replicate ((length units + 4) / 5) [])
