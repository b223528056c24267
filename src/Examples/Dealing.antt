-- ===== src/Examples/Dealing.antt =====
-- Nine singles players, dealt into two pools in the order in which they stand.
use plan_my_pickle_backend.Base.{
  ℕ, ◌+◌, ◌≤◌, ◌≡◌, refl, Bool, false, List, [], ◌∷◌, map, String, All, length, total, arith,
}
use plan_my_pickle_backend.Pools.{split_pools}
use plan_my_pickle_backend.Pools.Dealt.{split_pools_lem}

abbrev nine : List (List String)
nine = map (λ a. a ∷ []) ("a" ∷ "b" ∷ "c" ∷ "d" ∷ "e" ∷ "f" ∷ "g" ∷ "h" ∷ "i" ∷ [])

abbrev all_even : List String → List String → Bool
all_even u v = false

snake_test :
    split_pools all_even nine
    ≡ map (λ a. a ∷ []) ("a" ∷ "d" ∷ "e" ∷ "h" ∷ "i" ∷ [])
      ∷ map (λ a. a ∷ []) ("b" ∷ "c" ∷ "f" ∷ "g" ∷ [])
      ∷ []
unfolding split_pools
snake_test = refl

nine_example :
    ((w : List String → ℕ) → total (total w) (split_pools all_even nine) ≡ total w nine)
    × (length (split_pools all_even nine) ≡ 2)
    × All (λ pool. (3 ≤ length pool) × (length pool ≤ 5)) (split_pools all_even nine)
    × (size : ℕ) × All
        (λ pool. (size ≤ length pool) × (length pool ≤ size + 1))
        (split_pools all_even nine)
nine_example = split_pools_lem all_even nine (omega arith)
