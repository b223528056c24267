-- ===== src/Schedule/Circle.antt =====
-- `singlesRoundRobin`: the circle method. The first player stays, the others move one place on
-- after each round; the player at index i meets the one at n - 1 - i.
pub mod Places
pub mod Meet
pub mod Pairs
pub mod Laws
pub mod Once
use plan_my_pickle_backend.Base.{
  ℕ, zero, suc, ◌+◌, ◌-◌, ◌/◌, ◌%◌, ◌||◌, List, [], ◌∷◌, ◌++◌, String, str_eq, ltb, ◌==◌,
  if◌then◌else◌, length, take, drop, get_or,
}
use plan_my_pickle_backend.Schedule.{RawMatch}

-- The id of nobody.
abbrev pub bye : String
bye = ""

abbrev pub single : String → String → RawMatch
single a b = record { t1 = a ∷ []; t2 = b ∷ [] }

-- The inner loop from `i` on, for `m` pairs of `n` places.
pub pairs_from : List String → ℕ → ℕ → ℕ → List RawMatch
pairs_from arr n i zero = []
pairs_from arr n i (suc m) =
    let a = get_or arr i bye in
    let b = get_or arr (n - 1 - i) bye in
    if str_eq a bye || str_eq b bye
    then pairs_from arr n (suc i) m
    else single a b ∷ pairs_from arr n (suc i) m

-- [arr0, arrLast, arr1..arrLast-1]
pub rotate : List String → List String
rotate arr = get_or arr 0 bye ∷ get_or arr (length arr - 1) bye ∷ take (length arr - 2) (drop 1 arr)

pub rounds_from : ℕ → List String → List (List RawMatch)
unfolding pairs_from rotate
rounds_from zero arr = []
rounds_from (suc k) arr =
    pairs_from arr (length arr) 0 (length arr / 2) ∷ rounds_from k (rotate arr)

-- The field, with a bye if it is odd.
pub even_field : List String → List String
even_field players = if length players % 2 == 1 then players ++ bye ∷ [] else players

pub singles_round_robin : List String → List (List RawMatch)
unfolding rounds_from even_field
singles_round_robin players =
    let p = even_field players in if ltb (length p) 2 then [] else rounds_from (length p - 1) p
