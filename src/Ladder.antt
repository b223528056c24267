-- ===== src/Ladder.antt =====
-- internal/service/ladder.go: the two rules by which a result reorders a ladder, from top to bottom.
pub mod Moves
pub mod Laws
use plan_my_pickle_backend.Base.{
  ℕ, zero, suc, ◌+◌, Option, none, some, List, [], ◌∷◌, ◌++◌, String, str_eq, leb, if◌then◌else◌,
  take, drop, get_or, set,
}

-- One place further down.
abbrev pub below : Option ℕ → Option ℕ
below none = none
below (some i) = some (suc i)

-- The first index of an id; `none` is Go's -1.
pub index_of : List String → String → Option ℕ
index_of [] v = none
index_of (s ∷ ss) v = if str_eq s v then some 0 else below (index_of ss v)

-- The winner out of their place and into the loser's, everybody between one place down.
pub leapfrog_reorder : List String → String → String → List String
unfolding index_of
leapfrog_reorder order winner_id loser_id =
    if str_eq winner_id loser_id then order else elim (index_of order winner_id) [
      | none ↦ order
      | some wi ↦ elim (index_of order loser_id) [
        | none ↦ order
        | some li ↦
            if leb wi li
            then order
            else take li order
              ++ (get_or order wi "" ∷ drop li (take wi order))
              ++ drop (suc wi) order
      ]
    ]

-- The two change places.
pub swap_reorder : List String → String → String → List String
unfolding index_of
swap_reorder order winner_id loser_id =
    if str_eq winner_id loser_id then order else elim (index_of order winner_id) [
      | none ↦ order
      | some wi ↦ elim (index_of order loser_id) [
        | none ↦ order
        | some li ↦
            if leb wi li
            then order
            else set (set order wi (get_or order li "")) li (get_or order wi "")
      ]
    ]
