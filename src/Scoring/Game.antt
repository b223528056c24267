-- ===== src/Scoring/Game.antt =====
-- What `validateGame` accepts.
use plan_my_pickle_backend.Base.{
  ◌≡◌, ◌⊎◌, ◌↔◌, none, arith, ℤ, pos, ◌+ℤ◌, ◌≤ℤ◌, ◌<ℤ◌, -ℤ_parts, +ℤ_parts, eq_of_parts,
}
use plan_my_pickle_backend.Scoring.{validate_game, check_points}

-- A game that `hi` wins against `lo`: at the target with the margin, or past it by the margin
-- exactly, out of deuce.
pub record IsWon (hi lo ptw win_by : ℤ) : Type 0 where
  pub ahead : lo <ℤ hi
  pub by_margin : lo +ℤ win_by ≤ℤ hi
  pub ends :
      (hi ≡ ptw) ⊎ ((ptw <ℤ hi) × (pos 2 ≤ℤ win_by) × (hi ≡ lo +ℤ win_by) × (ptw ≤ℤ lo +ℤ pos 1))

pub record IsLegal (t1 t2 ptw win_by : ℤ) : Type 0 where
  pub nonneg1 : pos 0 ≤ℤ t1
  pub nonneg2 : pos 0 ≤ℤ t2
  pub won : IsWon t1 t2 ptw win_by ⊎ IsWon t2 t1 ptw win_by

module _ (hi lo ptw win_by : ℤ) where
  check_points-IsWon : lo <ℤ hi → check_points hi lo ptw win_by ≡ none → IsWon hi lo ptw win_by
  unfolding check_points
  check_points-IsWon h e = ground (
    arith,
    -ℤ_parts hi lo,
    -ℤ_parts ptw (pos 1),
    +ℤ_parts lo win_by,
    +ℤ_parts lo (pos 1),
    eq_of_parts hi ptw,
    eq_of_parts hi (lo +ℤ win_by),
  )

  IsWon-check_points : IsWon hi lo ptw win_by → check_points hi lo ptw win_by ≡ none
  unfolding check_points
  IsWon-check_points w =
      ground (arith, -ℤ_parts hi lo, -ℤ_parts ptw (pos 1), +ℤ_parts lo win_by, +ℤ_parts lo (pos 1))

-- A game is accepted exactly if it is legal: no side below zero, and one side wins it by the rules.
pub validate_game-iff_IsLegal :
    (t1 t2 ptw win_by : ℤ) → (validate_game t1 t2 ptw win_by ≡ none) ↔ IsLegal t1 t2 ptw win_by
unfolding validate_game
validate_game-iff_IsLegal t1 t2 ptw win_by = (
  λ e. ground (
    arith,
    eq_of_parts t1 t2,
    check_points-IsWon t1 t2 ptw win_by,
    check_points-IsWon t2 t1 ptw win_by,
  ),
  λ v. ground (arith, IsWon-check_points t1 t2 ptw win_by, IsWon-check_points t2 t1 ptw win_by),
)

-- The verdict, its error included, does not depend on which side is called team 1.
pub validate_game_comm :
    (t1 t2 ptw win_by : ℤ) → validate_game t1 t2 ptw win_by ≡ validate_game t2 t1 ptw win_by
unfolding validate_game
validate_game_comm t1 t2 ptw win_by = ground arith
