-- ===== src/Scoring/Decided.antt =====
-- The outcome that a series of games stands for.
use plan_my_pickle_backend.Base.{
  ℕ, ◌+◌, ◌/◌, ◌≤◌, ◌<◌, ◌≡◌, ◌⊎◌, Bool, true, false, List, [], ◌∷◌, length, All, if◌then◌else◌, ℤ,
  pos, ◌+ℤ◌, ltb_ℤ,
}
use plan_my_pickle_backend.Scoring.{GameScore, Outcome}
use plan_my_pickle_backend.Scoring.Game.{IsLegal}

-- Games that team 1, or team 2, has won. In a legal game one of the two is ahead.
abbrev pub wins1 : List GameScore → ℕ
wins1 [] = 0
wins1 (g ∷ gs) = (if ltb_ℤ g.team2 g.team1 then 1 else 0) + wins1 gs

abbrev pub wins2 : List GameScore → ℕ
wins2 [] = 0
wins2 (g ∷ gs) = (if ltb_ℤ g.team2 g.team1 then 0 else 1) + wins2 gs

abbrev pub points1 : List GameScore → ℤ
points1 [] = pos 0
points1 (g ∷ gs) = g.team1 +ℤ points1 gs

abbrev pub points2 : List GameScore → ℤ
points2 [] = pos 0
points2 (g ∷ gs) = g.team2 +ℤ points2 gs

-- Whether the last game went to team 1.
abbrev pub last_to_team1 : List GameScore → Bool
last_to_team1 [] = false
last_to_team1 (g ∷ []) = ltb_ℤ g.team2 g.team1
last_to_team1 (g ∷ h ∷ gs) = last_to_team1 (h ∷ gs)

-- Which side has taken the series: exactly `needed` games, the last of them the series' last,
-- while the other side has fewer.
pub record IsDecided (needed w1 w2 : ℕ) (last1 : Bool) (winner : ℕ) : Type 0 where
  pub taken :
      ((winner ≡ 1) × (w1 ≡ needed) × (w2 < needed) × (last1 ≡ true))
      ⊎ ((winner ≡ 2) × (w2 ≡ needed) × (w1 < needed) × (last1 ≡ false))

pub record IsSeries (games : List GameScore) (best : ℕ) (ptw win_by : ℤ) (o : Outcome)
    : Type 0 where
  pub legal : All (λ g. IsLegal g.team1 g.team2 ptw win_by) games
  pub some_game : 0 < length games
  pub fits : length games ≤ best
  pub decided : IsDecided (best / 2 + 1) (wins1 games) (wins2 games) (last_to_team1 games) o.winner
  pub total1 : o.total1 ≡ points1 games
  pub total2 : o.total2 ≡ points2 games
