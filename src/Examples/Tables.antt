-- ===== src/Examples/Tables.antt =====
-- Three rows: two with two wins, of whom Ben has beaten Ana, and one with one.
use plan_my_pickle_backend.Base.{
  ℕ, ◌+◌, ◌≡◌, refl, true, false, some, List, [], ◌∷◌, map, String, str_eq, if◌then◌else◌, ◌&&◌,
  total, pos,
}
use plan_my_pickle_backend.Standings.{Standing, HeadToHead, more_points, rank_standings_with}
use plan_my_pickle_backend.Standings.Adjacent.{Adjacent}
use plan_my_pickle_backend.Standings.Ranked.{rated, rank_standings_with-total}

abbrev standing : String → ℕ → ℕ → ℕ → Standing
standing player won lost scored = record {
  player_id = player;
  full_name = player;
  games_played = won + lost;
  wins = won;
  losses = lost;
  points_for = scored;
  points_against = 20;
  point_diff = pos 2;
  win_pct = record { num = 0; den = 1 };
}

abbrev three : List Standing
three = standing "Ana" 2 1 30 ∷ standing "Cai" 1 2 31 ∷ standing "Ben" 2 1 30 ∷ []

abbrev ben_beat_ana : HeadToHead
ben_beat_ana = some (λ a b. if str_eq a "Ben" && str_eq b "Ana" then 1 else 0)

order_test :
    map (λ s. s.player_id) (rank_standings_with three ben_beat_ana true false)
    ≡ "Ben" ∷ "Ana" ∷ "Cai" ∷ []
unfolding rank_standings_with
order_test = refl

rows_example :
    total (λ s. s.win_pct.den) (rank_standings_with three ben_beat_ana false false)
    ≡ total (λ s. (rated s).win_pct.den) three
rows_example = rank_standings_with-total three ben_beat_ana false false (λ s. s.win_pct.den)

-- Of three rows that are even in points, wins and difference, where one meeting took place, the points
-- leaderboard puts each before the next one around.
circle_test :
    (more_points ben_beat_ana (standing "Ben" 2 1 30) (standing "Ana" 2 1 30) ≡ true)
    × (more_points ben_beat_ana (standing "Ana" 2 1 30) (standing "Axl" 2 1 30) ≡ true)
    × (more_points ben_beat_ana (standing "Axl" 2 1 30) (standing "Ben" 2 1 30) ≡ true)
unfolding more_points
circle_test = (refl, refl, refl)
