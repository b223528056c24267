-- ===== src/Examples/Scores.antt =====
-- Games and series at concrete scores.
use plan_my_pickle_backend.Base.{◌≡◌, ◌↔◌, none, List, [], ◌∷◌, pos}
use plan_my_pickle_backend.Scoring.{GameScore, Outcome, accepted, validate_game, validate_series}
use plan_my_pickle_backend.Scoring.Game.{IsLegal, validate_game-iff_IsLegal}
use plan_my_pickle_backend.Scoring.Decided.{IsSeries}
use plan_my_pickle_backend.Scoring.Series.{max_games, validate_series-iff_IsSeries}

-- Out of deuce, past the target of 11.
deuce_example :
    (validate_game (pos 13) (pos 11) (pos 11) (pos 2) ≡ none)
    ↔ IsLegal (pos 13) (pos 11) (pos 11) (pos 2)
deuce_example = validate_game-iff_IsLegal (pos 13) (pos 11) (pos 11) (pos 2)

abbrev three_games : List GameScore
three_games =
    record { team1 = pos 11; team2 = pos 4 }
    ∷ record { team1 = pos 9; team2 = pos 11 }
    ∷ record { team1 = pos 12; team2 = pos 10 }
    ∷ []

abbrev taken_by_1 : Outcome
taken_by_1 = record { winner = 1; total1 = pos 32; total2 = pos 25 }

best_of_3_example :
    (validate_series three_games (pos 3) (pos 11) (pos 2) ≡ accepted taken_by_1)
    ↔ IsSeries three_games (max_games (pos 3)) (pos 11) (pos 2) taken_by_1
best_of_3_example = validate_series-iff_IsSeries three_games (pos 3) (pos 11) (pos 2) taken_by_1
