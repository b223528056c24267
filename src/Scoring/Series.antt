-- ===== src/Scoring/Series.antt =====
-- What `validateSeries` accepts.
use plan_my_pickle_backend.Base.{
  ℕ, ◌+◌, ◌/◌, ◌≤◌, ◌<◌, ◌≡◌, ◌↔◌, arith, List, sym, ◌∙◌, zero_+ℤ, length, ℤ, pos, negsuc, zero,
  suc, subst,
}
use plan_my_pickle_backend.Scoring.{
  GameScore, Outcome, accepted, validate_series, check_games, best_of_at_least_1, empty_tally,
}
use plan_my_pickle_backend.Scoring.Decided.{points1, points2, IsSeries}
use plan_my_pickle_backend.Scoring.Loop.{Holds, check_games-Holds, Holds-check_games}

module _ (games : List GameScore) where
  -- The guards before the loop.
  passes :
      (best_of ptw win_by : ℤ) (o : Outcome)
      → validate_series games best_of ptw win_by ≡ accepted o
      → (0 < length games)
        × (length games ≤ best_of_at_least_1 best_of)
        × (check_games
              (best_of_at_least_1 best_of)
              (length games)
              (best_of_at_least_1 best_of / 2 + 1)
              ptw
              win_by
              games
              0
              empty_tally
            ≡ accepted o)
  unfolding validate_series
  passes best_of ptw win_by o h = ground arith

  IsSeries-of_Holds :
      (best : ℕ) (ptw win_by : ℤ) (o : Outcome)
      → 0 < length games
      → length games ≤ best
      → Holds best (length games) (best / 2 + 1) ptw win_by games empty_tally o
      → IsSeries games best ptw win_by o
  unfolding empty_tally
  IsSeries-of_Holds best ptw win_by o some_game fits v = record {
    legal = v.legal;
    some_game = some_game;
    fits = fits;
    decided = ground (arith, v.decided);
    total1 = v.total1 ∙ zero_+ℤ (points1 games);
    total2 = v.total2 ∙ zero_+ℤ (points2 games);
  }

  Holds-of_IsSeries :
      (best : ℕ) (ptw win_by : ℤ) (o : Outcome)
      → IsSeries games best ptw win_by o
      → Holds best (length games) (best / 2 + 1) ptw win_by games empty_tally o
  unfolding empty_tally
  Holds-of_IsSeries best ptw win_by o v = record {
    legal = v.legal;
    decided = ground (arith, v.decided);
    total1 = v.total1 ∙ sym (zero_+ℤ (points1 games));
    total2 = v.total2 ∙ sym (zero_+ℤ (points2 games));
  }

  accepts :
      (best_of ptw win_by : ℤ) (o : Outcome)
      → IsSeries games (best_of_at_least_1 best_of) ptw win_by o
      → validate_series games best_of ptw win_by ≡ accepted o
  unfolding validate_series
  accepts best_of ptw win_by o v =
      let run =
        Holds-check_games (best_of_at_least_1 best_of) (length games)
          (best_of_at_least_1 best_of / 2 + 1) ptw win_by games 0 empty_tally o (omega arith)
          v.some_game (Holds-of_IsSeries _ ptw win_by o v) in
      ground (arith, run)

open_tally : (n : ℕ) → (empty_tally.wins1 < n + 1) × (empty_tally.wins2 < n + 1)
unfolding empty_tally
open_tally n = omega arith

-- The games of a best-of: one if the number is not positive.
abbrev pub max_games : ℤ → ℕ
max_games (pos zero) = 1
max_games (pos (suc n)) = suc n
max_games (negsuc n) = 1

best_of_at_least_1-max_games : (best_of : ℤ) → best_of_at_least_1 best_of ≡ max_games best_of
unfolding best_of_at_least_1
best_of_at_least_1-max_games (pos zero) = ground arith
best_of_at_least_1-max_games (pos (suc n)) = ground arith
best_of_at_least_1-max_games (negsuc n) = ground arith

-- A series is accepted with an outcome exactly if there is a game, there are at most `bestOf` (at
-- least 1) of them, each is legal, the named winner has won exactly the majority, the last game
-- among them, the other side has fewer wins, and the totals are the sums of the sides' points.
pub validate_series-iff_IsSeries :
    (games : List GameScore) (best_of ptw win_by : ℤ) (o : Outcome)
    → (validate_series games best_of ptw win_by ≡ accepted o)
      ↔ IsSeries games (max_games best_of) ptw win_by o
validate_series-iff_IsSeries games best_of ptw win_by o =
    let best = best_of_at_least_1-max_games best_of in
    (
      λ h.
          let (some_game, fits, run) = passes games best_of ptw win_by o h in
          subst (λ n. IsSeries games n ptw win_by o) best
            (IsSeries-of_Holds games _ ptw win_by o some_game fits (
              check_games-Holds (best_of_at_least_1 best_of) (length games)
                (best_of_at_least_1 best_of / 2 + 1) ptw win_by games 0 empty_tally o (omega arith)
                (open_tally (best_of_at_least_1 best_of / 2)).0
                (open_tally (best_of_at_least_1 best_of / 2)).1 run)),
      λ v.
          accepts games best_of ptw win_by o
            (subst (λ n. IsSeries games n ptw win_by o) (sym best) v),
    )
