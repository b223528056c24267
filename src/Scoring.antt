-- ===== src/Scoring.antt =====
-- internal/service/scoring.go: the legality check of one game and of a best-of-N series.
-- Go's `int` is ℤ (no overflow), an error is a value that keeps the numbers of its message.
pub mod Game
pub mod Decided
pub mod Loop
pub mod Series
use plan_my_pickle_backend.Base.{
  ℕ, zero, suc, ◌+◌, ◌-◌, ◌/◌, ◌≡◌, Bool, ◌&&◌, ◌||◌, not, Option, none, some, List, [], ◌∷◌,
  length, ltb, leb, ◌==◌, if◌then◌else◌, ℤ, pos, negsuc, ◌+ℤ◌, ◌-ℤ◌, ltb_ℤ, eqb_ℤ, pos_part,
}

pub data GameError : Type 0 where
  negative : GameError
  tie : GameError
  short : ℤ → GameError
  margin : ℤ → ℤ → ℤ → GameError
  past_deuce : ℤ → ℤ → GameError
  past_target : ℤ → GameError

-- The tests on the winner's and the loser's points.
check_points : ℤ → ℤ → ℤ → ℤ → Option GameError
check_points hi lo ptw win_by =
    if ltb_ℤ hi ptw
    then some (short ptw)
    else if ltb_ℤ (hi -ℤ lo) win_by
    then some (margin win_by hi lo)
    else if not (ltb_ℤ win_by (pos 2))
    then (if ltb_ℤ ptw hi && (not (eqb_ℤ (hi -ℤ lo) win_by) || ltb_ℤ lo (ptw -ℤ pos 1))
        then some (past_deuce ptw win_by)
        else none)
    else if ltb_ℤ ptw hi
    then some (past_target ptw)
    else none

pub validate_game : ℤ → ℤ → ℤ → ℤ → Option GameError
unfolding check_points
validate_game t1 t2 ptw win_by =
    if ltb_ℤ t1 (pos 0) || ltb_ℤ t2 (pos 0)
    then some negative
    else if eqb_ℤ t1 t2
    then some tie
    else check_points (if ltb_ℤ t1 t2 then t2 else t1) (if ltb_ℤ t1 t2 then t1 else t2) ptw win_by

pub record GameScore : Type 0 where
  pub team1 : ℤ
  pub team2 : ℤ

pub data SeriesError : Type 0 where
  no_games : SeriesError
  too_many : ℕ → SeriesError
  bad_game : ℕ → GameError → SeriesError
  already_decided : SeriesError
  undecided : ℕ → ℕ → ℕ → ℕ → SeriesError

-- The winner (1 or 2) and each side's points over all games.
pub record Outcome : Type 0 where
  pub winner : ℕ
  pub total1 : ℤ
  pub total2 : ℤ

pub data Verdict : Type 0 where
  accepted : Outcome → Verdict
  refused : SeriesError → Verdict

-- What the loop over the games carries.
pub record Tally : Type 0 where
  pub wins1 : ℕ
  pub wins2 : ℕ
  pub points1 : ℤ
  pub points2 : ℤ

-- One game added to the tally.
add_game : GameScore → Tally → Tally
add_game g t = record {
  wins1 = if ltb_ℤ g.team2 g.team1 then t.wins1 + 1 else t.wins1;
  wins2 = if ltb_ℤ g.team2 g.team1 then t.wins2 else t.wins2 + 1;
  points1 = t.points1 +ℤ g.team1;
  points2 = t.points2 +ℤ g.team2;
}

-- The checks after the loop.
conclude : ℕ → ℕ → Tally → Verdict
conclude best needed t =
    if ltb t.wins1 needed && ltb t.wins2 needed
    then refused (undecided best needed t.wins1 t.wins2)
    else if ltb t.wins2 t.wins1
    then accepted (record { winner = 1; total1 = t.points1; total2 = t.points2 })
    else accepted (record { winner = 2; total1 = t.points1; total2 = t.points2 })

-- The loop: `n` is `len(games)`, `i` the index of the head of what is left.
pub check_games : (best n needed : ℕ) (ptw win_by : ℤ) → List GameScore → ℕ → Tally → Verdict
unfolding add_game conclude
check_games best n needed ptw win_by [] i t = conclude best needed t
check_games best n needed ptw win_by (g ∷ gs) i t =
    let rest = check_games best n needed ptw win_by gs (i + 1) (add_game g t) in
    elim (validate_game g.team1 g.team2 ptw win_by) [
      | some e ↦ refused (bad_game (i + 1) e)
      | none ↦
          let t' = add_game g t in
          if (leb needed t'.wins1 || leb needed t'.wins2) && not (i == n - 1)
          then refused already_decided
          else rest
    ]

-- `bestOf` below 1 counts as 1.
pub best_of_at_least_1 : ℤ → ℕ
best_of_at_least_1 best_of = if ltb_ℤ best_of (pos 1) then 1 else pos_part best_of

pub empty_tally : Tally
empty_tally = record { wins1 = 0; wins2 = 0; points1 = pos 0; points2 = pos 0 }

pub validate_series : List GameScore → ℤ → ℤ → ℤ → Verdict
validate_series games best_of ptw win_by =
    let best = best_of_at_least_1 best_of in
    if length games == 0
    then refused no_games
    else if ltb best (length games)
    then refused (too_many best)
    else check_games best (length games) (best / 2 + 1) ptw win_by games 0 empty_tally
