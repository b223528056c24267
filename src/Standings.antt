-- ===== src/Standings.antt =====
-- internal/service/service.go: rankStandingsWith, the order of the standings. A win percentage is kept
-- as a fraction, and compared exactly.
pub mod Adjacent
pub mod Runs
pub mod Ranked
pub mod Peer
pub mod Peers
use plan_my_pickle_backend.Base.{
  ℕ, zero, suc, ◌+◌, ◌*◌, ◌&&◌, not, Bool, true, false, Option, none, some, List, [], ◌∷◌, ◌++◌,
  map, String, str_eq, ltb, ◌==◌, if◌then◌else◌, length, total, sort_stable, insert_stable, ℤ, pos,
  negsuc, ltb_ℤ, eqb_ℤ,
}
use plan_my_pickle_backend.Schedule.Mixer.{str_ltb}

pub record Fraction : Type 0 where
  pub num : ℕ
  pub den : ℕ

pub record Standing : Type 0 where
  pub player_id : String
  pub full_name : String
  pub games_played : ℕ
  pub wins : ℕ
  pub losses : ℕ
  pub points_for : ℕ
  pub points_against : ℕ
  pub point_diff : ℤ
  pub win_pct : Fraction

abbrev pub fill_win_pct : Standing → Standing
fill_win_pct s = record s {
  win_pct =
      if ltb 0 (s.wins + s.losses)
      then record { num = s.wins; den = s.wins + s.losses }
      else record { num = 0; den = 1 };
}

-- Head-to-head wins of a player over another, where the map is there.
abbrev pub HeadToHead : Type 0
HeadToHead = Option (String → String → ℕ)

abbrev pub wins_over : HeadToHead → String → String → ℕ
wins_over none a b = 0
wins_over (some h2h) a b = h2h a b

unfoldable pub h2h_cmp : HeadToHead → Standing → Standing → ℤ
h2h_cmp h a b =
    let aw = wins_over h a.player_id b.player_id in
    let bw = wins_over h b.player_id a.player_id in
    if ltb bw aw then pos 1 else if ltb aw bw then negsuc 0 else pos 0

-- The test of the points leaderboard.
unfoldable pub more_points : HeadToHead → Standing → Standing → Bool
unfolding h2h_cmp
more_points h a b =
    if not (a.points_for == b.points_for)
    then ltb b.points_for a.points_for
    else if not (a.wins == b.wins)
    then ltb b.wins a.wins
    else if not (eqb_ℤ a.point_diff b.point_diff)
    then ltb_ℤ b.point_diff a.point_diff
    else if not (eqb_ℤ (h2h_cmp h a b) (pos 0))
    then ltb_ℤ (pos 0) (h2h_cmp h a b)
    else str_ltb a.player_id b.player_id

-- The test by record, on win percentage in a league and on wins elsewhere.
unfoldable pub better_record : Bool → Standing → Standing → Bool
better_record diff_first a b =
    if diff_first
    then ltb (b.win_pct.num * a.win_pct.den) (a.win_pct.num * b.win_pct.den)
    else ltb b.wins a.wins

unfoldable pub same_rank : Bool → Standing → Standing → Bool
same_rank diff_first a b =
    if diff_first
    then a.win_pct.num * b.win_pct.den == b.win_pct.num * a.win_pct.den
    else a.wins == b.wins

-- What a row adds to the head-to-head wins of a player in the group.
abbrev pub versus : HeadToHead → String → Standing → ℕ
versus h a b = if str_eq a b.player_id then 0 else wins_over h a b.player_id

abbrev pub group_wins : HeadToHead → List Standing → String → ℕ
group_wins h grp a = total (versus h a) grp

-- The test in a group, with the head-to-head wins of each player in it.
unfoldable pub wins_tie : Bool → (String → ℕ) → Standing → Standing → Bool
wins_tie diff_first gw a b =
    if diff_first && not (eqb_ℤ a.point_diff b.point_diff)
    then ltb_ℤ b.point_diff a.point_diff
    else if not (gw a.player_id == gw b.player_id)
    then ltb (gw b.player_id) (gw a.player_id)
    else if not (eqb_ℤ a.point_diff b.point_diff)
    then ltb_ℤ b.point_diff a.point_diff
    else if not (a.points_for == b.points_for)
    then ltb b.points_for a.points_for
    else str_ltb a.player_id b.player_id

-- The rows of a rank at the front, and those after them.
unfoldable pub take_rank : Bool → Standing → List Standing → List Standing
unfolding same_rank
take_rank diff_first x [] = []
take_rank diff_first x (y ∷ out) =
    if same_rank diff_first y x then y ∷ take_rank diff_first x out else []

unfoldable pub drop_rank : Bool → Standing → List Standing → List Standing
unfolding same_rank
drop_rank diff_first x [] = []
drop_rank diff_first x (y ∷ out) =
    if same_rank diff_first y x then drop_rank diff_first x out else y ∷ out

unfoldable pub settle_group : Bool → HeadToHead → List Standing → List Standing
unfolding wins_tie sort_stable
settle_group diff_first h grp =
    if ltb 1 (length grp) then sort_stable (wins_tie diff_first (group_wins h grp)) grp else grp

-- The loop over the groups; each turn takes a row or more off.
unfoldable pub settle_ties : ℕ → Bool → HeadToHead → List Standing → List Standing
unfolding settle_group take_rank drop_rank
settle_ties zero diff_first h out = out
settle_ties (suc fuel) diff_first h [] = []
settle_ties (suc fuel) diff_first h (x ∷ out) =
    settle_group diff_first h (x ∷ take_rank diff_first x out)
    ++ settle_ties fuel diff_first h (drop_rank diff_first x out)

unfoldable pub rank_standings_with : List Standing → HeadToHead → Bool → Bool → List Standing
unfolding settle_ties better_record more_points sort_stable
rank_standings_with out h by_wins diff_first =
    let filled = map fill_win_pct out in
    if by_wins
    then (let sorted = sort_stable (better_record diff_first) filled in
        settle_ties (length sorted) diff_first h sorted)
    else sort_stable (more_points h) filled

unfoldable pub rank_standings : List Standing → HeadToHead → Bool → List Standing
unfolding rank_standings_with
rank_standings out h by_wins = rank_standings_with out h by_wins false

unfoldable pub rank_standings_diff_first : List Standing → HeadToHead → Bool → List Standing
unfolding rank_standings_with
rank_standings_diff_first out h by_wins = rank_standings_with out h by_wins true
