-- ===== src/Rotation/Move.antt =====
-- `NextRound`: one round's results moved to the next round's courts and bench.
pub mod Maps
pub mod Moved
pub mod Conserve
pub mod Shift
pub mod Climb
use plan_my_pickle_backend.Base.{
  ℕ, zero, suc, ◌+◌, ◌-◌, ◌*◌, ◌≡◌, Bool, true, false, ◌&&◌, List, [], ◌∷◌, ◌++◌, String, ◌==◌,
  str_eq, ltb, if◌then◌else◌, length, take, drop, get_or, tabulate,
}
use plan_my_pickle_backend.Rotation.{
  Team, RotCourt, LoserMode, losers_down, losers_stay, RotResult, layout_and_bench_ok,
}

-- A Go map with `int` keys: a missing key reads as the zero value that the map starts from.
abbrev pub put {ℓ} : {V : Type ℓ} → (ℕ → V) → ℕ → V → ℕ → V
put m k v j = if j == k then v else m j

-- court → winning result, later results over earlier ones.
unfoldable pub win_map : List RotResult → (ℕ → String) → ℕ → String
win_map [] m = m
win_map (r ∷ rs) m = win_map rs (put m r.court r.winner)

abbrev pub no_team : Team
no_team = ("", "")

pub record Teams : Type 0 where
  pub winners : ℕ → Team
  pub losers : ℕ → Team

unfoldable pub winner_of : (ℕ → String) → RotCourt → Team
winner_of win c = if str_eq (win c.court) "b" then c.team_b else c.team_a

unfoldable pub loser_of : (ℕ → String) → RotCourt → Team
loser_of win c = if str_eq (win c.court) "b" then c.team_a else c.team_b

-- One court entered into both maps.
unfoldable pub enter : (ℕ → String) → RotCourt → Teams → Teams
unfolding winner_of loser_of
enter win c m = record {
  winners = put m.winners c.court (winner_of win c);
  losers = put m.losers c.court (loser_of win c);
}

unfoldable pub collect_teams : (ℕ → String) → List RotCourt → Teams → Teams
unfolding enter
collect_teams win [] m = m
collect_teams win (c ∷ cs) m = collect_teams win cs (enter win c m)

-- At most two rotate through the bench in a round.
unfoldable pub min2 : ℕ → ℕ
min2 n = if ltb n 2 then n else 2

abbrev pub team_ids : Team → List String
team_ids t = t.0 ∷ t.1 ∷ []

-- The first two of a list, as an array of two.
abbrev pub to_team : List String → Team
to_team xs = (get_or xs 0 "", get_or xs 1 "")

pub record Bye : Type 0 where
  pub next_bench : List String
  pub bottom_stay : Team

-- The swap between the bottom court's losers and the front of the bench.
unfoldable pub bye_swap : Team → List String → Bye
unfolding min2
bye_swap losers_n bench =
    let k = min2 (length bench) in
    if ltb 0 k
    then record {
      next_bench = drop k bench ++ take k (team_ids losers_n);
      bottom_stay = to_team (take k bench ++ drop k (team_ids losers_n));
    }
    else record { next_bench = bench; bottom_stay = losers_n }

unfoldable pub from_above : LoserMode → ℕ → Teams → ℕ → Team
from_above losers_stay n t k =
    if ltb 1 n
    then (if k == 1 then t.winners 1 else if k == n then t.losers 1 else t.losers k)
    else if k == 1
    then t.winners 1
    else t.losers (k - 1)
from_above losers_down n t k = if k == 1 then t.winners 1 else t.losers (k - 1)

unfoldable pub from_below : LoserMode → ℕ → Teams → Team → ℕ → Team
from_below losers_stay n t stay k =
    if ltb 1 n
    then (if k == 1 then t.winners 2 else if k == n then stay else t.winners (k + 1))
    else if k == n
    then stay
    else t.winners (k + 1)
from_below losers_down n t stay k = if k == n then stay else t.winners (k + 1)

-- Each player from below is paired with one from above.
unfoldable pub next_court : LoserMode → ℕ → Teams → Team → ℕ → RotCourt
next_court mode n t stay k =
    let below = from_below mode n t stay k in
    let above = from_above mode n t k in
    record { court = k; team_a = (below.0, above.0); team_b = (below.1, above.1) }

unfoldable pub no_teams : Teams
no_teams = record { winners = λ _. no_team; losers = λ _. no_team }

unfoldable pub teams_of : List RotCourt → List RotResult → Teams
unfolding collect_teams win_map no_teams
teams_of courts results = collect_teams (win_map results (λ _. "")) courts no_teams

pub record Round : Type 0 where
  pub courts : List RotCourt
  pub bench : List String

unfoldable pub next_round : List RotCourt → List RotResult → List String → LoserMode → Round
next_round courts results bench mode =
    let n = length courts in
    let t = teams_of courts results in
    let bye = bye_swap (t.losers n) bench in
    if layout_and_bench_ok courts bench
    then (if n == 0 then record { courts = []; bench = bench } else record {
      courts = tabulate (next_court mode n t bye.bottom_stay) 1 n;
      bench = bye.next_bench;
    })
    else record { courts = courts; bench = bench }
