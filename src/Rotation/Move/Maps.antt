-- ===== src/Rotation/Move/Maps.antt =====
-- The maps of winners and losers that `NextRound` collects.
use plan_my_pickle_backend.Base.{
  ℕ, suc, ◌+◌, ◌≤◌, ◌≡◌, refl, ap, List, [], ◌∷◌, String, arith, length, hit, count, sum_range,
  sum_range-suc, sum_range-zero,
}
use plan_my_pickle_backend.Rotation.{Team, RotCourt, seated, court_ids, IsNumbered}
use plan_my_pickle_backend.Rotation.Move.{Teams, winner_of, loser_of, collect_teams, enter}

-- How often an id occurs in a team.
abbrev pub in_team : String → Team → ℕ
in_team a t = hit t.0 a + hit t.1 a

module _ (win : ℕ → String) where
  collect_teams-below :
      (cs : List RotCourt) (i k : ℕ) (m : Teams)
      → IsNumbered i cs
      → k ≤ i
      → ((collect_teams win cs m).winners k ≡ m.winners k)
        × ((collect_teams win cs m).losers k ≡ m.losers k)
  unfolding collect_teams
  collect_teams-below [] i k m v h = (refl, refl)
  collect_teams-below (c ∷ cs) i k m v h =
      let (w, l) = collect_teams-below cs (suc i) k (enter win c m) v.1 (omega arith) in
      (ground (arith, w), ground (arith, l))

  winner_of-count :
      (a : String) (c : RotCourt)
      → in_team a (winner_of win c) + in_team a (loser_of win c) ≡ count a (court_ids c)
  unfolding winner_of loser_of
  winner_of-count a c = ground arith

  -- The pairs that the maps hold for the first of the courts left.
  pub collect_teams-head :
      (c : RotCourt) (cs : List RotCourt) (i : ℕ) (m : Teams)
      → IsNumbered i (c ∷ cs)
      → ((collect_teams win (c ∷ cs) m).winners (suc i) ≡ winner_of win c)
        × ((collect_teams win (c ∷ cs) m).losers (suc i) ≡ loser_of win c)
  unfolding collect_teams
  collect_teams-head c cs i m v =
      let (w, l) = collect_teams-below cs (suc i) (suc i) (enter win c m) v.1 (omega arith) in
      (ground (arith, w), ground (arith, l))

  -- Winners and losers together are the seated players.
  pub collect_teams-count :
      (a : String) (cs : List RotCourt) (i : ℕ) (m : Teams)
      → IsNumbered i cs
      → sum_range (λ k. in_team a ((collect_teams win cs m).winners k)) (suc i) (length cs)
          + sum_range (λ k. in_team a ((collect_teams win cs m).losers k)) (suc i) (length cs)
        ≡ count a (seated cs)
  unfolding collect_teams
  collect_teams-count a [] i m v = rw (sum_range-zero, sum_range-zero)
  collect_teams-count a (c ∷ cs) i m v =
      let (w, l) = collect_teams-head c cs i m v in
      omega (
        arith,
        sum_range-suc (λ k. in_team a ((collect_teams win (c ∷ cs) m).winners k)) (suc i)
            (length cs),
        sum_range-suc (λ k. in_team a ((collect_teams win (c ∷ cs) m).losers k)) (suc i)
            (length cs),
        ap (in_team a) w,
        ap (in_team a) l,
        winner_of-count a c,
        collect_teams-count a cs (suc i) (enter win c m) v.1,
      )
