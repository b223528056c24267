-- ===== src/Rotation/Move/Shift.antt =====
-- Which pairs the next courts take, court by court.
use plan_my_pickle_backend.Base.{
  ℕ, zero, suc, ◌+◌, ◌-◌, ◌<◌, ◌≡◌, refl, ◌⊎◌, inl, inr, List, [], ◌∷◌, some, String, arith, length,
  get_elem?, get_elem?-tabulate,
}
use plan_my_pickle_backend.Rotation.{
  Team, RotCourt, LoserMode, losers_down, losers_stay, RotResult, IsNumbered, IsLayout,
}
use plan_my_pickle_backend.Rotation.Move.{
  Teams, winner_of, loser_of, enter, collect_teams, win_map, bye_swap, from_above, from_below,
  next_court, teams_of, next_round, no_teams,
}
use plan_my_pickle_backend.Rotation.Move.Maps.{collect_teams-head}
use plan_my_pickle_backend.Rotation.Move.Conserve.{next_round_moves}

-- The two players of a pair stand on opposite sides of a court.
abbrev pub Splits : Team → RotCourt → Type 0
Splits t d = ((d.team_a.0 ≡ t.0) × (d.team_b.0 ≡ t.1)) ⊎ ((d.team_a.1 ≡ t.0) × (d.team_b.1 ≡ t.1))

-- The results of a round, as a map.
abbrev pub reported : List RotResult → ℕ → String
reported results = win_map results (λ _. "")

module _ (win : ℕ → String) where
  collect_teams-at :
      (cs : List RotCourt) (i j : ℕ) (m : Teams) {c : RotCourt}
      → IsNumbered i cs
      → get_elem? cs j ≡ some c
      → ((collect_teams win cs m).winners (suc (i + j)) ≡ winner_of win c)
        × ((collect_teams win cs m).losers (suc (i + j)) ≡ loser_of win c)
  unfolding collect_teams
  collect_teams-at [] i j m v h = cc
  collect_teams-at (d ∷ cs) i zero m v h =
      let e : i + 0 ≡ i = omega arith in
      let (w, l) = collect_teams-head win d cs i m v in ground (arith, w, l, e)
  collect_teams-at (d ∷ cs) i (suc j) m v h =
      let e : i + suc j ≡ suc i + j = omega arith in
      ground (arith, collect_teams-at cs (suc i) j (enter win d m) v.1 h, e)

-- The stayers at the bottom.
abbrev pub stayers : List RotCourt → List RotResult → List String → Team
stayers courts results bench =
    (bye_swap ((teams_of courts results).losers (length courts)) bench).bottom_stay

pub next_round-at :
    (courts : List RotCourt) (results : List RotResult) (bench : List String) (mode : LoserMode)
    (k : ℕ)
    → IsLayout courts bench
    → k < length courts
    → get_elem? (next_round courts results bench mode).courts k
      ≡ some (
          next_court mode
            (length courts)
            (teams_of courts results)
            (stayers courts results bench)
            (1 + k))
next_round-at [] results bench mode k v h = absurd (omega arith)
next_round-at (c ∷ cs) results bench mode k v h = rw (next_round_moves c cs results bench mode v) (
    get_elem?-tabulate
      (next_court mode (suc (length cs)) (teams_of (c ∷ cs) results)
        (stayers (c ∷ cs) results bench))
      1 (suc (length cs)) k h)

pub teams_of-at :
    (courts : List RotCourt) (results : List RotResult) (i : ℕ) {c : RotCourt}
    → IsNumbered 0 courts
    → get_elem? courts i ≡ some c
    → ((teams_of courts results).winners (suc i) ≡ winner_of (reported results) c)
      × ((teams_of courts results).losers (suc i) ≡ loser_of (reported results) c)
unfolding teams_of
teams_of-at courts results i v h =
    let e : 0 + i ≡ i = omega arith in
    ground (arith, collect_teams-at (reported results) courts 0 i no_teams v h, e)

-- A pair that arrives from above is split, and so is one from below.
pub above-Splits :
    (mode : LoserMode) (n : ℕ) (t : Teams) (stay : Team) (k : ℕ)
    → Splits (from_above mode n t k) (next_court mode n t stay k)
unfolding next_court
above-Splits mode n t stay k = inr (refl, refl)

pub below-Splits :
    (mode : LoserMode) (n : ℕ) (t : Teams) (stay : Team) (k : ℕ)
    → Splits (from_below mode n t stay k) (next_court mode n t stay k)
unfolding next_court
below-Splits mode n t stay k = inl (refl, refl)

module _ (n : ℕ) (t : Teams) (stay : Team) where
  pub above_top : (mode : LoserMode) → from_above mode n t (1 + 0) ≡ t.winners 1
  unfolding from_above
  above_top losers_down = refl
  above_top losers_stay = ground arith

  pub below_mid :
      (mode : LoserMode) (i : ℕ)
      → suc i < n
      → from_below mode n t stay (1 + i) ≡ t.winners (suc (suc i))
  unfolding from_below
  below_mid losers_down i h = let e : 1 + i + 1 ≡ suc (suc i) = omega arith in ground (arith, e)
  below_mid losers_stay i h = let e : 1 + i + 1 ≡ suc (suc i) = omega arith in ground (arith, e)

  pub below_bottom :
      (mode : LoserMode) (i : ℕ) → suc i ≡ n → from_below mode n t stay (1 + i) ≡ stay
  unfolding from_below
  below_bottom losers_down i h = ground arith
  below_bottom losers_stay i h = ground arith

  pub above_down : (i : ℕ) → from_above losers_down n t (1 + suc i) ≡ t.losers (suc i)
  unfolding from_above
  above_down i = let e : 1 + suc i - 1 ≡ suc i = omega arith in ground (arith, e)

  pub above_stay_mid :
      (i : ℕ) → suc (suc i) < n → from_above losers_stay n t (1 + suc i) ≡ t.losers (suc (suc i))
  unfolding from_above
  above_stay_mid i h = let e : 1 + suc i ≡ suc (suc i) = omega arith in ground (arith, e)

  pub above_stay_bottom :
      (i : ℕ) → suc (suc i) ≡ n → from_above losers_stay n t (1 + suc i) ≡ t.losers 1
  unfolding from_above
  above_stay_bottom i h = ground arith

-- The court at index `k` of the round after splits the pair `t`.
abbrev pub Lands : List RotCourt → ℕ → Team → Type 0
Lands next k t = (d : RotCourt) × (get_elem? next k ≡ some d) × Splits t d
