-- ===== src/Rotation/Move/Climb.antt =====
-- Where `NextRound` sends the winners and the losers of each court, and that it parts partners.
use plan_my_pickle_backend.Base.{
  ℕ, zero, suc, ◌+◌, ◌-◌, ◌<◌, ◌≡◌, ◌∙◌, List, some, String, arith, length, length_of_get,
  get_elem?, subst, ◌==◌, if◌then◌else◌,
}
use plan_my_pickle_backend.Rotation.{
  Team, RotCourt, LoserMode, losers_down, losers_stay, RotResult, IsLayout,
}
use plan_my_pickle_backend.Rotation.Move.{
  winner_of, from_above, from_below, next_court, teams_of, next_round,
}
use plan_my_pickle_backend.Rotation.Move.Shift.{
  Splits, reported, stayers, next_round-at, teams_of-at, above-Splits, below-Splits, above_top,
  below_mid, Lands,
}

module _ (courts : List RotCourt) (results : List RotResult) (bench : List String)
    (mode : LoserMode) where
  -- Lands from above, and from below, by an equation for the pair.
  Lands-above :
      (k : ℕ) {p : Team}
      → IsLayout courts bench
      → k < length courts
      → from_above mode (length courts) (teams_of courts results) (1 + k) ≡ p
      → Lands (next_round courts results bench mode).courts k p
  Lands-above k v h e =
      let d =
        next_court mode (length courts) (teams_of courts results) (stayers courts results bench)
          (1 + k) in
      (
        d,
        next_round-at courts results bench mode k v h,
        subst (λ q. Splits q d) e
            (above-Splits mode (length courts) (teams_of courts results)
              (stayers courts results bench) (1 + k)),
      )

  Lands-below :
      (k : ℕ) {p : Team}
      → IsLayout courts bench
      → k < length courts
      → from_below mode
          (length courts)
          (teams_of courts results)
          (stayers courts results bench)
          (1 + k)
        ≡ p
      → Lands (next_round courts results bench mode).courts k p
  Lands-below k v h e =
      let d =
        next_court mode (length courts) (teams_of courts results) (stayers courts results bench)
          (1 + k) in
      (
        d,
        next_round-at courts results bench mode k v h,
        subst (λ q. Splits q d) e
            (below-Splits mode (length courts) (teams_of courts results)
              (stayers courts results bench) (1 + k)),
      )

pub next_round-winners :
    (courts : List RotCourt) (results : List RotResult) (bench : List String) (mode : LoserMode)
    → IsLayout courts bench
    → (i : ℕ) {c : RotCourt} → get_elem? courts i ≡ some c
    → Lands (next_round courts results bench mode).courts (i - 1) (winner_of (reported results) c)
next_round-winners courts results bench mode v zero h =
    Lands-above courts results bench mode 0 v (length_of_get courts 0 h) (
      above_top (length courts) (teams_of courts results) (stayers courts results bench) mode
      ∙ (teams_of-at courts results 0 v.numbered h).0)
next_round-winners courts results bench mode v (suc i) h =
    let e : suc i - 1 ≡ i = omega arith in
    rw e (
      Lands-below courts results bench mode i v (omega (arith, length_of_get courts (suc i) h)) (
        below_mid (length courts) (teams_of courts results) (stayers courts results bench) mode i
          (length_of_get courts (suc i) h)
        ∙ (teams_of-at courts results (suc i) v.numbered h).0))

-- Where the losers of the court at an index go among `n` courts: in the river one court down, but
-- for those of the bottom court; else they hold their court, but those of the top fall to the bottom.
pub losers_go : LoserMode → ℕ → ℕ → ℕ
losers_go losers_down n i = if suc i == n then i else suc i
losers_go losers_stay n zero = n - 1
losers_go losers_stay n (suc i) = suc i
