-- ===== src/Schedule.antt =====
-- internal/engine/schedule.go: round-robin scheduling. The types, the window of rounds, the fit to
-- it and the placement on courts; the circle method is in the child Circle.
pub mod Window
pub mod Courts
pub mod Circle
pub mod Mixer
use plan_my_pickle_backend.Base.{
  ℕ, zero, suc, ◌+◌, ◌-◌, ◌*◌, ◌/◌, ◌%◌, ◌&&◌, ◌||◌, not, List, [], ◌∷◌, String, ltb, ◌==◌,
  if◌then◌else◌, length, take, get_or, tabulate, ℤ, pos, pos_part, ltb_ℤ, eqb_ℤ,
}

-- One scheduled game; a side is 1 id (singles) or 2 (doubles).
pub record MatchSpec : Type 0 where
  pub team1 : List String
  pub team2 : List String
  pub court_number : ℕ
  pub slot : ℕ

pub record RoundSpec : Type 0 where
  pub round_number : ℕ
  pub matches : List MatchSpec

pub record RawMatch : Type 0 where
  pub t1 : List String
  pub t2 : List String

-- A natural round count clamped into the window [min, max], where 0 or less is unset.
pub bounded_target : ℤ → ℤ → ℤ → ℤ
bounded_target natural min_rounds max_rounds =
    let capped =
      if ltb_ℤ (pos 0) max_rounds && ltb_ℤ max_rounds natural then max_rounds else natural in
    let raised =
      if ltb_ℤ (pos 0) min_rounds && ltb_ℤ capped min_rounds then min_rounds else capped in
    if ltb_ℤ raised (pos 1) then pos 1 else raised

-- Truncated where there are too many rounds, cycled from the start where there are too few.
pub fit_rounds : List (List RawMatch) → ℤ → List (List RawMatch)
fit_rounds rr target =
    if not (ltb_ℤ (pos 0) target) || length rr == 0 || eqb_ℤ (pos (length rr)) target
    then rr
    else if ltb_ℤ target (pos (length rr))
    then take (pos_part target) rr
    else tabulate (λ i. get_or rr (i % length rr) []) 0 (pos_part target)

-- The match at index `i` of a round.
pub placed_match : ℕ → ℕ → RawMatch → MatchSpec
placed_match num_courts i m = record {
  team1 = m.t1;
  team2 = m.t2;
  slot = i / num_courts;
  court_number = i % num_courts + 1;
}

pub place_matches : ℕ → ℕ → List RawMatch → List MatchSpec
unfolding placed_match
place_matches num_courts i [] = []
place_matches num_courts i (m ∷ ms) =
    placed_match num_courts i m ∷ place_matches num_courts (suc i) ms

pub place_rounds : ℕ → ℕ → List (List RawMatch) → List RoundSpec
unfolding place_matches
place_rounds num_courts round_no [] = []
place_rounds num_courts round_no (raw ∷ rest) =
    let round_no' = round_no + 1 in
    (if length raw == 0
      then record { round_number = round_no'; matches = [] }
      else record { round_number = round_no'; matches = place_matches num_courts 0 raw })
    ∷ place_rounds num_courts round_no' rest

pub place_courts : List (List RawMatch) → ℕ → List RoundSpec
unfolding place_rounds
place_courts raw_rounds num_courts = place_rounds num_courts 0 raw_rounds

pub auto_pair : List String → List (List String)
auto_pair [] = []
auto_pair (a ∷ []) = []
auto_pair (a ∷ b ∷ players) = (a ∷ b ∷ []) ∷ auto_pair players
