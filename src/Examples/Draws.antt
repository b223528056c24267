-- ===== src/Examples/Draws.antt =====
-- Brackets and schedules of concrete sizes.
use plan_my_pickle_backend.Base.{
  ◌≡◌, ◌≢◌, refl, ap, ◌⊎◌, ℕ, ◌+◌, ◌*◌, ◌^◌, ◌≤◌, ◌<◌, List, [], ◌∷◌, some, String, arith, pos,
  length, get_elem?, get_or, hit,
}
use plan_my_pickle_backend.Bracket.Seeds.{next_pow2, seed_order}
use plan_my_pickle_backend.Bracket.Seeds.Powers.{next_pow2_lem}
use plan_my_pickle_backend.Bracket.Seeds.Order.{IsSeeding, Opponents, seed_order-IsSeeding}
use plan_my_pickle_backend.Bracket.Generate.Step.{entry}
use plan_my_pickle_backend.Bracket.Generate.Drawn.{seeded, IsOpened}
use plan_my_pickle_backend.Bracket.Generate.Opening.{first, second, bracket_rounds-opening}
use plan_my_pickle_backend.Schedule.{MatchSpec, RoundSpec, RawMatch, place_courts}
use plan_my_pickle_backend.Schedule.Courts.{place_courts-at}
use plan_my_pickle_backend.Schedule.Circle.{singles_round_robin}
use plan_my_pickle_backend.Schedule.Circle.Laws.{Meets}
use plan_my_pickle_backend.Schedule.Circle.Once.{singles_round_robin-Meets}
use plan_my_pickle_backend.Schedule.Mixer.{doubles_rotating}
use plan_my_pickle_backend.Schedule.Mixer.Rounds.{IsMixed, doubles_rotating-IsMixed}
use plan_my_pickle_backend.Rotation.{layout_and_bench_ok, scan_ids, scan_courts}
use plan_my_pickle_backend.Examples.{roster_IsDistinct, roster_no_blank}

-- Six teams need a bracket of eight.
next_pow2_example : (k : ℕ) × (next_pow2 6 ≡ 2 ^ k) × (6 ≤ 2 ^ k) × (2 ^ k < 6 * 2)
next_pow2_example = next_pow2_lem 6 (omega arith)

abbrev three : ℕ
three = 3

seed_order_example :
    IsSeeding (2 ^ three) (seed_order (2 ^ three))
    × ((three ≡ 0) ⊎ Opponents (2 ^ three) (seed_order (2 ^ three)))
seed_order_example = seed_order-IsSeeding three

abbrev trio : List String
trio = "ana" ∷ "ben" ∷ "cy" ∷ []

ana_ne_cy : ◌≢◌ {A = String} "ana" "cy"
unfolding hit
ana_ne_cy e = omega (arith, ap (hit "ana") e)

-- Three players, so one of them sits out in each round.
trio-Meets_example :
    (r : ℕ) × (round : List RawMatch) × (get_elem? (singles_round_robin trio) r ≡ some round)
    × Meets "ana" "cy" round
    × ((q : ℕ) (other : List RawMatch)
        → get_elem? (singles_round_robin trio) q ≡ some other
        → Meets "ana" "cy" other
        → q ≡ r)
unfolding layout_and_bench_ok scan_ids scan_courts hit
trio-Meets_example =
    singles_round_robin-Meets trio "ana" "cy" (roster_IsDistinct trio refl)
      (roster_no_blank trio refl) (omega arith) (omega arith) ana_ne_cy

-- A round of two matches.
abbrev two_matches : List RawMatch
two_matches =
    record { t1 = "ana" ∷ []; t2 = "ben" ∷ [] } ∷ record { t1 = "cy" ∷ []; t2 = "dee" ∷ [] } ∷ []

abbrev second_match : RawMatch
second_match = record { t1 = "cy" ∷ []; t2 = "dee" ∷ [] }

-- On one court the second match waits for the second slot.
one_court_example :
    (spec : RoundSpec) × (x : MatchSpec) × (get_elem? (place_courts (two_matches ∷ []) 1) 0
      ≡ some spec)
    × (spec.round_number ≡ 0 + 1)
    × (get_elem? spec.matches 1 ≡ some x)
    × (x.team1 ≡ second_match.t1)
    × (x.team2 ≡ second_match.t2)
    × (1 ≤ x.court_number)
    × (x.court_number ≤ 1)
    × ((j : ℕ) (y : MatchSpec)
        → get_elem? spec.matches j ≡ some y
        → x.court_number ≡ y.court_number
        → x.slot ≡ y.slot
        → 1 ≡ j)
one_court_example =
    place_courts-at 1 (two_matches ∷ []) 0 1 {ms = two_matches} {m = second_match} (omega arith)
      refl refl

abbrev five : List String
five = "ana" ∷ "ben" ∷ "cy" ∷ "dee" ∷ "eli" ∷ []

-- Three rounds for five, the last of them.
mixer_example :
    (length (doubles_rotating five (pos 3)) ≡ 3)
    × (round : List RawMatch) × (get_elem? (doubles_rotating five (pos 3)) 2 ≡ some round)
    × IsMixed five round
mixer_example = doubles_rotating-IsMixed five 3 2 (omega arith)

-- Five sides in a bracket of eight: three byes.
abbrev five_sides : List (List String)
five_sides = ("ana" ∷ []) ∷ ("ben" ∷ []) ∷ ("cy" ∷ []) ∷ ("dee" ∷ []) ∷ ("eli" ∷ []) ∷ []

opening_example :
    let order = seed_order (next_pow2 (length five_sides)) in
    let a = seeded five_sides (get_or order (2 * 3) 0) in
    let b = seeded five_sides (get_or order (2 * 3 + 1) 0) in
    (first five_sides 3 ≡ entry (some a) (some b) 3 (first five_sides 3).resolved_winner)
    × IsOpened a b (first five_sides 3).resolved_winner
    × ((second five_sides 1).side1 ≡ (first five_sides (2 * 1)).resolved_winner)
    × ((second five_sides 1).side2 ≡ (first five_sides (2 * 1 + 1)).resolved_winner)
unfolding next_pow2
opening_example = bracket_rounds-opening five_sides 3 1 (omega arith) (omega arith) (omega arith)
