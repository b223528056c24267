-- ===== src/Examples/Divisions.antt =====
-- A flex division of three teams with one matchup.
use plan_my_pickle_backend.Base.{◌≡◌, refl, true, List, [], ◌∷◌, ◌++◌, some, String}
use plan_my_pickle_backend.Flex.{
  FlexMatchup, pair_key, pairs_with, pairs_among, flex_pairings_to_create, insert_rows,
  generate_flex_schedule,
}
use plan_my_pickle_backend.Flex.Idempotent.{generate_flex_schedule-again}

abbrev teams : List String
teams = "t1" ∷ "t2" ∷ "t3" ∷ []

abbrev existing : List FlexMatchup
existing = record { team_a_id = "t2"; team_b_id = "t1" } ∷ []

abbrev rows : List FlexMatchup
rows =
    record { team_a_id = "t1"; team_b_id = "t3" }
    ∷ record { team_a_id = "t2"; team_b_id = "t3" }
    ∷ []

again_example : generate_flex_schedule (some teams) (some (existing ++ rows)) true ≡ some []
unfolding generate_flex_schedule flex_pairings_to_create pairs_among pairs_with pair_key insert_rows
again_example =
    generate_flex_schedule-again teams existing rows (existing ++ rows) true refl (λ k. refl)
