-- ===== src/Examples/DoubleDraws.antt =====
-- A double elimination among five.
use plan_my_pickle_backend.Base.{◌↔◌, ◌≤◌, ◌<◌, List, [], ◌∷◌, String}
use plan_my_pickle_backend.Bracket.Generate.{generate_bracket}
use plan_my_pickle_backend.Consolation.Rounds.{times}
use plan_my_pickle_backend.DoubleElim.{losers_rounds, generate_double_elim}
use plan_my_pickle_backend.DoubleElim.Wires.{winners_part}
use plan_my_pickle_backend.DoubleElim.Winners.{AreDrawn, generate_double_elim-AreDrawn}
use plan_my_pickle_backend.DoubleElim.LbRounds.{generate_double_elim-rounds}

abbrev five : List (List String)
five = ("p1" ∷ []) ∷ ("p2" ∷ []) ∷ ("p3" ∷ []) ∷ ("p4" ∷ []) ∷ ("p5" ∷ []) ∷ []

winners_tier_example :
    AreDrawn (generate_bracket five).matches (winners_part (generate_double_elim five).matches)
winners_tier_example = generate_double_elim-AreDrawn five

losers_rounds_example :
    (0 < times 3 (losers_rounds (generate_double_elim five).matches))
    ↔ ((0 < 3) × (3 ≤ (generate_double_elim five).lb_rounds))
losers_rounds_example = generate_double_elim-rounds five 3
