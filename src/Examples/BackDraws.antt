-- ===== src/Examples/BackDraws.antt =====
-- The back draw of a bracket of eight, whose first main match is a bye.
use plan_my_pickle_backend.Base.{
  ◌≡◌, ◌↔◌, ◌≤◌, ◌<◌, ℕ, suc, Bool, not, ◌&&◌, some, ◌==◌, ltb, if◌then◌else◌, length, total, arith,
}
use plan_my_pickle_backend.Consolation.{generate_consolation, match_rounds}
use plan_my_pickle_backend.Consolation.Meet.{drop_of}
use plan_my_pickle_backend.Consolation.Drops.{generate_consolation-drops}
use plan_my_pickle_backend.Consolation.Rounds.{times, generate_consolation-rounds}
use plan_my_pickle_backend.Compass.{ConsTree, build_consolation_tree}
use plan_my_pickle_backend.Compass.Steps.{plan_of}
use plan_my_pickle_backend.Compass.Mirror.{build_consolation_tree-mirrors}

abbrev first_bye : ℕ → Bool
first_bye i = i == 0

dropped_example :
    (suc (length (generate_consolation 8 first_bye).matches) ≡ 3)
    × ((s : ℕ)
        → total (drop_of s) (generate_consolation 8 first_bye).drops
          ≡ (if ltb s 4 && not (first_bye s) then 1 else 0))
dropped_example = generate_consolation-drops 2 first_bye (omega arith)

rounds_example :
    (0 < times 2 (match_rounds (generate_consolation 8 first_bye).matches))
    ↔ ((0 < 2) × (2 ≤ (generate_consolation 8 first_bye).rounds))
rounds_example = generate_consolation-rounds 8 first_bye 2

mirrored_example :
    (t : ConsTree) × (build_consolation_tree 4 first_bye ≡ some t)
    × (generate_consolation 8 first_bye ≡ plan_of t)
mirrored_example = build_consolation_tree-mirrors 2 first_bye (omega arith)
