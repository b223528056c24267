-- ===== src/Examples/Arranged.antt =====
-- Two divisions, one of them on court 1, the other on any; Ana plays in both.
use plan_my_pickle_backend.Base.{
  ℕ, ◌≡◌, refl, inl, inr, true, false, some, List, [], ◌∷◌, String, str_eq, if◌then◌else◌,
  Bool-cases, All, ids_by, arith,
}
use plan_my_pickle_backend.Examples.{roster_IsDistinct}
use plan_my_pickle_backend.Rotation.{layout_and_bench_ok}
use plan_my_pickle_backend.Arrange.{Agenda, Board, arrange_placements}
use plan_my_pickle_backend.Arrange.Keyed.{Placement, Pairwise, IsSetOf}
use plan_my_pickle_backend.Arrange.Apart.{IsSpread, arrange_placements-IsSpread}
use plan_my_pickle_backend.Arrange.Own.{IsOwn, arrange_placements-IsOwn}
use plan_my_pickle_backend.Arrange.Ready.{HasRounds}
use plan_my_pickle_backend.Arrange.Complete.{arrange_placements-IsSetOf}
use plan_my_pickle_backend.Arrange.Rounds.{IsClear, ids_on}
use plan_my_pickle_backend.Arrange.InTurn.{arrange_placements_in_turn}

abbrev rounds_at : String → List (List String)
rounds_at d =
    if str_eq d "open"
    then ("m1" ∷ "m2" ∷ []) ∷ ("m3" ∷ []) ∷ []
    else if str_eq d "novice"
    then ("n1" ∷ []) ∷ []
    else []

abbrev players_at : String → List String
players_at m =
    if str_eq m "m1"
    then "Ana" ∷ "Ben" ∷ []
    else if str_eq m "m2"
    then "Cai" ∷ "Dee" ∷ []
    else if str_eq m "m3"
    then "Ana" ∷ "Cai" ∷ []
    else if str_eq m "n1"
    then "Ana" ∷ "Eve" ∷ []
    else []

abbrev agenda : Agenda
agenda = record {
  div_order = "open" ∷ "novice" ∷ [];
  div_rounds = rounds_at;
  div_courts = λ d. if str_eq d "open" then 1 ∷ [] else [];
  court_nums = 1 ∷ 2 ∷ [];
  match_players = players_at;
  total_matches = 4;
  min_rest_slots = 1;
}

abbrev on : String → ℕ → ℕ → Placement
on m c s = (m, record { court = c; slot = s })

agenda-HasRounds : HasRounds agenda
agenda-HasRounds d = elim (Bool-cases (str_eq d "open")) [
  | inl a ↦ rw a (omega arith, (omega arith, tt))
  | inr b ↦ elim (Bool-cases (str_eq d "novice")) [
    | inl c ↦ rw (b, c) (omega arith, tt)
    | inr e ↦ rw (b, e) tt
  ]
]

rested_example : IsSpread agenda (on "m3" 1 4 ∷ on "n1" 1 2 ∷ on "m2" 1 1 ∷ on "m1" 1 0 ∷ [])
unfolding arrange_placements
rested_example = arrange_placements-IsSpread agenda refl

division_courts_example :
    All (IsOwn agenda) (on "m3" 1 4 ∷ on "n1" 1 2 ∷ on "m2" 1 1 ∷ on "m1" 1 0 ∷ [])
unfolding arrange_placements
division_courts_example = arrange_placements-IsOwn agenda refl

every_match_example :
    (b : Board) × (arrange_placements agenda true ≡ some b)
    × IsSetOf (ids_by (λ p. p.0) b.placements) ("m1" ∷ "m2" ∷ "m3" ∷ "n1" ∷ [])
    × (b.scheduled ≡ 4)
unfolding layout_and_bench_ok
every_match_example =
    arrange_placements-IsSetOf agenda (roster_IsDistinct ("open" ∷ "novice" ∷ []) refl)
      agenda-HasRounds (omega arith, (omega arith, tt)) refl

in_turn_example :
    (b : Board) × (arrange_placements agenda false ≡ some b)
    × IsSetOf (ids_on b) ("m1" ∷ "m2" ∷ "m3" ∷ "n1" ∷ [])
    × (b.scheduled ≡ 4)
    × Pairwise IsClear b.placements
in_turn_example =
    arrange_placements_in_turn agenda
      (((refl, tt), omega arith), (((refl, (refl, tt)), omega arith), tt))
