-- ===== src/Examples/Courts.antt =====
-- A night on the courts: eight players and one more on the bench.
use plan_my_pickle_backend.Base.{
  ◌≡◌, refl, ◌↔◌, ℕ, ◌/◌, ◌≤◌, ◌<◌, true, false, List, [], ◌∷◌, ◌++◌, some, String, arith, pos,
  length, get_elem?, hit, count, weigh, SameIds,
}
use plan_my_pickle_backend.Rotation.{
  RotCourt, losers_down, RotResult, seated, court_ids, scan_ids, scan_courts, layout_and_bench_ok,
  IsLayout,
}
use plan_my_pickle_backend.Rotation.Layout.{layout_and_bench_ok-iff_IsLayout}
use plan_my_pickle_backend.Rotation.Seed.{capped}
use plan_my_pickle_backend.Rotation.Placed.{Seat, seed_placed_courts, ids}
use plan_my_pickle_backend.Rotation.Placed.Laws.{seed_placed_courts-IsLayout}
use plan_my_pickle_backend.Rotation.Placed.Honour.{seed_placed_courts-honours}
use plan_my_pickle_backend.Rotation.Move.{next_round}
use plan_my_pickle_backend.Rotation.Move.Conserve.{next_round-SameIds}
use plan_my_pickle_backend.Rotation.Fair.{next_round_fair}
use plan_my_pickle_backend.Rotation.Fair.Laws.{next_round_fair_refuses, next_round_fair-IsLayout}
use plan_my_pickle_backend.Examples.{roster_IsDistinct, roster_no_blank}

abbrev roster : List String
roster = "p1" ∷ "p2" ∷ "p3" ∷ "p4" ∷ "p5" ∷ "p6" ∷ "p7" ∷ "p8" ∷ "p9" ∷ []

abbrev pub court1 : RotCourt
court1 = record { court = 1; team_a = ("p1", "p3"); team_b = ("p2", "p4") }

abbrev pub court2 : RotCourt
court2 = record { court = 2; team_a = ("p5", "p7"); team_b = ("p6", "p8") }

abbrev pub courts : List RotCourt
courts = court1 ∷ court2 ∷ []

abbrev pub bench : List String
bench = "p9" ∷ []

-- Side b wins court 1, side a court 2.
abbrev pub results : List RotResult
results = record { court = 1; winner = "b" } ∷ record { court = 2; winner = "a" } ∷ []

-- Two courts with the same number.
abbrev clash : List RotCourt
clash = court1 ∷ court1 ∷ []

-- Games that each player has behind them.
abbrev pub played : String → ℕ
played x = hit "p9" x

pub courts-IsLayout : IsLayout courts bench
unfolding layout_and_bench_ok scan_courts scan_ids
courts-IsLayout = (layout_and_bench_ok-iff_IsLayout courts bench).0 refl

clash-not_IsLayout : ¬ IsLayout clash bench
unfolding layout_and_bench_ok scan_courts scan_ids
clash-not_IsLayout v =
    let e : false ≡ true = (layout_and_bench_ok-iff_IsLayout clash bench).1 v in cc

checked_example : (layout_and_bench_ok courts bench ≡ true) ↔ IsLayout courts bench
checked_example = layout_and_bench_ok-iff_IsLayout courts bench

abbrev before : List Seat
before = record { id = "p1"; court = pos 0 } ∷ record { id = "p2"; court = pos 1 } ∷ []

abbrev placed_seat : Seat
placed_seat = record { id = "p3"; court = pos 1 }

abbrev after : List Seat
after = record { id = "p4"; court = pos 9 } ∷ record { id = "p5"; court = pos 0 } ∷ []

abbrev seats : List Seat
seats = before ++ placed_seat ∷ after

placed_example :
    IsLayout (seed_placed_courts seats (pos 0)).courts (seed_placed_courts seats (pos 0)).bench
    × (length (seed_placed_courts seats (pos 0)).courts ≡ capped (length seats / 4) (pos 0))
    × SameIds
        (seated (seed_placed_courts seats (pos 0)).courts
          ++ (seed_placed_courts seats (pos 0)).bench)
        (ids seats)
unfolding layout_and_bench_ok scan_ids scan_courts
placed_example =
    seed_placed_courts-IsLayout seats (pos 0) (roster_no_blank (ids seats) refl)
      (roster_IsDistinct (ids seats) refl)

honoured_example :
    (d : RotCourt) × (get_elem? (seed_placed_courts seats (pos 0)).courts 0 ≡ some d)
    × (0 < count "p3" (court_ids d))
honoured_example =
    seed_placed_courts-honours before placed_seat after (pos 0) 0 refl (omega arith) (omega arith)

conserved_example :
    SameIds
      (seated (next_round courts results bench losers_down).courts
        ++ (next_round courts results bench losers_down).bench)
      (seated courts ++ bench)
conserved_example = next_round-SameIds courts results bench losers_down

fair_refused_example :
    next_round_fair played clash results bench losers_down
    ≡ record { courts = clash; bench = bench }
fair_refused_example =
    next_round_fair_refuses played clash results bench losers_down clash-not_IsLayout

fair_example :
    let fair = next_round_fair played courts results bench losers_down in
    IsLayout fair.courts fair.bench
    × SameIds (seated fair.courts ++ fair.bench) (seated courts ++ bench)
    × (weigh played (seated fair.courts)
        ≤ weigh played (seated (next_round courts results bench losers_down).courts))
fair_example = next_round_fair-IsLayout played courts results bench losers_down courts-IsLayout
