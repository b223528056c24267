-- ===== src/Rotation/Move/Conserve.antt =====
-- `NextRound` neither loses nor doubles a player, and keeps the layout safe.
use plan_my_pickle_backend.Base.{
  ℕ, zero, suc, ◌≡◌, refl, ◌∙◌, List, [], ◌∷◌, ◌++◌, String, arith, length, tabulate,
  length-tabulate, length-append, count-append, SameIds, Bool-cases, inl, inr,
}
use plan_my_pickle_backend.Rotation.{
  Team, RotCourt, LoserMode, RotResult, seated, layout_and_bench_ok, IsNumbered, IsLayout,
}
use plan_my_pickle_backend.Rotation.Layout.{layout_and_bench_ok-iff_IsLayout}
use plan_my_pickle_backend.Rotation.Move.{
  Teams, win_map, bye_swap, next_court, teams_of, next_round, team_ids, no_teams,
}
use plan_my_pickle_backend.Rotation.Move.Maps.{collect_teams-count}
use plan_my_pickle_backend.Rotation.Move.Moved.{bye_swap-count, moved-count}

-- The round that a safe layout of at least one court moves to.
pub next_round_moves :
    (c : RotCourt) (cs : List RotCourt) (results : List RotResult) (bench : List String)
    (mode : LoserMode)
    → IsLayout (c ∷ cs) bench
    → let t = teams_of (c ∷ cs) results in
      let n = suc (length cs) in
      let bye = bye_swap (t.losers n) bench in
      next_round (c ∷ cs) results bench mode ≡ record {
        courts = tabulate (next_court mode n t bye.bottom_stay) 1 n;
        bench = bye.next_bench;
      }
unfolding next_round
next_round_moves c cs results bench mode v =
    ground (arith, (layout_and_bench_ok-iff_IsLayout (c ∷ cs) bench).1 v)

-- A layout that is not safe to move is handed back unchanged.
pub next_round_refuses :
    (courts : List RotCourt) (results : List RotResult) (bench : List String) (mode : LoserMode)
    → ¬ IsLayout courts bench
    → next_round courts results bench mode ≡ record { courts = courts; bench = bench }
unfolding next_round
next_round_refuses courts results bench mode h =
    elim (Bool-cases (layout_and_bench_ok courts bench)) [
      | inl ok ↦ absurd (h ((layout_and_bench_ok-iff_IsLayout courts bench).0 ok))
      | inr bad ↦ rw bad
    ]

next_round_moved :
    (c : RotCourt) (cs : List RotCourt) (results : List RotResult) (bench : List String)
    (mode : LoserMode)
    → IsLayout (c ∷ cs) bench
    → SameIds
        (seated (next_round (c ∷ cs) results bench mode).courts
          ++ (next_round (c ∷ cs) results bench mode).bench)
        (seated (c ∷ cs) ++ bench)
unfolding teams_of
next_round_moved c cs results bench mode v a =
    let t = teams_of (c ∷ cs) results in
    let n = suc (length cs) in
    let bye = bye_swap (t.losers n) bench in
    rw (next_round_moves c cs results bench mode v) (
      omega (
        arith,
        count-append a (seated (tabulate (next_court mode n t bye.bottom_stay) 1 n)) bye.next_bench,
        count-append a (seated (c ∷ cs)) bench,
        moved-count a t mode (length cs) bye.bottom_stay,
        bye_swap-count a (t.losers n) bench,
        collect_teams-count (win_map results (λ _. "")) a (c ∷ cs) 0 no_teams v.numbered,
      ))

-- The players on the courts and on the bench after a round are those before it, each as often,
-- whatever the results and the mode.
pub next_round-SameIds :
    (courts : List RotCourt) (results : List RotResult) (bench : List String) (mode : LoserMode)
    → SameIds
        (seated (next_round courts results bench mode).courts
          ++ (next_round courts results bench mode).bench)
        (seated courts ++ bench)
unfolding next_round
next_round-SameIds [] results bench mode a = ground arith
next_round-SameIds (c ∷ cs) results bench mode a =
    elim (Bool-cases (layout_and_bench_ok (c ∷ cs) bench)) [
      | inl ok ↦
          next_round_moved c cs results bench mode
            ((layout_and_bench_ok-iff_IsLayout (c ∷ cs) bench).0 ok) a
      | inr bad ↦ rw bad
    ]

tabulate-IsNumbered :
    (mode : LoserMode) (n : ℕ) (t : Teams) (stay : Team) (i m : ℕ)
    → IsNumbered i (tabulate (next_court mode n t stay) (suc i) m)
unfolding next_court
tabulate-IsNumbered mode n t stay i zero = tt
tabulate-IsNumbered mode n t stay i (suc m) = (refl, tabulate-IsNumbered mode n t stay (suc i) m)

next_round-IsNumbered :
    (courts : List RotCourt) (results : List RotResult) (bench : List String) (mode : LoserMode)
    → IsLayout courts bench
    → IsNumbered 0 (next_round courts results bench mode).courts
unfolding next_round
next_round-IsNumbered [] results bench mode v = ground arith
next_round-IsNumbered (c ∷ cs) results bench mode v =
    rw (next_round_moves c cs results bench mode v)
      (tabulate-IsNumbered _ _ _ _ 0 (suc (length cs)))

length-bye_swap :
    (l : Team) (bench : List String) → length (bye_swap l bench).next_bench ≡ length bench
unfolding bye_swap
length-bye_swap l [] = ground arith
length-bye_swap l (x ∷ []) = ground arith
length-bye_swap l (x ∷ y ∷ bench) = ground (arith, length-append bench (team_ids l))

next_round-length :
    (courts : List RotCourt) (results : List RotResult) (bench : List String) (mode : LoserMode)
    → length (next_round courts results bench mode).courts ≡ length courts
unfolding next_round
next_round-length courts results bench mode = ground (
  arith,
  length-tabulate
      (next_court mode (length courts) (teams_of courts results)
        (bye_swap ((teams_of courts results).losers (length courts)) bench).bottom_stay)
      1 (length courts),
)

next_round-length_bench :
    (courts : List RotCourt) (results : List RotResult) (bench : List String) (mode : LoserMode)
    → length (next_round courts results bench mode).bench ≡ length bench
unfolding next_round
next_round-length_bench courts results bench mode =
    ground (arith, length-bye_swap ((teams_of courts results).losers (length courts)) bench)

-- A safe layout moves to a safe layout: courts 1..n with four seats each, no blank id, nobody in
-- two places, on a court or on the bench. The number of courts and the number of players on the
-- bench stay as they were.
pub next_round-IsLayout :
    (courts : List RotCourt) (results : List RotResult) (bench : List String) (mode : LoserMode)
    → IsLayout courts bench
    → IsLayout
        (next_round courts results bench mode).courts
        (next_round courts results bench mode).bench
      × (length (next_round courts results bench mode).courts ≡ length courts)
      × (length (next_round courts results bench mode).bench ≡ length bench)
next_round-IsLayout courts results bench mode v = (
  record {
    numbered = next_round-IsNumbered courts results bench mode v;
    no_blank = next_round-SameIds courts results bench mode "" ∙ v.no_blank;
    distinct = λ a. omega (arith, next_round-SameIds courts results bench mode a, v.distinct a);
  },
  next_round-length courts results bench mode,
  next_round-length_bench courts results bench mode,
)
