-- ===== src/Rotation/Fair/Pass.antt =====
-- The fairness pass over a round that may be touched.
use plan_my_pickle_backend.Base.{
  ℕ, ◌+◌, ◌≤◌, ◌≡◌, refl, true, false, inl, inr, List, [], ◌∷◌, ◌++◌, String, arith, Bool-cases,
  hit-cases, count, count-append, contains, contains-count, not_contains-count, weigh, SameIds,
  length, ◌==◌,
}
use plan_my_pickle_backend.Rotation.{seated, IsNumbered, IsLayout}
use plan_my_pickle_backend.Rotation.Move.{Round, min2}
use plan_my_pickle_backend.Rotation.Fair.{
  seat_refs, Swapped, swap_loop, busier, rested, waiting_still, fair_pass,
}
use plan_my_pickle_backend.Base.{ids_by_self, sort_stable, sort_stable-count, sort_stable-All}
use plan_my_pickle_backend.Rotation.Fair.Seats.{Sits, seat_refs-count}
use plan_my_pickle_backend.Rotation.Fair.Swap.{
  Traded, seat_refs-Sits, swap_loop-Traded, swap_loop-IsNumbered,
}

module _ (on : List String) (a : String) where
  waiting_still-came :
      (bench : List String) → contains on a ≡ true → count a (waiting_still on bench) ≡ 0
  unfolding waiting_still
  waiting_still-came [] h = refl
  waiting_still-came (x ∷ bench) h = ground (arith, hit-cases x a, waiting_still-came bench h)

  waiting_still-stays :
      (bench : List String)
      → contains on a ≡ false
      → count a (waiting_still on bench) ≡ count a bench
  unfolding waiting_still
  waiting_still-stays [] h = refl
  waiting_still-stays (x ∷ bench) h = ground (arith, hit-cases x a, waiting_still-stays bench h)

  -- Whoever came on is taken out of the bench.
  waiting_still-count :
      (bench : List String)
      → count a on ≤ count a bench
      → count a bench ≤ 1
      → count a (waiting_still on bench) + count a on ≡ count a bench
  waiting_still-count bench some_of once = elim (Bool-cases (contains on a)) [
    | inl came ↦ omega (arith, waiting_still-came bench came, contains-count on a came)
    | inr stays ↦ omega (arith, waiting_still-stays bench stays, not_contains-count on a stays)
  ]

module _ (played : String → ℕ) (next : Round) (v : IsLayout next.courts next.bench) where
  abbrev start : Swapped
  start = record { courts = next.courts; took_off = []; came_on = [] }

  abbrev done : Swapped
  done =
      swap_loop played (min2 (length next.bench))
        (sort_stable (busier played) (seat_refs 0 next.courts))
        (sort_stable (rested played) next.bench) start

  traded : Traded played next.courts (sort_stable (rested played) next.bench) [] [] done
  traded =
      swap_loop-Traded played (min2 (length next.bench))
        (sort_stable (busier played) (seat_refs 0 next.courts))
        (sort_stable (rested played) next.bench) start
        (sort_stable-All (busier played) (Sits next.courts) (seat_refs 0 next.courts)
          (seat_refs-Sits next.courts))
        (λ a. omega (
          arith,
          sort_stable-count (busier played) (λ s. s.id) a (seat_refs 0 next.courts),
          seat_refs-count a 0 next.courts,
          count-append a (seated next.courts) next.bench,
          v.distinct a,
        ))

  done-SameIds :
      SameIds
        (seated done.courts ++ (waiting_still done.came_on next.bench ++ done.took_off))
        (seated next.courts ++ next.bench)
  done-SameIds a =
      let once : count a next.bench ≤ 1 =
        omega (arith, v.distinct a, count-append a (seated next.courts) next.bench) in
      let some_of : count a done.came_on ≤ count a next.bench = omega (
        arith,
        traded.from_bench a,
        sort_stable-count (rested played) (λ x. x) a next.bench,
        ids_by_self a next.bench,
        ids_by_self a (sort_stable (rested played) next.bench),
      ) in
      omega (
        arith,
        traded.exchanged a,
        waiting_still-count done.came_on a next.bench some_of once,
        count-append a (seated done.courts)
            (waiting_still done.came_on next.bench ++ done.took_off),
        count-append a (waiting_still done.came_on next.bench) done.took_off,
        count-append a (seated next.courts) next.bench,
      )

  pub fair_pass-SameIds :
      SameIds
        (seated (fair_pass played next).courts ++ (fair_pass played next).bench)
        (seated next.courts ++ next.bench)
  unfolding fair_pass
  fair_pass-SameIds a = elim (Bool-cases (length done.took_off == 0)) [
    | inl same ↦ rw same
    | inr moved ↦ rw moved (done-SameIds a)
  ]

  pub fair_pass-IsNumbered : IsNumbered 0 (fair_pass played next).courts
  unfolding fair_pass
  fair_pass-IsNumbered = elim (Bool-cases (length done.took_off == 0)) [
    | inl same ↦ rw same v.numbered
    | inr moved ↦ rw moved (
        swap_loop-IsNumbered played (min2 (length next.bench))
          (sort_stable (busier played) (seat_refs 0 next.courts))
          (sort_stable (rested played) next.bench) start v.numbered)
  ]

  pub fair_pass-lighter :
      weigh played (seated (fair_pass played next).courts) ≤ weigh played (seated next.courts)
  unfolding fair_pass
  fair_pass-lighter = elim (Bool-cases (length done.took_off == 0)) [
    | inl same ↦ rw same (omega arith)
    | inr moved ↦ rw moved (omega (arith, traded.lighter))
  ]
