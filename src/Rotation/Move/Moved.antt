-- ===== src/Rotation/Move/Moved.antt =====
-- Who stands on the courts of the next round: the winners and losers of this one, shifted.
use plan_my_pickle_backend.Base.{
  ℕ, zero, suc, ◌+◌, ◌≡◌, refl, ap, List, [], ◌∷◌, String, arith, tabulate, count, count-append,
  sum_range, sum_range-suc, sum_range-zero, sum_range_ext, sum_range-shift, sum_range-last,
}
use plan_my_pickle_backend.Rotation.{Team, LoserMode, losers_down, losers_stay, seated}
use plan_my_pickle_backend.Rotation.Move.{
  Teams, bye_swap, from_above, from_below, next_court, team_ids,
}
use plan_my_pickle_backend.Rotation.Move.Maps.{in_team}

pub bye_swap-count :
    (a : String) (l : Team) (bench : List String)
    → count a (bye_swap l bench).next_bench + in_team a (bye_swap l bench).bottom_stay
      ≡ count a bench + in_team a l
unfolding bye_swap
bye_swap-count a l [] = ground arith
bye_swap-count a l (x ∷ []) = ground (arith, count-append a [] (l.0 ∷ []))
bye_swap-count a l (x ∷ y ∷ bench) = ground (arith, count-append a bench (team_ids l))

module _ (a : String) (t : Teams) where
  -- How often the id occurs in a court's winners, in its losers.
  abbrev pub of_winners : ℕ → ℕ
  of_winners k = in_team a (t.winners k)

  abbrev pub of_losers : ℕ → ℕ
  of_losers k = in_team a (t.losers k)

  next_courts-count :
      (mode : LoserMode) (n : ℕ) (stay : Team) (k m : ℕ)
      → count a (seated (tabulate (next_court mode n t stay) k m))
        ≡ sum_range (λ i. in_team a (from_below mode n t stay i)) k m
          + sum_range (λ i. in_team a (from_above mode n t i)) k m
  unfolding next_court
  next_courts-count mode n stay k zero = rw (sum_range-zero, sum_range-zero)
  next_courts-count mode n stay k (suc m) = omega (
    arith,
    sum_range-suc (λ i. in_team a (from_below mode n t stay i)) k m,
    sum_range-suc (λ i. in_team a (from_above mode n t i)) k m,
    next_courts-count mode n stay (suc k) m,
  )

  -- In the river, court 1 keeps its winners and every other court takes the losers from above.
  from_above_down :
      (n m : ℕ)
      → sum_range (λ k. in_team a (from_above losers_down n t k)) 1 (suc m)
        ≡ of_winners 1 + sum_range of_losers 1 m
  unfolding from_above
  from_above_down n m = omega (
    arith,
    sum_range-suc (λ k. in_team a (from_above losers_down n t k)) 1 m,
    sum_range-shift (λ k. in_team a (from_above losers_down n t k)) 1 m,
    sum_range_ext (λ k. in_team a (from_above losers_down n t (suc k))) of_losers 1 m
        (λ i lo hi. ground arith),
  )

  from_above_stay :
      (m : ℕ)
      → sum_range (λ k. in_team a (from_above losers_stay (suc (suc m)) t k)) 1 (suc (suc m))
        ≡ of_winners 1 + sum_range of_losers 1 (suc m)
  unfolding from_above
  from_above_stay m =
      let f = λ (k : ℕ). in_team a (from_above losers_stay (suc (suc m)) t k) in
      let first : f 1 ≡ of_winners 1 = ground arith in
      let last : f (2 + m) ≡ of_losers 1 = ground arith in
      omega (
        arith,
        first,
        last,
        sum_range-suc f 1 (suc m),
        sum_range-last f 2 m,
        sum_range_ext f of_losers 2 m (λ i lo hi. ground arith),
        sum_range-suc of_losers 1 m,
      )

  from_below_down :
      (m : ℕ) (stay : Team)
      → sum_range (λ k. in_team a (from_below losers_down (suc m) t stay k)) 1 (suc m)
        ≡ sum_range of_winners 2 m + in_team a stay
  unfolding from_below
  from_below_down m stay =
      let f = λ (k : ℕ). in_team a (from_below losers_down (suc m) t stay k) in
      let last : f (1 + m) ≡ in_team a stay = ground arith in
      omega (
        arith,
        last,
        sum_range-last f 1 m,
        sum_range_ext f (λ k. of_winners (suc k)) 1 m
            (λ i lo hi. let e : i + 1 ≡ suc i = omega arith in ground (arith, ap of_winners e)),
        sum_range-shift of_winners 1 m,
      )

  from_below_same :
      (mode : LoserMode) (n k : ℕ) (stay : Team)
      → from_below mode n t stay k ≡ from_below losers_down n t stay k
  unfolding from_below
  from_below_same losers_down n k stay = refl
  from_below_same losers_stay n k stay = ground arith

  from_above_any :
      (mode : LoserMode) (m : ℕ)
      → sum_range (λ i. in_team a (from_above mode (suc m) t i)) 1 (suc m)
        ≡ of_winners 1 + sum_range of_losers 1 m
  unfolding from_above
  from_above_any losers_down m = from_above_down (suc m) m
  from_above_any losers_stay zero =
      let f = λ (i : ℕ). in_team a (from_above losers_stay 1 t i) in
      let first : f 1 ≡ of_winners 1 = ground arith in
      omega (arith, first, sum_range-suc f 1 0, sum_range-zero f 2, sum_range-zero of_losers 1)
  from_above_any losers_stay (suc m) = from_above_stay m

  -- Whatever the mode, the courts of the next round hold all winners and losers of this one, but
  -- for the bottom court's losers, whose places the stayers take.
  pub moved-count :
      (mode : LoserMode) (m : ℕ) (stay : Team)
      → count a (seated (tabulate (next_court mode (suc m) t stay) 1 (suc m))) + of_losers (suc m)
        ≡ sum_range of_winners 1 (suc m) + sum_range of_losers 1 (suc m) + in_team a stay
  moved-count mode m stay =
      let e : 1 + m ≡ suc m = omega arith in
      omega (
        arith,
        ap of_losers e,
        next_courts-count mode (suc m) stay 1 (suc m),
        from_above_any mode m,
        sum_range_ext (λ i. in_team a (from_below mode (suc m) t stay i))
            (λ i. in_team a (from_below losers_down (suc m) t stay i)) 1 (suc m)
            (λ i lo hi. ap (in_team a) (from_below_same mode (suc m) i stay)),
        from_below_down m stay,
        sum_range-suc of_winners 1 m,
        sum_range-last of_losers 1 m,
      )
