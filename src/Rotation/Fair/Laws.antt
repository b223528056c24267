-- ===== src/Rotation/Fair/Laws.antt =====
-- `NextRoundFair` conserves the players, keeps a safe layout safe, never adds to the games on court
-- and leaves a refused layout alone.
use plan_my_pickle_backend.Base.{
  ℕ, ◌+◌, ◌≤◌, ◌≡◌, refl, ◌∙◌, true, inl, inr, List, [], ◌∷◌, ◌++◌, String, arith, str_ne-hit, ◌⊎◌,
  hit, hit-cases, count, count-append, not_contains-count, weigh, SameIds, IsDistinct,
}
use plan_my_pickle_backend.Rotation.{RotCourt, LoserMode, RotResult, seated, IsLayout, layout_ok}
use plan_my_pickle_backend.Rotation.Layout.{new_distinct, layout_and_bench_ok-iff_IsLayout}
use plan_my_pickle_backend.Rotation.Move.{Round, next_round}
use plan_my_pickle_backend.Rotation.Move.Conserve.{
  next_round-SameIds, next_round-IsLayout, next_round_refuses,
}
use plan_my_pickle_backend.Rotation.Fair.{bench_ok, fair_pass, next_round_fair}
use plan_my_pickle_backend.Rotation.Fair.Pass.{
  fair_pass-SameIds, fair_pass-IsNumbered, fair_pass-lighter,
}

module _ (played : String → ℕ) (courts : List RotCourt) (results : List RotResult)
    (bench : List String) (mode : LoserMode) where
  abbrev plain : Round
  plain = next_round courts results bench mode

  abbrev fair : Round
  fair = next_round_fair played courts results bench mode

  -- The pass is made or the plain round stands.
  pub fair-cases : (fair ≡ plain) ⊎ (fair ≡ fair_pass played plain)
  unfolding next_round_fair
  fair-cases = ground arith

-- What the bench check establishes.
record Clean (seats bench seen : List String) : Type 0 where
  no_blank : count "" bench ≡ 0
  once : (a : String) → count a bench + count a seen ≤ 1
  apart : (a : String) → (count a bench ≡ 0) ⊎ (count a seats ≡ 0)

bench_ok-Clean :
    (seats bench seen : List String)
    → IsDistinct seen
    → bench_ok seats bench seen ≡ true
    → Clean seats bench seen
unfolding bench_ok
bench_ok-Clean seats [] seen d h = record {
  no_blank = refl;
  once = λ a. omega (arith, d a);
  apart = λ a. inl refl;
}
bench_ok-Clean seats (x ∷ bench) seen d h =
    let unseen : count x seen ≡ 0 = ground (arith, not_contains-count seen x) in
    let off_court : count x seats ≡ 0 = ground (arith, not_contains-count seats x) in
    let named : hit x "" ≡ 0 = ground (arith, str_ne-hit x "") in
    let rest =
      bench_ok-Clean seats bench (x ∷ seen) (λ a. new_distinct x seen a (d a) unseen)
        (ground arith) in
    record {
      no_blank = omega (arith, rest.no_blank);
      once = λ a. omega (arith, rest.once a);
      apart = λ a. ground (arith, hit-cases x a, rest.apart a);
    }

module _ (played : String → ℕ) (courts : List RotCourt) (results : List RotResult)
    (bench : List String) (mode : LoserMode) where
  guarded :
      {seats : List RotCourt} {waiting : List String}
      → next_round courts results bench mode ≡ record { courts = seats; bench = waiting }
      → (next_round_fair played courts results bench mode
          ≡ record { courts = seats; bench = waiting })
        ⊎ ((layout_ok courts ≡ true) × (bench_ok (seated seats) waiting [] ≡ true))
  unfolding next_round_fair
  guarded e = ground arith

  IsLayout-of_checks :
      layout_ok courts ≡ true → bench_ok (seated courts) bench [] ≡ true → IsLayout courts bench
  unfolding layout_ok
  IsLayout-of_checks ok clean =
      let v = (layout_and_bench_ok-iff_IsLayout courts []).0 ok in
      let w = bench_ok-Clean (seated courts) bench [] (λ a. omega arith) clean in
      record {
        numbered = v.numbered;
        no_blank = omega (
          arith,
          v.no_blank,
          w.no_blank,
          count-append "" (seated courts) bench,
          count-append "" (seated courts) [],
        );
        distinct = λ a. omega (
          arith,
          v.distinct a,
          w.once a,
          w.apart a,
          count-append a (seated courts) bench,
          count-append a (seated courts) [],
        );
      }

-- The fairness pass leaves a refused layout alone: what is not safe to move comes back unchanged.
pub next_round_fair_refuses :
    (played : String → ℕ) (courts : List RotCourt) (results : List RotResult) (bench : List String)
    (mode : LoserMode)
    → ¬ IsLayout courts bench
    → next_round_fair played courts results bench mode ≡ record { courts = courts; bench = bench }
next_round_fair_refuses played courts results bench mode bad =
    elim (guarded played courts results bench mode
      (next_round_refuses courts results bench mode bad)) [
        | inl e ↦ e
        | inr (ok, clean) ↦
            absurd (bad (IsLayout-of_checks played courts results bench mode ok clean))
      ]

-- A safe layout moves to a safe layout with the fairness pass too, with the same players, and the
-- pass never raises the number of games that the players on court have behind them.
pub next_round_fair-IsLayout :
    (played : String → ℕ) (courts : List RotCourt) (results : List RotResult) (bench : List String)
    (mode : LoserMode)
    → IsLayout courts bench
    → let fair = next_round_fair played courts results bench mode in
      IsLayout fair.courts fair.bench
      × SameIds (seated fair.courts ++ fair.bench) (seated courts ++ bench)
      × (weigh played (seated fair.courts)
          ≤ weigh played (seated (next_round courts results bench mode).courts))
next_round_fair-IsLayout played courts results bench mode v =
    let plain = next_round courts results bench mode in
    let (w, _, _) = next_round-IsLayout courts results bench mode v in
    let same = next_round-SameIds courts results bench mode in
    elim (fair-cases played courts results bench mode) [
      | inl e ↦ rw e (w, same, omega arith)
      | inr e ↦
          let moved : SameIds
              (seated (fair_pass played plain).courts ++ (fair_pass played plain).bench)
              (seated courts ++ bench) =
            λ a. fair_pass-SameIds played plain w a ∙ same a in
          rw e (
            record {
              numbered = fair_pass-IsNumbered played plain w;
              no_blank = moved "" ∙ v.no_blank;
              distinct = λ a. omega (arith, moved a, v.distinct a);
            },
            moved,
            fair_pass-lighter played plain w,
          )
    ]
