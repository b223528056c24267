-- ===== src/Rotation/Seed.antt =====
-- `SeedCourts`: the rating order chunked onto full courts, the rest to the bench.
use plan_my_pickle_backend.Base.{
  min, negsuc, suc, ℕ, zero, suc, ◌+◌, ◌-◌, ◌*◌, ◌/◌, ◌≤◌, ◌<◌, ◌≡◌, refl, ap, ◌∙◌, ◌&&◌, List, [],
  ◌∷◌, ◌++◌, String, arith, if◌then◌else◌, add-one, add-two, add-three, add-four, length,
  length-drop, length-tabulate, drop, get_or, tabulate, ℤ, pos, pos_part, ltb_ℤ, hit, count,
  count-append, SameIds, IsDistinct,
}
use plan_my_pickle_backend.Rotation.{RotCourt, seated, IsNumbered, IsLayout}
use plan_my_pickle_backend.Rotation.Move.{Round}

-- The number of courts: `max_courts` caps it if positive.
unfoldable pub court_count : ℕ → ℤ → ℕ
court_count full max_courts =
    if ltb_ℤ (pos 0) max_courts && ltb_ℤ max_courts (pos full) then pos_part max_courts else full

-- The court at index `k`, from the players at `4k` on.
pub seed_court : List String → ℕ → RotCourt
seed_court players k =
    let i = k * 4 in
    record {
      court = k + 1;
      team_a = (get_or players i "", get_or players (i + 2) "");
      team_b = (get_or players (i + 1) "", get_or players (i + 3) "");
    }

pub seed_courts : List String → ℤ → Round
unfolding court_count seed_court
seed_courts players max_courts =
    let c = court_count (length players / 4) max_courts in
    record { courts = tabulate (seed_court players) 0 c; bench = drop (c * 4) players }

-- `full`, or the cap if it is positive and less.
abbrev pub capped : ℕ → ℤ → ℕ
capped full (pos zero) = full
capped full (pos (suc n)) = min full (suc n)
capped full (negsuc n) = full

pub court_count-capped :
    (full : ℕ) (max_courts : ℤ) → court_count full max_courts ≡ capped full max_courts
unfolding court_count
court_count-capped full (pos zero) = ground arith
court_count-capped full (pos (suc n)) = ground arith
court_count-capped full (negsuc n) = ground arith

pub court_count-le : (full : ℕ) (max_courts : ℤ) → court_count full max_courts ≤ full
unfolding court_count
court_count-le full max_courts = ground arith

drop_at : (xs : List String) (i : ℕ) → i < length xs → drop i xs ≡ get_or xs i "" ∷ drop (suc i) xs
drop_at [] i h = absurd (omega arith)
drop_at (x ∷ xs) zero h = refl
drop_at (x ∷ xs) (suc i) h = drop_at xs i (omega arith)

module _ (players : List String) where
  drop_four :
      (a : String) (i : ℕ)
      → i + 4 ≤ length players
      → count a (drop i players)
        ≡ hit (get_or players i "") a
          + hit (get_or players (i + 1) "") a
          + hit (get_or players (i + 2) "") a
          + hit (get_or players (i + 3) "") a
          + count a (drop (i + 4) players)
  drop_four a i h =
      rw (add-one i, add-two i, add-three i, add-four i)
        (omega (
          arith,
          ap (count a) (drop_at players i (omega arith)),
          ap (count a) (drop_at players (suc i) (omega arith)),
          ap (count a) (drop_at players (suc (suc i)) (omega arith)),
          ap (count a) (drop_at players (suc (suc (suc i))) (omega arith)),
        ))

  seeded-count :
      (a : String) (k m : ℕ)
      → (k + m) * 4 ≤ length players
      → count a (seated (tabulate (seed_court players) k m)) + count a (drop ((k + m) * 4) players)
        ≡ count a (drop (k * 4) players)
  unfolding seed_court
  seeded-count a k zero h = let e : (k + 0) * 4 ≡ k * 4 = omega arith in rw e (omega arith)
  seeded-count a k (suc m) h =
      let e : (k + suc m) * 4 ≡ (suc k + m) * 4 = omega arith in
      let e' : k * 4 + 4 ≡ suc k * 4 = omega arith in
      omega (
        arith,
        ap (λ j. count a (drop j players)) e,
        ap (λ j. count a (drop j players)) e',
        seeded-count a (suc k) m (omega arith),
        drop_four a (k * 4) (omega arith),
      )

  seeded-IsNumbered : (k m : ℕ) → IsNumbered k (tabulate (seed_court players) k m)
  unfolding seed_court
  seeded-IsNumbered k zero = tt
  seeded-IsNumbered k (suc m) = (omega arith, seeded-IsNumbered (suc k) m)

  module _ (max_courts : ℤ) where
    seed_fits : court_count (length players / 4) max_courts * 4 ≤ length players
    seed_fits = omega (arith, court_count-le (length players / 4) max_courts)

    -- Everybody is seated or on the bench, each as often as on the roster.
    pub seed_courts-SameIds :
        SameIds
          (seated (seed_courts players max_courts).courts ++ (seed_courts players max_courts).bench)
          players
    unfolding seed_courts
    seed_courts-SameIds a =
        let c = court_count (length players / 4) max_courts in
        let e : (0 + c) * 4 ≡ c * 4 = omega arith in
        omega (
          arith,
          ap (λ j. count a (drop j players)) e,
          count-append a (seated (tabulate (seed_court players) 0 c)) (drop (c * 4) players),
          seeded-count a 0 c (omega (arith, seed_fits)),
        )

-- A roster without blank or repeated ids opens on a safe layout, with `max_courts` courts if that is
-- positive and there are players for more, else with as many full courts as the players fill; the
-- bench is the rest of the roster in its order.
pub seed_courts-IsLayout :
    (players : List String) (max_courts : ℤ)
    → count "" players ≡ 0
    → IsDistinct players
    → IsLayout (seed_courts players max_courts).courts (seed_courts players max_courts).bench
      × (length (seed_courts players max_courts).courts
          ≡ court_count (length players / 4) max_courts)
      × (length (seed_courts players max_courts).bench
          ≡ length players - 4 * length (seed_courts players max_courts).courts)
unfolding seed_courts
seed_courts-IsLayout players max_courts no_blank distinct =
    let c = court_count (length players / 4) max_courts in
    (
      record {
        numbered = seeded-IsNumbered players 0 c;
        no_blank = seed_courts-SameIds players max_courts "" ∙ no_blank;
        distinct = λ a. omega (arith, seed_courts-SameIds players max_courts a, distinct a);
      },
      length-tabulate (seed_court players) 0 c,
      omega (arith, length-tabulate (seed_court players) 0 c, length-drop (c * 4) players),
    )
