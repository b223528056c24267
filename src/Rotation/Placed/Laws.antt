-- ===== src/Rotation/Placed/Laws.antt =====
-- `SeedPlacedCourts` seats or benches everybody, on full courts, and honours the placements it can.
use plan_my_pickle_backend.Base.{
  ℕ, zero, suc, ◌+◌, ◌/◌, ◌<◌, ◌≡◌, refl, ap, ◌∙◌, List, [], ◌∷◌, ◌++◌, String, arith, ◌==◌, some,
  length, length-append, length-replicate, get_or, get_elem?, replicate, All, count, count-append,
  SameIds, IsDistinct, ℤ, Bool-cases, inl, inr,
}
use plan_my_pickle_backend.Rotation.{RotCourt, court_ids, seated, IsNumbered, IsLayout}
use plan_my_pickle_backend.Rotation.Seed.{court_count, court_count-le, capped, court_count-capped}
use plan_my_pickle_backend.Rotation.Placed.{
  Seat, Placing, place, fill_rows, row_court, row_courts, ids, no_seats, seed_placed_courts,
}
use plan_my_pickle_backend.Rotation.Placed.Count.{
  flat, Short, total, Full, place-held, place-keeps, fill_rows-count, fill_rows-Full,
}

count-four :
    (a : String) (q : List String) (k : ℕ)
    → length q ≡ 4
    → count a (court_ids (row_court k q)) ≡ count a q
unfolding row_court
count-four a (w ∷ x ∷ y ∷ z ∷ []) k h = omega arith
count-four a (w ∷ x ∷ y ∷ z ∷ v ∷ q) k h = absurd (omega arith)
count-four a (w ∷ x ∷ y ∷ []) k h = absurd (omega arith)
count-four a (w ∷ x ∷ []) k h = absurd (omega arith)
count-four a (w ∷ []) k h = absurd (omega arith)
count-four a [] k h = absurd (omega arith)

row_courts-count :
    (a : String) (k : ℕ) (rows : List (List String))
    → All Full rows
    → count a (seated (row_courts k rows)) ≡ count a (flat rows)
unfolding row_courts
row_courts-count a k [] h = refl
row_courts-count a k (q ∷ rows) h = omega (
  arith,
  count-append a (court_ids (row_court k q)) (seated (row_courts (suc k) rows)),
  count-append a q (flat rows),
  count-four a q k h.0,
  row_courts-count a (suc k) rows h.1,
)

row_courts-IsNumbered : (k : ℕ) (rows : List (List String)) → IsNumbered k (row_courts (suc k) rows)
unfolding row_courts
row_courts-IsNumbered k [] = tt
row_courts-IsNumbered k (q ∷ rows) = (refl, row_courts-IsNumbered (suc k) rows)

length-row_courts : (k : ℕ) (rows : List (List String)) → length (row_courts k rows) ≡ length rows
unfolding row_courts
length-row_courts k [] = refl
length-row_courts k (q ∷ rows) = ap suc (length-row_courts (suc k) rows)

row_courts-at :
    (k j : ℕ) (rows : List (List String))
    → All Full rows
    → j < length rows
    → (d : RotCourt) × (get_elem? (row_courts k rows) j ≡ some d)
      × ((a : String) → count a (court_ids d) ≡ count a (get_or rows j []))
unfolding row_courts
row_courts-at k j [] h lt = absurd (omega arith)
row_courts-at k zero (q ∷ rows) h lt = (row_court k q, refl, λ a. count-four a q k h.0)
row_courts-at k (suc j) (q ∷ rows) h lt = row_courts-at (suc k) j rows h.1 (omega arith)

replicate-empty :
    (a : String) (c : ℕ)
    → (count a (flat (replicate c [])) ≡ 0)
      × (total (replicate c []) ≡ 0)
      × All Short (replicate c [])
replicate-empty a zero = (refl, refl, tt)
replicate-empty a (suc c) =
    let (p, q, r) = replicate-empty a c in (p, omega arith, (omega arith, r))

length-ids : (ps : List Seat) → length (ids ps) ≡ length ps
length-ids [] = refl
length-ids (p ∷ ps) = ap suc (length-ids ps)

module _ (players : List Seat) (max_courts : ℤ) where
  abbrev c : ℕ
  c = court_count (length players / 4) max_courts

  abbrev placed : Placing
  placed = place c players (no_seats c)

  abbrev filled : List (List String) × List String
  filled = fill_rows placed.rows (placed.pool ++ placed.overflow)

  filled-Full : All Full filled.0 × (length filled.0 ≡ c)
  filled-Full =
      let (none_held, none_queued, short) = replicate-empty "" c in
      let (len, short', q) = place-keeps c players (no_seats c) (length-replicate c []) short in
      let (full, same) = fill_rows-Full placed.rows (placed.pool ++ placed.overflow) short' (
        omega (
          arith,
          len,
          q,
          none_queued,
          court_count-le (length players / 4) max_courts,
          length-append placed.pool placed.overflow,
        )) in
      (full, same ∙ len)

  filled-count : (a : String) → count a (flat filled.0) + count a filled.1 ≡ count a (ids players)
  filled-count a = omega (
    arith,
    (replicate-empty a c).0,
    place-held a c players (no_seats c) (length-replicate c []),
    fill_rows-count a placed.rows (placed.pool ++ placed.overflow),
    count-append a placed.pool placed.overflow,
  )

  -- Everybody is seated or on the bench, each as often as on the roster.
  pub seed_placed_courts-SameIds :
      SameIds
        (seated (seed_placed_courts players max_courts).courts
          ++ (seed_placed_courts players max_courts).bench)
        (ids players)
  unfolding seed_placed_courts
  seed_placed_courts-SameIds a = ground (
    arith,
    count-append a (seated (row_courts 1 filled.0)) filled.1,
    row_courts-count a 1 filled.0 filled-Full.0,
    filled-count a,
  )

  pub length-seed_placed : length (seed_placed_courts players max_courts).courts ≡ c
  unfolding seed_placed_courts
  length-seed_placed = ground (arith, length-row_courts 1 filled.0, filled-Full.1)

  seed_placed-IsNumbered : IsNumbered 0 (seed_placed_courts players max_courts).courts
  unfolding seed_placed_courts
  seed_placed-IsNumbered = elim (Bool-cases (c == 0)) [
    | inl none_yet ↦ rw none_yet tt
    | inr some_court ↦ rw some_court (row_courts-IsNumbered 0 filled.0)
  ]

  -- The court at an index is made of a full row.
  pub seed_placed-at :
      (j : ℕ)
      → j < c
      → (d : RotCourt) × (get_elem? (seed_placed_courts players max_courts).courts j ≡ some d)
        × ((a : String) → count a (court_ids d) ≡ count a (get_or filled.0 j []))
  unfolding seed_placed_courts
  seed_placed-at j h = elim (Bool-cases (c == 0)) [
    | inl none_yet ↦ absurd (ground arith)
    | inr some_court ↦
        let (d, e, same) =
          row_courts-at 1 j filled.0 filled-Full.0 (omega (arith, filled-Full.1)) in
        (d, rw some_court e, same)
  ]

-- A roster without blank or repeated ids opens on a safe layout, whatever the placements, of as
-- many full courts as the players fill, or the cap if that is positive and less, and everybody is on a
-- court or on the bench.
pub seed_placed_courts-IsLayout :
    (players : List Seat) (max_courts : ℤ)
    → count "" (ids players) ≡ 0
    → IsDistinct (ids players)
    → IsLayout
        (seed_placed_courts players max_courts).courts
        (seed_placed_courts players max_courts).bench
      × (length (seed_placed_courts players max_courts).courts
          ≡ capped (length players / 4) max_courts)
      × SameIds
          (seated (seed_placed_courts players max_courts).courts
            ++ (seed_placed_courts players max_courts).bench)
          (ids players)
seed_placed_courts-IsLayout players max_courts no_blank distinct = (
  record {
    numbered = seed_placed-IsNumbered players max_courts;
    no_blank = seed_placed_courts-SameIds players max_courts "" ∙ no_blank;
    distinct = λ a. omega (arith, seed_placed_courts-SameIds players max_courts a, distinct a);
  },
  length-seed_placed players max_courts ∙ court_count-capped (length players / 4) max_courts,
  seed_placed_courts-SameIds players max_courts,
)
