-- ===== src/Rotation/Placed/Honour.antt =====
-- Whom `SeedPlacedCourts` seats where the organizer put them.
use plan_my_pickle_backend.Base.{
  ℕ, zero, suc, ◌+◌, ◌/◌, ◌≤◌, ◌<◌, ◌≡◌, refl, sym, subst, ◌∙◌, ◌≢◌, List, [], ◌∷◌, ◌++◌, String,
  arith, some, length, length-append, length-replicate, get_or, get_or-set_self, get_or-set_ne,
  get_elem?, replicate, if◌then◌else◌, hit_self, count, count-append, ℤ, pos, eqb_ℤ, inl, inr, ◌⊎◌,
}
use plan_my_pickle_backend.Rotation.{RotCourt, court_ids}
use plan_my_pickle_backend.Rotation.Seed.{court_count, capped, court_count-capped}
use plan_my_pickle_backend.Rotation.Placed.{
  Seat, Placing, row_of, place_one, place, fill_row, fill_rows, no_seats, seed_placed_courts,
}
use plan_my_pickle_backend.Rotation.Placed.Count.{length-place_one}
use plan_my_pickle_backend.Rotation.Placed.Laws.{seed_placed-at}

-- How many of the players are placed on the court.
abbrev pub placed_on : ℕ → List Seat → ℕ
placed_on k [] = 0
placed_on k (p ∷ ps) = (if eqb_ℤ p.court (pos k) then 1 else 0) + placed_on k ps

abbrev row : Placing → ℕ → List String
row s j = get_or s.rows j []

-- The row that a player would be added to.
abbrev added : Seat → Placing → List String
added p s = row s (row_of p.court) ++ p.id ∷ []

eq-cases : (i j : ℕ) → (i ≡ j) ⊎ (i ≢ j)
eq-cases i j = omega arith

module _ (c : ℕ) (p : Seat) (s : Placing) (h : length s.rows ≡ c) where
  place_one-mono_self :
      (a : String)
      → count a (row s (row_of p.court)) ≤ count a (row (place_one c p s) (row_of p.court))
  unfolding place_one
  place_one-mono_self a = ground (
    arith,
    get_or-set_self s.rows (row_of p.court) (added p s) [],
    count-append a (row s (row_of p.court)) (p.id ∷ []),
  )

  place_one_mono : (a : String) (j : ℕ) → count a (row s j) ≤ count a (row (place_one c p s) j)
  unfolding place_one
  place_one_mono a j = elim (eq-cases (row_of p.court) j) [
    | inl e ↦
        subst (λ k. count a (row s k) ≤ count a (row (place_one c p s) k)) e (place_one-mono_self a)
    | inr ne ↦ ground (arith, get_or-set_ne s.rows (row_of p.court) j (added p s) [] ne)
  ]

  place_one-length_self :
      length (row (place_one c p s) (row_of p.court))
      ≤ length (row s (row_of p.court))
        + (if eqb_ℤ p.court (pos (suc (row_of p.court))) then 1 else 0)
  unfolding place_one
  place_one-length_self = ground (
    arith,
    get_or-set_self s.rows (row_of p.court) (added p s) [],
    length-append (row s (row_of p.court)) (p.id ∷ []),
  )

  place_one-length :
      (j : ℕ)
      → length (row (place_one c p s) j)
        ≤ length (row s j) + (if eqb_ℤ p.court (pos (suc j)) then 1 else 0)
  unfolding place_one
  place_one-length j = elim (eq-cases (row_of p.court) j) [
    | inl e ↦
        subst
          (λ k.
            length (row (place_one c p s) k)
            ≤ length (row s k) + (if eqb_ℤ p.court (pos (suc k)) then 1 else 0))
          e place_one-length_self
    | inr ne ↦ ground (arith, get_or-set_ne s.rows (row_of p.court) j (added p s) [] ne)
  ]

  place_one-seats :
      (j : ℕ)
      → p.court ≡ pos (suc j)
      → j < c
      → length (row s j) < 4
      → 0 < count p.id (row (place_one c p s) j)
  unfolding place_one
  place_one-seats j e lt short =
      let same : row_of p.court ≡ j = ground arith in
      let short' : length (row s (row_of p.court)) < 4 =
        subst (λ k. length (row s k) < 4) (sym same) short in
      subst (λ k. 0 < count p.id (row (place_one c p s) k)) same
        (ground (
          arith,
          get_or-set_self s.rows (row_of p.court) (added p s) [],
          count-append p.id (row s (row_of p.court)) (p.id ∷ []),
          hit_self p.id,
        ))

place_mono :
    (c : ℕ) (ps : List Seat) (s : Placing) (a : String) (j : ℕ)
    → length s.rows ≡ c
    → count a (row s j) ≤ count a (row (place c ps s) j)
unfolding place
place_mono c [] s a j h = omega arith
place_mono c (p ∷ ps) s a j h = omega (
  arith,
  place_one_mono c p s h a j,
  place_mono c ps (place_one c p s) a j (length-place_one c p s ∙ h),
)

place-length :
    (c : ℕ) (ps : List Seat) (s : Placing) (j : ℕ)
    → length s.rows ≡ c
    → length (row (place c ps s) j) ≤ length (row s j) + placed_on (suc j) ps
unfolding place
place-length c [] s j h = omega arith
place-length c (p ∷ ps) s j h = omega (
  arith,
  place_one-length c p s h j,
  place-length c ps (place_one c p s) j (length-place_one c p s ∙ h),
)

place-append :
    (c : ℕ) (ps qs : List Seat) (s : Placing) → place c (ps ++ qs) s ≡ place c qs (place c ps s)
unfolding place
place-append c [] qs s = refl
place-append c (p ∷ ps) qs s = place-append c ps qs (place_one c p s)

length-place : (c : ℕ) (ps : List Seat) (s : Placing) → length (place c ps s).rows ≡ length s.rows
unfolding place
length-place c [] s = refl
length-place c (p ∷ ps) s = length-place c ps (place_one c p s) ∙ length-place_one c p s

fill_row_mono : (a : String) (q pool : List String) → count a q ≤ count a (fill_row q pool).0
unfolding fill_row
fill_row_mono a q [] = omega arith
fill_row_mono a q (x ∷ pool) =
    ground (arith, fill_row_mono a (q ++ x ∷ []) pool, count-append a q (x ∷ []))

fill_rows_mono :
    (a : String) (rows : List (List String)) (pool : List String) (j : ℕ)
    → count a (get_or rows j []) ≤ count a (get_or (fill_rows rows pool).0 j [])
unfolding fill_rows
fill_rows_mono a [] pool j = omega arith
fill_rows_mono a (q ∷ rows) pool zero = fill_row_mono a q pool
fill_rows_mono a (q ∷ rows) pool (suc j) = fill_rows_mono a rows (fill_row q pool).1 j

get_or-replicate : (c j : ℕ) → length {A = String} (get_or (replicate c []) j []) ≡ 0
get_or-replicate zero j = refl
get_or-replicate (suc c) zero = refl
get_or-replicate (suc c) (suc j) = get_or-replicate c j

place_mono_after :
    (c : ℕ) (p : Seat) (ps : List Seat) (s : Placing) (a : String) (j : ℕ)
    → length s.rows ≡ c
    → count a (row (place_one c p s) j) ≤ count a (row (place c (p ∷ ps) s) j)
unfolding place
place_mono_after c p ps s a j h = place_mono c ps (place_one c p s) a j (length-place_one c p s ∙ h)

-- A player is on the row of their court once all are placed, if fewer than four before them are
-- placed on it.
place-seats :
    (c j : ℕ) (before : List Seat) (p : Seat) (after : List Seat)
    → p.court ≡ pos (suc j)
    → j < c
    → placed_on (suc j) before < 4
    → 0 < count p.id (row (place c (before ++ p ∷ after) (no_seats c)) j)
place-seats c j before p after e lt few =
    let s = place c before (no_seats c) in
    let len : length s.rows ≡ c = length-place c before (no_seats c) ∙ length-replicate c [] in
    rw (place-append c before (p ∷ after) (no_seats c)) (
      omega (
        arith,
        place-length c before (no_seats c) j (length-replicate c []),
        get_or-replicate c j,
        place_one-seats c p s len j e lt,
        place_mono_after c p after s p.id j len,
      ))

-- A court that runs tonight gets the first four players that the organizer placed on it: a player
-- placed there, with fewer than four placed there before them in the rating order, is on that court.
pub seed_placed_courts-honours :
    (before : List Seat) (p : Seat) (after : List Seat) (max_courts : ℤ) (j : ℕ)
    → p.court ≡ pos (suc j)
    → j < capped (length (before ++ p ∷ after) / 4) max_courts
    → placed_on (suc j) before < 4
    → (d : RotCourt) × (get_elem? (seed_placed_courts (before ++ p ∷ after) max_courts).courts j
        ≡ some d)
      × (0 < count p.id (court_ids d))
seed_placed_courts-honours before p after max_courts j e open_court few =
    let players = before ++ p ∷ after in
    let c = court_count (length players / 4) max_courts in
    let s = place c players (no_seats c) in
    let lt : j < c =
      omega (arith, open_court, court_count-capped (length players / 4) max_courts) in
    let (d, at, same) = seed_placed-at players max_courts j lt in
    (
      d,
      at,
      omega (
        arith,
        same p.id,
        fill_rows_mono p.id s.rows (s.pool ++ s.overflow) j,
        place-seats c j before p after e lt few,
      ),
    )
