-- ===== src/Rotation/Placed/Count.antt =====
-- What `SeedPlacedCourts` places, queues and fills: how often each id, and how many of them.
use plan_my_pickle_backend.Base.{
  ℕ, zero, suc, ◌+◌, ◌*◌, ◌≤◌, ◌<◌, ◌≡◌, refl, ap, ◌∙◌, List, [], ◌∷◌, ◌++◌, String, arith, length,
  length-append, length-set, get_or, set, All, All-set, hit, count, count-append,
}
use plan_my_pickle_backend.Rotation.Placed.{
  Seat, Placing, row_of, place_one, place, fill_row, fill_rows, ids,
}

-- All the rows' ids.
abbrev pub flat : List (List String) → List String
flat [] = []
flat (q ∷ rows) = q ++ flat rows

count-flat-set :
    (a x : String) (rows : List (List String)) (j : ℕ)
    → j < length rows
    → count a (flat (set rows j (get_or rows j [] ++ x ∷ []))) ≡ count a (flat rows) + hit x a
count-flat-set a x [] j h = absurd (omega arith)
count-flat-set a x (q ∷ rows) zero h = omega (
  arith,
  count-append a (q ++ x ∷ []) (flat rows),
  count-append a q (x ∷ []),
  count-append a q (flat rows),
)
count-flat-set a x (q ∷ rows) (suc j) h = omega (
  arith,
  count-append a q (flat (set rows j (get_or rows j [] ++ x ∷ []))),
  count-append a q (flat rows),
  count-flat-set a x rows j (omega arith),
)

-- How often an id has been placed or queued.
abbrev pub held : String → Placing → ℕ
held a s = count a (flat s.rows) + count a s.pool + count a s.overflow

pub length-place_one :
    (c : ℕ) (p : Seat) (s : Placing) → length (place_one c p s).rows ≡ length s.rows
unfolding place_one
length-place_one c p s =
    ground
      (arith, length-set s.rows (row_of p.court) (get_or s.rows (row_of p.court) [] ++ p.id ∷ []))

place_one-held :
    (a : String) (c : ℕ) (p : Seat) (s : Placing)
    → length s.rows ≡ c
    → held a (place_one c p s) ≡ held a s + hit p.id a
unfolding place_one
place_one-held a c p s h = ground (
  arith,
  count-flat-set a p.id s.rows (row_of p.court),
  count-append a s.pool (p.id ∷ []),
  count-append a s.overflow (p.id ∷ []),
)

pub place-held :
    (a : String) (c : ℕ) (ps : List Seat) (s : Placing)
    → length s.rows ≡ c
    → held a (place c ps s) ≡ held a s + count a (ids ps)
unfolding place
place-held a c [] s h = omega arith
place-held a c (p ∷ ps) s h = omega (
  arith,
  place-held a c ps (place_one c p s) (length-place_one c p s ∙ h),
  place_one-held a c p s h,
)

-- Rows of at most four, and how many ids have been placed or queued.
abbrev pub Short : List String → Type 0
Short q = length q ≤ 4

abbrev pub total : List (List String) → ℕ
total [] = 0
total (q ∷ rows) = length q + total rows

pub Short-get_or :
    (rows : List (List String)) (j : ℕ) → All Short rows → length (get_or rows j []) ≤ 4
Short-get_or [] j h = omega arith
Short-get_or (q ∷ rows) zero h = h.0
Short-get_or (q ∷ rows) (suc j) h = Short-get_or rows j h.1

pub total-set :
    (x : String) (rows : List (List String)) (j : ℕ)
    → j < length rows
    → total (set rows j (get_or rows j [] ++ x ∷ [])) ≡ total rows + 1
total-set x [] j h = absurd (omega arith)
total-set x (q ∷ rows) zero h = omega (arith, length-append q (x ∷ []))
total-set x (q ∷ rows) (suc j) h = omega (arith, total-set x rows j (omega arith))

abbrev pub queued : Placing → ℕ
queued s = total s.rows + length s.pool + length s.overflow

place_one-Short :
    (c : ℕ) (p : Seat) (s : Placing) → All Short s.rows → All Short (place_one c p s).rows
unfolding place_one
place_one-Short c p s h = ground (
  arith,
  λ (short : length (get_or s.rows (row_of p.court) [] ++ p.id ∷ []) ≤ 4).
      All-set Short s.rows (row_of p.court) (get_or s.rows (row_of p.court) [] ++ p.id ∷ []) h
        short,
  length-append (get_or s.rows (row_of p.court) []) (p.id ∷ []),
)

place_one-queued :
    (c : ℕ) (p : Seat) (s : Placing) → length s.rows ≡ c → queued (place_one c p s) ≡ queued s + 1
unfolding place_one
place_one-queued c p s h = ground (
  arith,
  total-set p.id s.rows (row_of p.court),
  length-append s.pool (p.id ∷ []),
  length-append s.overflow (p.id ∷ []),
)

pub place-keeps :
    (c : ℕ) (ps : List Seat) (s : Placing)
    → length s.rows ≡ c
    → All Short s.rows
    → (length (place c ps s).rows ≡ c)
      × All Short (place c ps s).rows
      × (queued (place c ps s) ≡ queued s + length ps)
unfolding place
place-keeps c [] s h short = (h, short, omega arith)
place-keeps c (p ∷ ps) s h short =
    let (a, b, q) =
      place-keeps c ps (place_one c p s) (length-place_one c p s ∙ h)
        (place_one-Short c p s short) in
    (a, b, omega (arith, q, place_one-queued c p s h))

fill_row-count :
    (a : String) (row pool : List String)
    → count a (fill_row row pool).0 + count a (fill_row row pool).1 ≡ count a row + count a pool
unfolding fill_row
fill_row-count a row [] = omega arith
fill_row-count a row (x ∷ pool) =
    ground (arith, fill_row-count a (row ++ x ∷ []) pool, count-append a row (x ∷ []))

fill_row-full :
    (row pool : List String)
    → length row ≤ 4
    → 4 ≤ length row + length pool
    → (length (fill_row row pool).0 ≡ 4)
      × (length (fill_row row pool).1 + 4 ≡ length row + length pool)
unfolding fill_row
fill_row-full row [] h e = (omega arith, omega arith)
fill_row-full row (x ∷ pool) h e =
    ground (arith, fill_row-full (row ++ x ∷ []) pool, length-append row (x ∷ []))

pub fill_rows-count :
    (a : String) (rows : List (List String)) (pool : List String)
    → count a (flat (fill_rows rows pool).0) + count a (fill_rows rows pool).1
      ≡ count a (flat rows) + count a pool
unfolding fill_rows
fill_rows-count a [] pool = omega arith
fill_rows-count a (q ∷ rows) pool = omega (
  arith,
  fill_row-count a q pool,
  fill_rows-count a rows (fill_row q pool).1,
  count-append a (fill_row q pool).0 (flat (fill_rows rows (fill_row q pool).1).0),
  count-append a q (flat rows),
)

-- Exactly four.
abbrev pub Full : List String → Type 0
Full q = length q ≡ 4

total-le : (rows : List (List String)) → All Short rows → total rows ≤ 4 * length rows
total-le [] h = omega arith
total-le (q ∷ rows) h = omega (arith, total-le rows h.1, h.0)

pub fill_rows-Full :
    (rows : List (List String)) (pool : List String)
    → All Short rows
    → 4 * length rows ≤ total rows + length pool
    → All Full (fill_rows rows pool).0 × (length (fill_rows rows pool).0 ≡ length rows)
unfolding fill_rows
fill_rows-Full [] pool h e = (tt, refl)
fill_rows-Full (q ∷ rows) pool h e =
    let bound = total-le rows h.1 in
    let (full, left) = fill_row-full q pool h.0 (omega arith) in
    let (fulls, same) = fill_rows-Full rows (fill_row q pool).1 h.1 (omega arith) in
    ((full, fulls), ap suc same)
