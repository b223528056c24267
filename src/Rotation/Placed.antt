-- ===== src/Rotation/Placed.antt =====
-- `SeedPlacedCourts`: round 1 from the organizer's explicit placements, rating order for the rest.
pub mod Count
pub mod Honour
pub mod Laws
use plan_my_pickle_backend.Base.{
  ℕ, zero, suc, ◌+◌, ◌-◌, ◌/◌, ◌&&◌, not, List, [], ◌∷◌, ◌++◌, String, ltb, ◌==◌, if◌then◌else◌,
  length, get_or, set, replicate, map, ℤ, pos, pos_part, ltb_ℤ,
}
use plan_my_pickle_backend.Rotation.{RotCourt}
use plan_my_pickle_backend.Rotation.Move.{Round}
use plan_my_pickle_backend.Rotation.Seed.{court_count}

-- Court 0 means unplaced.
pub record Seat : Type 0 where
  pub id : String
  pub court : ℤ

-- `seats[1..c]` (the source's index 0 is unused), and the two queues for those not placed.
pub record Placing : Type 0 where
  pub rows : List (List String)
  pub pool : List String
  pub overflow : List String

-- The index of a court among `rows`.
abbrev pub row_of : ℤ → ℕ
row_of court = pos_part court - 1

pub place_one : ℕ → Seat → Placing → Placing
place_one c p s =
    let row = get_or s.rows (row_of p.court) [] in
    if ltb_ℤ (pos 0) p.court && not (ltb_ℤ (pos c) p.court) && ltb (length row) 4
    then record s { rows = set s.rows (row_of p.court) (row ++ p.id ∷ []) }
    else if ltb_ℤ (pos 0) p.court
    then record s { overflow = s.overflow ++ p.id ∷ [] }
    else record s { pool = s.pool ++ p.id ∷ [] }

pub place : ℕ → List Seat → Placing → Placing
unfolding place_one
place c [] s = s
place c (p ∷ ps) s = place c ps (place_one c p s)

-- `for len(seats[k]) < 4 && next < len(pool)`; what is left of the pool is `pool[next:]`.
pub fill_row : List String → List String → List String × List String
fill_row row [] = (row, [])
fill_row row (x ∷ pool) =
    let rest = fill_row (row ++ x ∷ []) pool in if ltb (length row) 4 then rest else (row, x ∷ pool)

pub fill_rows : List (List String) → List String → List (List String) × List String
unfolding fill_row
fill_rows [] pool = ([], pool)
fill_rows (row ∷ rows) pool =
    let (row', pool') = fill_row row pool in
    let (rows', rest) = fill_rows rows pool' in (row' ∷ rows', rest)

pub row_court : ℕ → List String → RotCourt
row_court k q = record {
  court = k;
  team_a = (get_or q 0 "", get_or q 2 "");
  team_b = (get_or q 1 "", get_or q 3 "");
}

pub row_courts : ℕ → List (List String) → List RotCourt
unfolding row_court
row_courts k [] = []
row_courts k (q ∷ rows) = row_court k q ∷ row_courts (suc k) rows

abbrev pub ids : List Seat → List String
ids [] = []
ids (p ∷ ps) = p.id ∷ ids ps

-- `seats` before the loop.
abbrev pub no_seats : ℕ → Placing
no_seats c = record { rows = replicate c []; pool = []; overflow = [] }

pub seed_placed_courts : List Seat → ℤ → Round
unfolding place fill_rows row_courts
seed_placed_courts players max_courts =
    let c = court_count (length players / 4) max_courts in
    let s = place c players (no_seats c) in
    let (rows, rest) = fill_rows s.rows (s.pool ++ s.overflow) in
    if c == 0
    then record { courts = []; bench = ids players }
    else record { courts = row_courts 1 rows; bench = rest }
