-- ===== src/Rotation/Fair.antt =====
-- `NextRoundFair`: `NextRound` with the equal-court-time pass on top. `played` is the number of
-- games before this round, 0 for an id that the source's map lacks.
pub mod Seats
pub mod Swap
pub mod Pass
pub mod Kept
pub mod Laws
use plan_my_pickle_backend.Base.{
  sort_stable, ℕ, zero, suc, ◌≡◌, Bool, true, false, not, ◌||◌, List, [], ◌∷◌, ◌++◌, String, str_eq,
  ltb, leb, ◌==◌, if◌then◌else◌, length, contains,
}
use plan_my_pickle_backend.Rotation.{RotCourt, LoserMode, RotResult, layout_ok, seated}
use plan_my_pickle_backend.Rotation.Move.{Round, next_round, min2}

-- The court's index, and the seat 0..3 across TeamA[0], TeamA[1], TeamB[0], TeamB[1].
pub record SeatRef : Type 0 where
  pub court : ℕ
  pub idx : ℕ
  pub id : String

abbrev pub seat_refs : ℕ → List RotCourt → List SeatRef
seat_refs ci [] = []
seat_refs ci (c ∷ cs) =
    record { court = ci; idx = 0; id = c.team_a.0 }
    ∷ record { court = ci; idx = 1; id = c.team_a.1 }
    ∷ record { court = ci; idx = 2; id = c.team_b.0 }
    ∷ record { court = ci; idx = 3; id = c.team_b.1 }
    ∷ seat_refs (suc ci) cs

-- One seat of a court.
unfoldable pub put_id : RotCourt → ℕ → String → RotCourt
put_id c zero id = record c { team_a = (id, c.team_a.1) }
put_id c (suc zero) id = record c { team_a = (c.team_a.0, id) }
put_id c (suc (suc zero)) id = record c { team_b = (id, c.team_b.1) }
put_id c (suc (suc (suc zero))) id = record c { team_b = (c.team_b.0, id) }
put_id c (suc (suc (suc (suc i)))) id = c

unfoldable pub set_seat : List RotCourt → ℕ → ℕ → String → List RotCourt
unfolding put_id
set_seat [] ci idx id = []
set_seat (c ∷ cs) zero idx id = put_id c idx id ∷ cs
set_seat (c ∷ cs) (suc ci) idx id = c ∷ set_seat cs ci idx id

-- No id on the bench is blank, seated, or on the bench twice.
unfoldable pub bench_ok : List String → List String → List String → Bool
bench_ok seats [] seen = true
bench_ok seats (x ∷ bench) seen =
    if str_eq x "" || contains seats x || contains seen x
    then false
    else bench_ok seats bench (x ∷ seen)

-- What the swap loop has done.
pub record Swapped : Type 0 where
  pub courts : List RotCourt
  pub took_off : List String
  pub came_on : List String

-- The bench without those who came on.
unfoldable pub waiting_still : List String → List String → List String
waiting_still came_on [] = []
waiting_still came_on (x ∷ bench) =
    if contains came_on x then waiting_still came_on bench else x ∷ waiting_still came_on bench

module _ (played : String → ℕ) where
  -- Most played first; on a tie the lower court.
  unfoldable pub busier : SeatRef → SeatRef → Bool
  busier s t =
      if played s.id == played t.id then ltb t.court s.court else ltb (played t.id) (played s.id)

  unfoldable pub rested : String → String → Bool
  rested x y = ltb (played x) (played y)

  -- At most `k` swaps; the loop ends at the first that would not narrow the gap.
  unfoldable pub swap_loop : ℕ → List SeatRef → List String → Swapped → Swapped
  swap_loop zero seats order st = st
  swap_loop (suc k) [] order st = st
  swap_loop (suc k) (s ∷ seats) [] st = st
  swap_loop (suc k) (s ∷ seats) (w ∷ order) st =
      let rest = swap_loop k seats order (record {
        courts = set_seat st.courts s.court s.idx w;
        took_off = st.took_off ++ s.id ∷ [];
        came_on = w ∷ st.came_on;
      }) in
      if leb (played s.id) (played w) then st else rest

  -- The pass over a round that may be touched.
  unfoldable pub fair_pass : Round → Round
  fair_pass next =
      let done =
        swap_loop (min2 (length next.bench)) (sort_stable busier (seat_refs 0 next.courts))
          (sort_stable rested next.bench)
          (record { courts = next.courts; took_off = []; came_on = [] }) in
      if length done.took_off == 0 then next else record {
        courts = done.courts;
        bench = waiting_still done.came_on next.bench ++ done.took_off;
      }

  unfoldable pub next_round_fair : List RotCourt → List RotResult → List String → LoserMode → Round
  next_round_fair courts results bench mode =
      let next = next_round courts results bench mode in
      if length next.bench == 0 || length next.courts == 0
      then next
      else if not (layout_ok courts) || not (layout_ok next.courts)
      then next
      else if bench_ok (seated next.courts) next.bench []
      then fair_pass next
      else next
