-- ===== src/Night.antt =====
-- internal/service/ladder_rotation.go: what a live rotation night does between two rounds with the
-- engine's courts. Departures are settled, courts re-opened, layouts compared; the child Advance
-- has the step from one round to the next.
pub mod Fill
pub mod SettleLoop
pub mod Settle
pub mod Staying
pub mod Grow
pub mod Moved
pub mod Scorecard
pub mod Advance
use plan_my_pickle_backend.Base.{
  ℕ, zero, suc, ◌+◌, Bool, true, false, not, ◌&&◌, ◌||◌, List, [], ◌∷◌, ◌++◌, String, str_eq, ltb,
  leb, ◌==◌, if◌then◌else◌, length, take, drop, contains, ℤ, pos, ltb_ℤ,
}
use plan_my_pickle_backend.Rotation.{Team, RotCourt, court_ids, seated}
use plan_my_pickle_backend.Rotation.Move.{Round}

abbrev pub same_team : Team → Team → Bool
same_team s t = str_eq s.0 t.0 && str_eq s.1 t.1

abbrev pub same_court : RotCourt → RotCourt → Bool
same_court c d = (c.court == d.court) && same_team c.team_a d.team_a && same_team c.team_b d.team_b

-- Seat for seat; layouts of different lengths differ.
unfoldable pub same_layout : List RotCourt → List RotCourt → Bool
same_layout [] [] = true
same_layout [] (d ∷ ds) = false
same_layout (c ∷ cs) [] = false
same_layout (c ∷ cs) (d ∷ ds) = same_court c d && same_layout cs ds

-- Without blanks and repeats, in order.
unfoldable pub dedupe_from : List String → List String → List String
dedupe_from seen [] = []
dedupe_from seen (x ∷ xs) =
    if str_eq x "" || contains seen x then dedupe_from seen xs else x ∷ dedupe_from (x ∷ seen) xs

unfoldable pub dedupe_ids : List String → List String
unfolding dedupe_from
dedupe_ids ids = dedupe_from [] ids

-- A seat that is blank, or whose player has left.
abbrev pub vacant : List String → String → Bool
vacant left x = str_eq x "" || contains left x

unfoldable pub not_left : List String → List String → List String
not_left left [] = []
not_left left (x ∷ xs) = if contains left x then not_left left xs else x ∷ not_left left xs

-- The ids of a list that still hold a seat.
unfoldable pub survivors : List String → List String → List String
survivors left [] = []
survivors left (x ∷ xs) = if vacant left x then survivors left xs else x ∷ survivors left xs

-- One seat, or one court, with those still waiting and whether a seat was stranded.
pub record Filled {ℓ} (A : Type ℓ) : Type ℓ where
  pub value : A
  pub waiting : List String
  pub stranded : Bool

unfoldable pub fill_seat : List String → String → List String → Filled String
fill_seat left seat waiting =
    if vacant left seat
    then elim waiting [
      | [] ↦ record { value = seat; waiting = []; stranded = true }
      | w ∷ ws ↦ record { value = w; waiting = ws; stranded = false }
    ]
    else record { value = seat; waiting = waiting; stranded = false }

unfoldable pub fill_court : List String → RotCourt → List String → Filled RotCourt
unfolding fill_seat
fill_court left c waiting =
    let a0 = fill_seat left c.team_a.0 waiting in
    let a1 = fill_seat left c.team_a.1 a0.waiting in
    let b0 = fill_seat left c.team_b.0 a1.waiting in
    let b1 = fill_seat left c.team_b.1 b0.waiting in
    record {
      value = record c { team_a = (a0.value, a1.value); team_b = (b0.value, b1.value) };
      waiting = b1.waiting;
      stranded = a0.stranded || a1.stranded || b0.stranded || b1.stranded;
    }

-- From the bottom court up.
unfoldable pub fill_courts : List String → List RotCourt → List String → Filled (List RotCourt)
unfolding fill_court
fill_courts left [] waiting = record { value = []; waiting = waiting; stranded = false }
fill_courts left (c ∷ cs) waiting =
    let below = fill_courts left cs waiting in
    let here = fill_court left c below.waiting in
    record {
      value = here.value ∷ below.value;
      waiting = here.waiting;
      stranded = below.stranded || here.stranded;
    }

-- All courts but the last, and the ids of the last.
abbrev pub without_last : List RotCourt → List RotCourt
without_last [] = []
without_last (c ∷ []) = []
without_last (c ∷ d ∷ cs) = c ∷ without_last (d ∷ cs)

abbrev pub last_ids : List RotCourt → List String
last_ids [] = []
last_ids (c ∷ []) = court_ids c
last_ids (c ∷ d ∷ cs) = last_ids (d ∷ cs)

-- Each turn that goes on drops a court: the number of courts is fuel enough.
unfoldable pub settle_loop : ℕ → List String → List RotCourt → List String → Round
unfolding fill_courts survivors
settle_loop zero left courts waiting = record { courts = courts; bench = waiting }
settle_loop (suc fuel) left courts waiting =
    let filled = fill_courts left courts waiting in
    let again =
      settle_loop fuel left (without_last filled.value)
        (survivors left (last_ids filled.value) ++ filled.waiting) in
    if not filled.stranded
    then record { courts = filled.value; bench = filled.waiting }
    else if leb (length filled.value) 1
    then record { courts = []; bench = survivors left (seated filled.value) ++ filled.waiting }
    else again

unfoldable pub settle_departures : List RotCourt → List String → List String → Round
unfolding settle_loop not_left
settle_departures courts bench [] = record { courts = courts; bench = bench }
settle_departures courts bench (l ∷ left) =
    settle_loop (suc (length courts)) (l ∷ left) courts (not_left (l ∷ left) bench)

-- A court at the bottom for each four at the front of the bench, up to the cap if that is positive.
unfoldable pub grow_courts : List RotCourt → List String → ℤ → Round
grow_courts courts [] max_courts = record { courts = courts; bench = [] }
grow_courts courts (a ∷ []) max_courts = record { courts = courts; bench = a ∷ [] }
grow_courts courts (a ∷ b ∷ []) max_courts = record { courts = courts; bench = a ∷ b ∷ [] }
grow_courts courts (a ∷ b ∷ c ∷ []) max_courts = record { courts = courts; bench = a ∷ b ∷ c ∷ [] }
grow_courts courts (a ∷ b ∷ c ∷ d ∷ bench) max_courts =
    let court : RotCourt = record { court = length courts + 1; team_a = (a, c); team_b = (b, d) } in
    let grown = grow_courts (courts ++ court ∷ []) bench max_courts in
    if ltb_ℤ (pos 0) max_courts && not (ltb_ℤ (pos (length courts)) max_courts)
    then record { courts = courts; bench = a ∷ b ∷ c ∷ d ∷ bench }
    else grown
