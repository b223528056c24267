-- ===== src/Arrange.antt =====
-- internal/service/service.go: arrangePlacements, which gives each pool match of the divisions a
-- court and a time slot. A Go map is a function, or a list of its entries with the newest first.
pub mod Steps
pub mod Apart
pub mod Own
pub mod Left
pub mod Ready
pub mod Finish
pub mod Going
pub mod Complete
pub mod Rounds
pub mod InTurn
pub mod Keyed
use plan_my_pickle_backend.Base.{
  ℕ, zero, suc, ◌+◌, ◌-◌, ◌*◌, Bool, true, false, ◌&&◌, ◌||◌, Option, none, some, List, [], ◌∷◌,
  ◌++◌, String, str_eq, ltb, leb, ◌==◌, if◌then◌else◌, length, get_elem?, get_or,
}

pub record CourtPlacement : Type 0 where
  pub court : ℕ
  pub slot : ℕ

-- The arguments of the call, but for the mode.
pub record Agenda : Type 0 where
  pub div_order : List String
  pub div_rounds : String → List (List String)
  pub div_courts : String → List ℕ
  pub court_nums : List ℕ
  pub match_players : String → List String
  pub total_matches : ℕ
  pub min_rest_slots : ℕ

-- An entry of `occupied` (slot -> players) or of `lastSlot` (player -> slot).
pub record SlotSeat : Type 0 where
  pub player_id : String
  pub seat_slot : ℕ

pub record Board : Type 0 where
  pub occupied : List SlotSeat
  pub last_slot : List SlotSeat
  pub placements : List (String × CourtPlacement)
  pub scheduled : ℕ

abbrev pub no_placements : Board
no_placements = record { occupied = []; last_slot = []; placements = []; scheduled = 0 }

abbrev pub sits_at : List SlotSeat → ℕ → String → Bool
sits_at [] slot a = false
sits_at (s ∷ seats) slot a = (s.seat_slot == slot && str_eq s.player_id a) || sits_at seats slot a

abbrev pub last_of : List SlotSeat → String → Option ℕ
last_of [] a = none
last_of (s ∷ seats) a = if str_eq s.player_id a then some s.seat_slot else last_of seats a

abbrev pub is_resting : ℕ → ℕ → Option ℕ → Bool
is_resting min_rest slot none = false
is_resting min_rest slot (some prev) = ltb 0 min_rest && leb (slot - prev) min_rest

unfoldable pub conflict_among : ℕ → Board → ℕ → List String → Bool
conflict_among min_rest b slot [] = false
conflict_among min_rest b slot (a ∷ players) =
    sits_at b.occupied slot a
    || is_resting min_rest slot (last_of b.last_slot a)
    || conflict_among min_rest b slot players

unfoldable pub conflict_at : Agenda → Board → ℕ → String → Bool
unfolding conflict_among
conflict_at i b slot match_id = conflict_among i.min_rest_slots b slot (i.match_players match_id)

abbrev pub seats_of : ℕ → List String → List SlotSeat
seats_of slot [] = []
seats_of slot (a ∷ players) = record { player_id = a; seat_slot = slot } ∷ seats_of slot players

abbrev pub mark_slot : Agenda → ℕ → String → Board → Board
mark_slot i slot match_id b = record b {
  occupied = seats_of slot (i.match_players match_id) ++ b.occupied;
  last_slot = seats_of slot (i.match_players match_id) ++ b.last_slot;
}

-- A Go map has one entry of a key: what is written replaces it.
abbrev pub without_id : String → List (String × CourtPlacement) → List (String × CourtPlacement)
without_id match_id [] = []
without_id match_id (p ∷ placements) =
    let rest = without_id match_id placements in if str_eq match_id p.0 then rest else p ∷ rest

abbrev pub place_match : String → ℕ → ℕ → Board → Board
place_match match_id court slot b = record b {
  placements = (match_id, record { court = court; slot = slot }) ∷ without_id match_id b.placements;
  scheduled = b.scheduled + 1;
}

-- A division that has no courts takes all of them.
abbrev pub or_all : List ℕ → List ℕ → List ℕ
or_all all [] = all
or_all all (c ∷ courts) = c ∷ courts

abbrev pub courts_for : Agenda → String → List ℕ
courts_for i div = or_all i.court_nums (i.div_courts div)

-- The variables of the interleaving loop.
pub record Turn : Type 0 where
  pub board : Board
  pub round_idx : String → ℕ
  pub pos_in_round : String → ℕ
  pub remaining : ℕ
  pub used_court : List ℕ

abbrev pub set_at : (String → ℕ) → String → ℕ → String → ℕ
set_at f k v x = if str_eq k x then v else f x

abbrev pub has_court : List ℕ → ℕ → Bool
has_court [] c = false
has_court (d ∷ courts) c = d == c || has_court courts c

-- What a court of a division gets: its next match, placed and marked. Where Go counts `remaining`
-- below 0 the loop is over as at 0.
abbrev pub place_next : Agenda → ℕ → String → String → ℕ → Turn → Turn
place_next i slot div match_id court t = record t {
  board = mark_slot i slot match_id (place_match match_id court slot t.board);
  used_court = court ∷ t.used_court;
  pos_in_round = set_at t.pos_in_round div (t.pos_in_round div + 1);
  remaining = t.remaining - 1;
}

-- `none` where the loop over the courts breaks.
unfoldable pub court_turn : Agenda → ℕ → String → List String → ℕ → Turn → Option Turn
unfolding conflict_at
court_turn i slot div round court t =
    if leb (length round) (t.pos_in_round div)
    then none
    else if has_court t.used_court court
    then some t
    else if conflict_at i t.board slot (get_or round (t.pos_in_round div) "")
    then none
    else some (place_next i slot div (get_or round (t.pos_in_round div) "") court t)

unfoldable pub fill_division : Agenda → ℕ → String → List String → List ℕ → Turn → Turn
unfolding court_turn
fill_division i slot div round [] t = t
fill_division i slot div round (court ∷ courts) t = elim (court_turn i slot div round court t) [
  | none ↦ t
  | some t' ↦ fill_division i slot div round courts t'
]

-- On to the next round of a division, whose round is over.
abbrev pub end_round : String → Turn → Turn
end_round div t = record t {
  round_idx = set_at t.round_idx div (t.round_idx div + 1);
  pos_in_round = set_at t.pos_in_round div 0;
}

abbrev pub round_over : String → List String → Turn → Turn
round_over div round t = if leb (length round) (t.pos_in_round div) then end_round div t else t

unfoldable pub division_turn : Agenda → ℕ → String → Turn → Turn
unfolding fill_division
division_turn i slot div t =
    if leb (length (i.div_rounds div)) (t.round_idx div)
    then t
    else (let round = get_or (i.div_rounds div) (t.round_idx div) [] in
        round_over div round (fill_division i slot div round (courts_for i div) t))

unfoldable pub slot_turn : Agenda → ℕ → List String → Turn → Turn
unfolding division_turn
slot_turn i slot [] t = t
slot_turn i slot (div ∷ divs) t = slot_turn i slot divs (division_turn i slot div t)

abbrev pub new_slot : Turn → Turn
new_slot t = record t { used_court = [] }

-- The loop over the slots; `turns` is how many are left up to `maxSlots`.
unfoldable pub interleave_loop : ℕ → Agenda → ℕ → Turn → Turn
unfolding slot_turn
interleave_loop zero i slot t = t
interleave_loop (suc turns) i slot t = elim (ltb 0 t.remaining) [
  | true ↦ interleave_loop turns i (suc slot) (slot_turn i slot i.div_order (new_slot t))
  | false ↦ t
]

abbrev pub max_slots : Agenda → ℕ
max_slots i = i.total_matches * (i.min_rest_slots + 1) + length i.court_nums + 10

abbrev pub first_turn : Agenda → Turn
first_turn i = record {
  board = no_placements;
  round_idx = λ _. 0;
  pos_in_round = λ _. 0;
  remaining = i.total_matches;
  used_court = [];
}

-- The other mode. A match without a court, where Go panics, is `none`.
unfoldable pub place_round : List ℕ → ℕ → ℕ → List String → Board → Option (ℕ × Board)
place_round courts court_idx slot [] b = some (slot, b)
place_round courts court_idx slot (m ∷ round) b =
    let slot' = if court_idx == length courts then slot + 1 else slot in
    let idx = if court_idx == length courts then 0 else court_idx in
    elim (get_elem? courts idx) [
      | none ↦ none
      | some court ↦ place_round courts (idx + 1) slot' round (place_match m court slot' b)
    ]

unfoldable pub place_division : List ℕ → ℕ → List (List String) → Board → Option (ℕ × Board)
unfolding place_round
place_division courts slot [] b = some (slot, b)
place_division courts slot (round ∷ rounds) b = elim (place_round courts 0 slot round b) [
  | none ↦ none
  | some (slot', b') ↦ place_division courts (slot' + 1) rounds b'
]

unfoldable pub place_in_turn : Agenda → ℕ → List String → Board → Option Board
unfolding place_division
place_in_turn i slot [] b = some b
place_in_turn i slot (div ∷ divs) b =
    elim (place_division (courts_for i div) slot (i.div_rounds div) b) [
      | none ↦ none
      | some (slot', b') ↦ place_in_turn i slot' divs b'
    ]

unfoldable pub arrange_placements : Agenda → Bool → Option Board
unfolding interleave_loop place_in_turn
arrange_placements i true = some (interleave_loop (suc (max_slots i)) i 0 (first_turn i)).board
arrange_placements i false = place_in_turn i 0 i.div_order no_placements
