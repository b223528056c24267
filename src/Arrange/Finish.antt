-- ===== src/Arrange/Finish.antt =====
-- The interleaving mode places every match, well before the bound on the slots stops it.
use plan_my_pickle_backend.Base.{
  ℕ, ◌+◌, ◌≤◌, ◌<◌, ◌≡◌, refl, sym, subst, inl, inr, true, false, some, List, [], ◌∷◌, String, leb,
  Bool-cases, All, length, count, weigh, arith,
}
use plan_my_pickle_backend.Arrange.{
  Agenda, Board, Turn, SlotSeat, courts_for, has_court, sits_at, last_of, is_resting,
  conflict_among, conflict_at, court_turn, fill_division, division_turn, slot_turn, place_next,
  round_over,
}
use plan_my_pickle_backend.Arrange.Steps.{
  Step, put, next, Steps, Steps-keep, cur_round, cur_match, fill_division-some, fill_division-Steps,
  court_turn-put, has_court_self, slot_turn-Steps,
}
use plan_my_pickle_backend.Arrange.Ready.{IsReady, division_turn-done, division_turn-going}
use plan_my_pickle_backend.Arrange.Left.{left, left_in, left_of_done}

-- No player sits in the slot, and every one has rested for `idle` slots or more.
abbrev pub IsFresh : ℕ → ℕ → Board → Type 0
IsFresh idle slot b =
    All (λ s. s.seat_slot < slot) b.occupied × All (λ s. s.seat_slot + idle < slot) b.last_slot

sits_at-fresh :
    (seats : List SlotSeat) (slot : ℕ) (a : String)
    → All (λ s. s.seat_slot < slot) seats
    → sits_at seats slot a ≡ false
sits_at-fresh [] slot a h = refl
sits_at-fresh (s ∷ seats) slot a h = ground (arith, h, sits_at-fresh seats slot a h.1)

is_resting-fresh :
    (m idle slot : ℕ) (seats : List SlotSeat) (a : String)
    → m ≤ idle
    → All (λ s. s.seat_slot + idle < slot) seats
    → is_resting m slot (last_of seats a) ≡ false
is_resting-fresh m idle slot [] a h fresh = refl
is_resting-fresh m idle slot (s ∷ seats) a h fresh =
    ground (arith, fresh, is_resting-fresh m idle slot seats a h fresh.1)

conflict_among-fresh :
    (m idle : ℕ) (b : Board) (slot : ℕ) (players : List String)
    → m ≤ idle
    → IsFresh idle slot b
    → conflict_among m b slot players ≡ false
unfolding conflict_among
conflict_among-fresh m idle b slot [] h fresh = refl
conflict_among-fresh m idle b slot (a ∷ players) h fresh = ground (
  arith,
  sits_at-fresh b.occupied slot a fresh.0,
  is_resting-fresh m idle slot b.last_slot a h fresh.1,
  conflict_among-fresh m idle b slot players h fresh,
)

conflict_at-fresh :
    (i : Agenda) (idle : ℕ) (b : Board) (slot : ℕ) (m : String)
    → i.min_rest_slots ≤ idle
    → IsFresh idle slot b
    → conflict_at i b slot m ≡ false
unfolding conflict_at
conflict_at-fresh i idle b slot m h fresh =
    conflict_among-fresh i.min_rest_slots idle b slot (i.match_players m) h fresh

Step-remaining : (i : Agenda) (slot : ℕ) (t u : Turn) → Step i slot t u → u.remaining ≤ t.remaining
Step-remaining i slot _ _ (put t div court known going more own free fine) = omega arith
Step-remaining i slot _ _ (next t div known going over) = omega arith

Steps-remaining :
    (i : Agenda) (slot : ℕ) (t u : Turn) → Steps i slot t u → u.remaining ≤ t.remaining
Steps-remaining i slot t u steps =
    Steps-keep i slot (λ v. v.remaining ≤ t.remaining)
      (λ v w s h. omega (arith, h, Step-remaining i slot v w s)) steps (omega arith)

round_over-remaining :
    (div : String) (round : List String) (u : Turn)
    → (round_over div round u).remaining ≡ u.remaining
round_over-remaining div round u = elim (Bool-cases (leb (length round) (u.pos_in_round div))) [
  | inl over ↦ rw over refl
  | inr more ↦ rw more refl
]

module _ (i : Agenda) (slot idle : ℕ) (rested : i.min_rest_slots ≤ idle) where
  -- A court of a division that has a match to place takes it.
  first_court :
      (div : String) (t : Turn) (courts : List ℕ)
      → 0 < count div i.div_order
      → t.round_idx div < length (i.div_rounds div)
      → t.pos_in_round div < length (cur_round i t div)
      → t.used_court ≡ []
      → IsFresh idle slot t.board
      → 0 < length courts
      → All (λ c. has_court (courts_for i div) c ≡ true) courts
      → 0 < t.remaining
      → (fill_division i slot div (cur_round i t div) courts t).remaining < t.remaining
  first_court div t [] known going more unused fresh some_court own left = absurd (omega arith)
  first_court div t (c ∷ courts) known going more unused fresh some_court own left =
      let m = cur_match i t div in
      let t' = place_next i slot div m c t in
      let over : leb (length (cur_round i t div)) (t.pos_in_round div) ≡ false =
        ground (arith, more) in
      let free : has_court t.used_court c ≡ false = rw unused refl in
      let fine = conflict_at-fresh i idle t.board slot m rested fresh in
      let e : court_turn i slot div (cur_round i t div) c t ≡ some t' =
        court_turn-put i slot div c t over free fine in
      let (steps, same) = fill_division-Steps i slot div known courts t' going own.1 in
      let less = Steps-remaining i slot t' _ steps in
      rw (fill_division-some i slot div (cur_round i t div) c courts t t' e)
        (omega (arith, less, left))

  division_turn-places :
      (div : String) (t : Turn)
      → 0 < count div i.div_order
      → t.round_idx div < length (i.div_rounds div)
      → IsReady i t
      → t.used_court ≡ []
      → IsFresh idle slot t.board
      → 0 < length (courts_for i div)
      → 0 < t.remaining
      → (division_turn i slot div t).remaining < t.remaining
  division_turn-places div t known going ready unused fresh some_court left =
      let filled =
        first_court div t (courts_for i div) known going (ready div going) unused fresh some_court
          (has_court_self (courts_for i div)) left in
      let u = fill_division i slot div (cur_round i t div) (courts_for i div) t in
      rw (division_turn-going i slot div t going)
        (omega (arith, filled, round_over-remaining div (cur_round i t div) u))

  -- The first division that has something left places a match.
  pub slot_turn-places :
      (divs : List String) (t : Turn)
      → All (λ d. 0 < count d i.div_order) divs
      → All (λ d. 0 < length (courts_for i d)) divs
      → IsReady i t
      → t.used_court ≡ []
      → IsFresh idle slot t.board
      → 0 < t.remaining
      → 0 < weigh (left_in i (λ _. 1) t.round_idx t.pos_in_round) divs
      → (slot_turn i slot divs t).remaining < t.remaining
  unfolding slot_turn
  slot_turn-places [] t known courts ready unused fresh more some_left = absurd (omega arith)
  slot_turn-places (d ∷ divs) t known courts ready unused fresh more some_left =
      elim (Bool-cases (leb (length (i.div_rounds d)) (t.round_idx d))) [
        | inl done ↦
            let over : length (i.div_rounds d) ≤ t.round_idx d = ground (arith, done) in
            let none_left =
              left_of_done (λ _. 1) (i.div_rounds d) (t.round_idx d) (t.pos_in_round d) over in
            subst (λ u. (slot_turn i slot divs u).remaining < t.remaining)
              (sym (division_turn-done i slot d t over))
              (slot_turn-places divs t known.1 courts.1 ready unused fresh more
                (omega (arith, some_left, none_left)))
        | inr going ↦
            let u = division_turn i slot d t in
            let placed =
              division_turn-places d t known.0 (ground (arith, going)) ready unused fresh courts.0
                more in
            let later = Steps-remaining i slot u _ (slot_turn-Steps i slot divs u known.1) in
            omega (arith, placed, later)
      ]
