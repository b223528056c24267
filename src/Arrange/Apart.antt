-- ===== src/Arrange/Apart.antt =====
-- The interleaving mode: no two placements share a court and a slot, or a player without the rest.
use plan_my_pickle_backend.Base.{
  ℕ, suc, ◌+◌, ◌≤◌, ◌<◌, ◌≡◌, ◌≢◌, refl, sym, subst, ap, ◌∙◌, inl, inr, true, false, some, List, [],
  ◌∷◌, ◌++◌, String, str_eq, Bool-cases, All, All-map, contains, arith, eq_iff, ==_iff,
  some-injective,
}
use plan_my_pickle_backend.Arrange.{
  Agenda, Board, Turn, SlotSeat, has_court, sits_at, last_of, is_resting, seats_of, conflict_among,
  conflict_at, place_next, new_slot, max_slots, first_turn, arrange_placements,
}
use plan_my_pickle_backend.Arrange.Keyed.{Placement, Pairwise, without_id-All, without_id-Pairwise}
use plan_my_pickle_backend.Arrange.Steps.{Step, put, next, interleave_loop-keep, cur_match}

-- Of two placements the first stands before the second in every player that they share, by more
-- than the rest; and in one slot they have two courts.
abbrev pub IsApart : Agenda → Placement → Placement → Type 0
IsApart i q p =
    (q.1.slot ≡ p.1.slot → q.1.court ≢ p.1.court)
    × ((a : String)
        → contains (i.match_players q.0) a ≡ true
        → contains (i.match_players p.0) a ≡ true
        → q.1.slot + i.min_rest_slots < p.1.slot)

-- Every placement is apart from those after it in the list, the earlier ones.
abbrev pub IsSpread : Agenda → List Placement → Type 0
IsSpread i = Pairwise (IsApart i)

-- The tables know of a placement.
abbrev IsKnown : Agenda → ℕ → Turn → Placement → Type 0
IsKnown i slot t q =
    (q.1.slot ≤ slot)
    × (q.1.slot ≡ slot → has_court t.used_court q.1.court ≡ true)
    × ((a : String)
        → contains (i.match_players q.0) a ≡ true
        → (sits_at t.board.occupied q.1.slot a ≡ true)
          × (s : ℕ) × (last_of t.board.last_slot a ≡ some s)
          × (q.1.slot ≤ s))

abbrev IsSound : Agenda → ℕ → Turn → Type 0
IsSound i slot t = IsSpread i t.board.placements × All (IsKnown i slot t) t.board.placements

sits_at-front :
    (slot : ℕ) (players : List String) (seats : List SlotSeat) (a : String)
    → contains players a ≡ true
    → sits_at (seats_of slot players ++ seats) slot a ≡ true
sits_at-front slot [] seats a h = ground arith
sits_at-front slot (x ∷ players) seats a h =
    ground (arith, ==_iff slot slot, sits_at-front slot players seats a)

sits_at-behind :
    (front seats : List SlotSeat) (slot : ℕ) (a : String)
    → sits_at seats slot a ≡ true
    → sits_at (front ++ seats) slot a ≡ true
sits_at-behind [] seats slot a h = h
sits_at-behind (x ∷ front) seats slot a h = ground (arith, sits_at-behind front seats slot a)

last_of-front :
    (slot : ℕ) (players : List String) (seats : List SlotSeat) (a : String)
    → contains players a ≡ true
    → last_of (seats_of slot players ++ seats) a ≡ some slot
last_of-front slot [] seats a h = ground arith
last_of-front slot (x ∷ players) seats a h = ground (arith, last_of-front slot players seats a)

last_of-behind :
    (slot : ℕ) (players : List String) (seats : List SlotSeat) (a : String)
    → contains players a ≡ false
    → last_of (seats_of slot players ++ seats) a ≡ last_of seats a
last_of-behind slot [] seats a h = refl
last_of-behind slot (x ∷ players) seats a h = ground (arith, last_of-behind slot players seats a)

conflict_among-false :
    (m : ℕ) (b : Board) (slot : ℕ) (players : List String) (a : String)
    → conflict_among m b slot players ≡ false
    → contains players a ≡ true
    → (sits_at b.occupied slot a ≡ false) × (is_resting m slot (last_of b.last_slot a) ≡ false)
unfolding conflict_among
conflict_among-false m b slot [] a h mem = ground arith
conflict_among-false m b slot (x ∷ players) a h mem = elim (Bool-cases (str_eq x a)) [
  | inl same ↦
      let e : x ≡ a = (eq_iff x a).0 same in
      subst
        (λ y.
          (sits_at b.occupied slot y ≡ false) × (is_resting m slot (last_of b.last_slot y) ≡ false))
        e (ground (arith, h))
  | inr other ↦
      conflict_among-false m b slot players a (ground (arith, h)) (ground (arith, mem, other))
]

rest_before :
    (m slot low s : ℕ)
    → low ≤ slot
    → low ≤ s
    → is_resting m slot (some s) ≡ false
    → low ≢ slot
    → low + m < slot
rest_before m slot low s h late awake apart = ground arith

conflict_at-false :
    (i : Agenda) (b : Board) (slot : ℕ) (m a : String)
    → conflict_at i b slot m ≡ false
    → contains (i.match_players m) a ≡ true
    → (sits_at b.occupied slot a ≡ false)
      × (is_resting i.min_rest_slots slot (last_of b.last_slot a) ≡ false)
unfolding conflict_at
conflict_at-false i b slot m a h mem =
    conflict_among-false i.min_rest_slots b slot (i.match_players m) a h mem

module _ (i : Agenda) (slot : ℕ) (t : Turn) (m : String) (court : ℕ)
    (free : has_court t.used_court court ≡ false)
    (fine : conflict_at i t.board slot m ≡ false) where
  IsKnown-IsApart :
      (q : Placement) → IsKnown i slot t q → IsApart i q (m, record { court = court; slot = slot })
  IsKnown-IsApart (n, q) (low, used, tables) = (
    λ same e. absurd (
        let both : true ≡ false = sym (used same) ∙ ap (has_court t.used_court) e ∙ free in
        ground arith),
    λ a in_q in_p.
        let (sits, s, last, late) = tables a in_q in
        let (vacant, rested) = conflict_at-false i t.board slot m a fine in_p in
        let awake : is_resting i.min_rest_slots slot (some s) ≡ false =
          sym (ap (is_resting i.min_rest_slots slot) last) ∙ rested in
        rest_before i.min_rest_slots slot q.slot s low late awake (λ e. absurd (
          let both : true ≡ false = sym sits ∙ ap (λ n. sits_at t.board.occupied n a) e ∙ vacant in
          ground arith)),
  )

  IsKnown-put :
      (div : String) (q : Placement)
      → IsKnown i slot t q
      → IsKnown i slot (place_next i slot div m court t) q
  IsKnown-put div (n, q) (low, used, tables) = (
    low,
    λ same. ground (arith, used same),
    λ a in_q.
        let (sits, s, last, late) = tables a in_q in
        let players = i.match_players m in
        let sits' = sits_at-behind (seats_of slot players) t.board.occupied q.slot a sits in
        elim (Bool-cases (contains players a)) [
          | inl plays ↦ (sits', slot, last_of-front slot players t.board.last_slot a plays, low)
          | inr not_in ↦
              (sits', s, last_of-behind slot players t.board.last_slot a not_in ∙ last, late)
        ],
  )

  IsKnown-new :
      (div : String)
      → IsKnown i slot (place_next i slot div m court t) (m, record { court = court; slot = slot })
  IsKnown-new div = (
    omega arith,
    λ same. ground (arith, ==_iff court court),
    λ a plays. (
      sits_at-front slot (i.match_players m) t.board.occupied a plays,
      slot,
      last_of-front slot (i.match_players m) t.board.last_slot a plays,
      omega arith,
    ),
  )

Step-IsSound :
    (i : Agenda) (slot : ℕ) (t u : Turn) → Step i slot t u → IsSound i slot t → IsSound i slot u
Step-IsSound i slot _ _ (put t div court known going left own free fine) (spread, all) =
    let m = cur_match i t div in
    (
      (
        without_id-All _ m t.board.placements
            (All-map _ _ t.board.placements (IsKnown-IsApart i slot t m court free fine) all),
        without_id-Pairwise (IsApart i) m t.board.placements spread,
      ),
      (
        IsKnown-new i slot t m court free fine div,
        without_id-All _ m t.board.placements
            (All-map _ _ t.board.placements (IsKnown-put i slot t m court free fine div) all),
      ),
    )
Step-IsSound i slot _ _ (next t div known going over) sound = sound

-- A new slot, with no court taken.
IsSound-new :
    (i : Agenda) (slot : ℕ) (t : Turn) → IsSound i slot t → IsSound i (suc slot) (new_slot t)
IsSound-new i slot t (spread, all) = (
  spread,
  All-map _ _ t.board.placements
      (λ q (low, used, tables). (omega arith, λ same. absurd (omega arith), tables)) all,
)

-- Interleaved, two placements of one slot are on different courts, and between two placements that
-- share a player lie at least as many slots as the rest asks for; so nobody plays twice in a slot.
pub arrange_placements-IsSpread :
    (i : Agenda) {b : Board} → arrange_placements i true ≡ some b → IsSpread i b.placements
unfolding arrange_placements
arrange_placements-IsSpread i e =
    let (slot, sound) =
      interleave_loop-keep i (IsSound i) (Step-IsSound i) (IsSound-new i) (suc (max_slots i)) 0
        (first_turn i) (tt, tt) in
    subst (λ b. IsSpread i b.placements) (some-injective _ _ e) sound.0
