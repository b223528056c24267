-- ===== src/Arrange/Complete.antt =====
-- The interleaving mode places every match: the slots up to the bound are enough.
use plan_my_pickle_backend.Base.{
  ℕ, zero, suc, ◌+◌, ◌*◌, ◌≤◌, ◌<◌, ◌≡◌, ◌⊎◌, refl, sym, subst, ap, inl, inr, true, some, String,
  ltb, Bool-cases, All, All-map, length, IsDistinct, ids_by, weigh, count-weigh, hit, arith,
}
use plan_my_pickle_backend.Arrange.{
  Agenda, Board, Turn, courts_for, slot_turn, new_slot, interleave_loop, max_slots, first_turn,
  arrange_placements,
}
use plan_my_pickle_backend.Arrange.Keyed.{IsSetOf}
use plan_my_pickle_backend.Arrange.Steps.{
  Steps-keep, slot_turn-Steps, interleave_loop-over, interleave_loop-more, interleave_loop-keep,
  known_divisions,
}
use plan_my_pickle_backend.Arrange.Left.{IsKept, Step-IsKept, IsCounted, Step-IsCounted}
use plan_my_pickle_backend.Arrange.Finish.{IsFresh, slot_turn-places}
use plan_my_pickle_backend.Arrange.Ready.{IsReady, HasRounds, at-All, slot_turn-IsReady}
use plan_my_pickle_backend.Arrange.Going.{
  IsUpTo, IsGoing, Step-IsGoing, mul_place, mul_zero, matches_of, matches_of-weigh, weigh_one,
  left_none,
}

-- The state at the start of a slot.
abbrev IsOpen : Agenda → ℕ → ℕ → Turn → Type 0
IsOpen i idle slot t = IsCounted i t × IsReady i t × IsFresh idle slot t.board

module _ (i : Agenda) (distinct : IsDistinct i.div_order) (rounds : HasRounds i)
    (courts : All (λ d. 0 < length (courts_for i d)) i.div_order) where
  -- A slot: a match is placed in it, or everybody has rested a slot more.
  abbrev IsNextSlot : ℕ → ℕ → Turn → Turn → Type 0
  IsNextSlot idle slot t u =
      ((u.remaining < t.remaining) × IsOpen i 0 (suc slot) u)
      ⊎ ((u.remaining ≡ t.remaining) × (idle < i.min_rest_slots) × IsOpen i (suc idle) (suc slot) u)

  slot_turn-IsOpen :
      (idle slot : ℕ) (t : Turn)
      → IsOpen i idle slot t
      → idle ≤ i.min_rest_slots
      → 0 < t.remaining
      → IsNextSlot idle slot t (slot_turn i slot i.div_order (new_slot t))
  slot_turn-IsOpen idle slot t (counted, ready, fresh) low more =
      let u = slot_turn i slot i.div_order (new_slot t) in
      let steps = slot_turn-Steps i slot i.div_order (new_slot t) (known_divisions i.div_order) in
      let up : IsUpTo slot t.board = (
        All-map _ _ t.board.occupied (λ s h. omega (arith, h)) fresh.0,
        All-map _ _ t.board.last_slot (λ s h. omega (arith, h)) fresh.1,
      ) in
      let (counted', up', since) =
        Steps-keep i slot (IsGoing i slot t) (λ x y. Step-IsGoing i slot t x y distinct) steps
          (counted, up, inr (refl, refl)) in
      let ready' = slot_turn-IsReady i slot i.div_order (new_slot t) rounds ready in
      elim since [
        | inl fewer ↦ inl (
          fewer,
          (
            counted',
            ready',
            (
              All-map _ _ u.board.occupied (λ s h. omega (arith, h)) up'.0,
              All-map _ _ u.board.last_slot (λ s h. omega (arith, h)) up'.1,
            ),
          ),
        )
        | inr (same, board) ↦ elim (Bool-cases (ltb idle i.min_rest_slots)) [
          | inr rested ↦
              let placed =
                slot_turn-places i slot idle (ground (arith, rested)) i.div_order (new_slot t)
                  (known_divisions i.div_order) courts ready refl fresh more
                  (omega (arith, counted.0, more)) in
              absurd (omega (arith, placed, same))
          | inl tired ↦ inr (
            same,
            ground (arith, tired),
            (
              counted',
              ready',
              subst (IsFresh (suc idle) (suc slot)) (sym board) (
                All-map _ _ t.board.occupied (λ s h. omega (arith, h)) fresh.0,
                All-map _ _ t.board.last_slot (λ s h. omega (arith, h)) fresh.1,
              ),
            ),
          )
        ]
      ]

  interleave_loop-remaining :
      (turns idle slot : ℕ) (t : Turn)
      → IsOpen i idle slot t
      → idle ≤ i.min_rest_slots
      → t.remaining * (i.min_rest_slots + 1) ≤ turns + idle
      → (interleave_loop turns i slot t).remaining ≡ 0
  unfolding interleave_loop
  interleave_loop-remaining zero idle slot t opened low enough =
      mul_zero t.remaining i.min_rest_slots idle (omega (arith, enough)) low
  interleave_loop-remaining (suc turns) idle slot t opened low enough =
      elim (Bool-cases (ltb 0 t.remaining)) [
        | inr over ↦
            subst (λ u. u.remaining ≡ 0) (sym (interleave_loop-over i (suc turns) slot t over))
              (ground (arith, over))
        | inl more ↦
            let u = slot_turn i slot i.div_order (new_slot t) in
            subst (λ v. v.remaining ≡ 0) (sym (interleave_loop-more i turns slot t more))
              (elim (slot_turn-IsOpen idle slot t opened low (ground (arith, more))) [
                | inl (fewer, opened') ↦
                    let placed =
                      mul_place t.remaining u.remaining i.min_rest_slots turns idle fewer enough
                        low in
                    interleave_loop-remaining turns 0 (suc slot) u opened' (omega arith)
                      (omega (arith, placed))
                | inr (same, tired, opened') ↦
                    let e = ap (λ r. r * (i.min_rest_slots + 1)) same in
                    interleave_loop-remaining turns (suc idle) (suc slot) u opened' (omega arith)
                      (omega (arith, enough, e))
              ])
      ]

-- Interleaved, with the divisions distinct, no round empty and a court for every division: if the count
-- of the matches is right, each match of the rounds has one placement, nothing else has one, and all
-- are counted, before the bound on the slots stops the loop.
pub arrange_placements-IsSetOf :
    (i : Agenda)
    → IsDistinct i.div_order
    → HasRounds i
    → All (λ d. 0 < length (courts_for i d)) i.div_order
    → i.total_matches ≡ length (matches_of i i.div_order)
    → (b : Board) × (arrange_placements i true ≡ some b)
      × IsSetOf (ids_by (λ p. p.0) b.placements) (matches_of i i.div_order)
      × (b.scheduled ≡ i.total_matches)
unfolding arrange_placements
arrange_placements-IsSetOf i distinct rounds courts right =
    let turns = suc (max_slots i) in
    let end = interleave_loop turns i 0 (first_turn i) in
    let all_left = matches_of-weigh i (λ _. 1) i.div_order in
    let one = weigh_one (matches_of i i.div_order) in
    let counted : IsCounted i (first_turn i) = (omega (arith, right, all_left, one), omega arith) in
    let ready : IsReady i (first_turn i) = λ x less. at-All (i.div_rounds x) 0 (rounds x) less in
    let none_left =
      interleave_loop-remaining i distinct rounds courts turns i.min_rest_slots 0 (first_turn i)
        (counted, ready, (tt, tt)) (omega arith) (omega arith) in
    let (_, (rest, all)) =
      interleave_loop-keep i (λ _. IsCounted i) (λ slot t u. Step-IsCounted i slot t u distinct)
        (λ slot t c. c) turns 0 (first_turn i) counted in
    (
      end.board,
      refl,
      λ a.
          let g = λ (y : String). hit y a in
          let n = weigh g (matches_of i i.div_order) in
          let (_, (k, placed, one)) =
            interleave_loop-keep i (λ _. IsKept i a n)
              (λ slot t u. Step-IsKept i a n slot t u distinct) (λ slot t h. h) turns 0
              (first_turn i) (0, omega (arith, matches_of-weigh i g i.div_order), refl) in
          let gone =
            left_none i g end.round_idx end.pos_in_round i.div_order
              (omega (arith, none_left, rest)) in
          omega (arith, one, placed, gone, count-weigh a (matches_of i i.div_order)),
      omega (arith, none_left, all),
    )
