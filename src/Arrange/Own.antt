-- ===== src/Arrange/Own.antt =====
-- The interleaving mode keeps each division to its own courts.
use plan_my_pickle_backend.Base.{
  ℕ, zero, suc, ◌<◌, ◌≡◌, subst, true, some, some-injective, List, [], ◌∷◌, String, All, length,
  get_or, count, count-append, hit_self, arith,
}
use plan_my_pickle_backend.Arrange.{
  Agenda, Board, Turn, has_court, courts_for, max_slots, first_turn, arrange_placements,
}
use plan_my_pickle_backend.Arrange.Steps.{Step, put, next, interleave_loop-keep, cur_match}
use plan_my_pickle_backend.Arrange.Keyed.{Placement, without_id-All}
use plan_my_pickle_backend.Arrange.Left.{flatten}

-- The match is one of a division, and is placed on a court of the division.
abbrev pub IsOwn : Agenda → Placement → Type 0
IsOwn i p =
    (d : String) × (0 < count d i.div_order)
    × (0 < count p.0 (flatten (i.div_rounds d)))
    × (has_court (courts_for i d) p.1.court ≡ true)

get_or-count : (r : List String) (k : ℕ) → k < length r → 0 < count (get_or r k "") r
get_or-count [] k h = absurd (omega arith)
get_or-count (m ∷ r) zero h = omega (arith, hit_self m)
get_or-count (m ∷ r) (suc k) h = omega (arith, get_or-count r k (omega arith))

flatten-count :
    (a : String) (rounds : List (List String)) (ri : ℕ)
    → ri < length rounds
    → 0 < count a (get_or rounds ri [])
    → 0 < count a (flatten rounds)
flatten-count a [] ri less h = absurd (omega arith)
flatten-count a (r ∷ rounds) zero less h = omega (arith, h, count-append a r (flatten rounds))
flatten-count a (r ∷ rounds) (suc ri) less h =
    omega (arith, count-append a r (flatten rounds), flatten-count a rounds ri (omega arith) h)

Step-IsOwn :
    (i : Agenda) (slot : ℕ) (t u : Turn)
    → Step i slot t u
    → All (IsOwn i) t.board.placements
    → All (IsOwn i) u.board.placements
Step-IsOwn i slot _ _ (put t div court known going more own free fine) h = (
  (
    div,
    known,
    flatten-count _ (i.div_rounds div) (t.round_idx div) going
        (get_or-count (get_or (i.div_rounds div) (t.round_idx div) []) (t.pos_in_round div) more),
    own,
  ),
  without_id-All (IsOwn i) (cur_match i t div) t.board.placements h,
)
Step-IsOwn i slot _ _ (next t div known going over) h = h

-- Interleaved, each match that is placed is one of a division, and is on a court of that division.
pub arrange_placements-IsOwn :
    (i : Agenda) {b : Board} → arrange_placements i true ≡ some b → All (IsOwn i) b.placements
unfolding arrange_placements
arrange_placements-IsOwn i e =
    let (slot, own) =
      interleave_loop-keep i (λ _ t. All (IsOwn i) t.board.placements) (Step-IsOwn i)
        (λ slot t h. h) (suc (max_slots i)) 0 (first_turn i) tt in
    subst (λ b. All (IsOwn i) b.placements) (some-injective _ _ e) own
