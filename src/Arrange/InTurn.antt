-- ===== src/Arrange/InTurn.antt =====
-- The other mode of arrangePlacements: the divisions play one after the other.
use plan_my_pickle_backend.Base.{
  ℕ, suc, ◌+◌, ◌<◌, ◌≡◌, refl, ap, ◌∙◌, inl, false, some, List, [], ◌∷◌, ◌++◌, String, All, All-map,
  length, count, count-append, arith, min, length-append,
}
use plan_my_pickle_backend.Arrange.{
  Agenda, Board, courts_for, place_division, place_in_turn, arrange_placements, no_placements,
}
use plan_my_pickle_backend.Arrange.Keyed.{Pairwise, IsSetOf}
use plan_my_pickle_backend.Arrange.Left.{flatten}
use plan_my_pickle_backend.Arrange.Going.{matches_of}
use plan_my_pickle_backend.Arrange.Rounds.{IsCourtSet, IsClear, ids_on, IsAdded, place_round-Placed}

-- First the matches of one list, then those of another.
IsAdded-append :
    (ms ns : List String) (b b1 b2 : Board)
    → IsAdded ms b b1
    → IsAdded ns b1 b2
    → IsAdded (ms ++ ns) b b2
IsAdded-append ms ns b b1 b2 (_, n1, kept1) (clear, n2, kept2) = (
  clear,
  omega (arith, n1, n2, length-append ms ns),
  λ a k h.
      let both = kept2 a (k + count a ms) (kept1 a k h) in
      omega (arith, both, count-append a ms ns),
)

abbrev IsBefore : ℕ → Board → Type 0
IsBefore slot b = All (λ q. q.1.slot < slot) b.placements

module _ (courts : List ℕ) (set : IsCourtSet courts) (some_court : 0 < length courts) where
  place_division-lem :
      (rounds : List (List String)) (slot : ℕ) (b : Board)
      → IsBefore slot b
      → Pairwise IsClear b.placements
      → (slot' : ℕ) × (b' : Board) × (place_division courts slot rounds b ≡ some (slot', b'))
        × IsBefore slot' b'
        × IsAdded (flatten rounds) b b'
  unfolding place_division
  place_division-lem [] slot b before clear =
      (slot, b, refl, before, (clear, omega arith, λ a k h. omega (arith, h)))
  place_division-lem (round ∷ rounds) slot b before clear =
      let (slot1, b1, run, _, behind, added) =
        place_round-Placed courts set some_court round 0 slot b (omega arith)
          (All-map _ _ b.placements (λ q h. inl h) before) clear in
      let one : slot1 + 1 ≡ suc slot1 = omega arith in
      let (slot', b', rest, end, more) = place_division-lem rounds (suc slot1) b1 behind added.0 in
      (
        slot',
        b',
        rw (run, one, place_division) rest,
        end,
        IsAdded-append round (flatten rounds) b b1 b' added more,
      )

place_in_turn-lem :
    (i : Agenda) (divs : List String) (slot : ℕ) (b : Board)
    → All (λ d. IsCourtSet (courts_for i d) × (0 < length (courts_for i d))) divs
    → IsBefore slot b
    → Pairwise IsClear b.placements
    → (b' : Board) × (place_in_turn i slot divs b ≡ some b') × IsAdded (matches_of i divs) b b'
unfolding place_in_turn
place_in_turn-lem i [] slot b courts before clear =
    (b, refl, (clear, omega arith, λ a k h. omega (arith, h)))
place_in_turn-lem i (d ∷ divs) slot b courts before clear =
    let (slot1, b1, run, before1, added) =
      place_division-lem (courts_for i d) courts.0.0 courts.0.1 (i.div_rounds d) slot b before
        clear in
    let (b', rest, more) = place_in_turn-lem i divs slot1 b1 courts.1 before1 added.0 in
    (
      b',
      rw (run, place_in_turn) rest,
      IsAdded-append (flatten (i.div_rounds d)) (matches_of i divs) b b1 b' added more,
    )

zero_add : (n : ℕ) → 0 + n ≡ n
zero_add n = omega arith

-- One division after the other, each with a court or more, all different: each match of the rounds has
-- one placement, nothing else has one, as many are counted as the rounds hold, and no two placements
-- share a court and a slot.
pub arrange_placements_in_turn :
    (i : Agenda)
    → All (λ d. IsCourtSet (courts_for i d) × (0 < length (courts_for i d))) i.div_order
    → (b : Board) × (arrange_placements i false ≡ some b)
      × IsSetOf (ids_on b) (matches_of i i.div_order)
      × (b.scheduled ≡ length (matches_of i i.div_order))
      × Pairwise IsClear b.placements
unfolding arrange_placements
arrange_placements_in_turn i courts =
    let (b, run, (clear, n, kept)) = place_in_turn-lem i i.div_order 0 no_placements courts tt tt in
    (
      b,
      run,
      λ a. kept a 0 refl ∙ ap (min 1) (zero_add (count a (matches_of i i.div_order))),
      omega (arith, n),
      clear,
    )
