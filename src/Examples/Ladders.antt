-- ===== src/Examples/Ladders.antt =====
-- A ladder of five, on which the fourth beats the second.
use plan_my_pickle_backend.Base.{
  ◌≡◌, refl, ap, [], ◌∷◌, ◌++◌, SameIds, hit, count, count-append, hit_self, arith,
}
use plan_my_pickle_backend.Ladder.{leapfrog_reorder, swap_reorder}
use plan_my_pickle_backend.Ladder.Moves.{leapfrog_reorder_lem}
use plan_my_pickle_backend.Ladder.Laws.{IsBelow, reorder-SameIds, reorder_unchanged}

leapfrog_example :
    leapfrog_reorder ("p1" ∷ "p2" ∷ "p3" ∷ "p4" ∷ "p5" ∷ []) "p4" "p2"
    ≡ "p1" ∷ "p4" ∷ "p2" ∷ "p3" ∷ "p5" ∷ []
unfolding hit
leapfrog_example = leapfrog_reorder_lem ("p1" ∷ []) ("p3" ∷ []) ("p5" ∷ []) "p4" "p2" refl refl

reordered_example :
    SameIds (leapfrog_reorder ("p1" ∷ "p2" ∷ "p3" ∷ []) "p3" "p2") ("p1" ∷ "p2" ∷ "p3" ∷ [])
    × SameIds (swap_reorder ("p1" ∷ "p2" ∷ "p3" ∷ []) "p3" "p2") ("p1" ∷ "p2" ∷ "p3" ∷ [])
reordered_example = reorder-SameIds ("p1" ∷ "p2" ∷ "p3" ∷ []) "p3" "p2"

-- Who is not on the ladder is not below anybody.
absent-not_IsBelow : ¬ IsBelow ("p1" ∷ "p2" ∷ "p3" ∷ []) "p9" "p2"
unfolding hit
absent-not_IsBelow b =
    let none_of_p9 : 0 ≡ count "p9" (b.above ++ "p2" ∷ b.between ++ "p9" ∷ b.rest) =
      ap (count "p9") b.split in
    omega (
      arith,
      none_of_p9,
      count-append "p9" (b.above ++ "p2" ∷ b.between) ("p9" ∷ b.rest),
      hit_self "p9",
    )

unchanged_example :
    (leapfrog_reorder ("p1" ∷ "p2" ∷ "p3" ∷ []) "p9" "p2" ≡ "p1" ∷ "p2" ∷ "p3" ∷ [])
    × (swap_reorder ("p1" ∷ "p2" ∷ "p3" ∷ []) "p9" "p2" ≡ "p1" ∷ "p2" ∷ "p3" ∷ [])
unchanged_example = reorder_unchanged ("p1" ∷ "p2" ∷ "p3" ∷ []) "p9" "p2" absent-not_IsBelow
