-- ===== src/Ladder/Laws.antt =====
-- A result reorders a ladder only if the winner stood below the loser, and never loses anybody.
use plan_my_pickle_backend.Base.{
  ◌≡◌, ◌⊎◌, inl, inr, refl, sym, ap, ◌∙◌, some, List, ◌∷◌, ◌++◌, String, str_eq, leb, count,
  count-append, SameIds, Bool-cases, Option-cases, arith,
}
use plan_my_pickle_backend.Ladder.{index_of, leapfrog_reorder, swap_reorder}
use plan_my_pickle_backend.Ladder.Moves.{
  index_of-some, index_of_prefix, leapfrog_reorder_lem, swap_reorder_lem,
}

-- The first place of `winner` is below the first place of `loser`.
pub record IsBelow (order : List String) (winner loser : String) : Type 0 where
  pub above : List String
  pub between : List String
  pub rest : List String
  pub split : order ≡ above ++ loser ∷ between ++ winner ∷ rest
  pub first_loser : count loser above ≡ 0
  pub first_winner : count winner (above ++ loser ∷ between) ≡ 0

pub reorder-cases :
    (order : List String) (winner loser : String)
    → IsBelow order winner loser
      ⊎ ((leapfrog_reorder order winner loser ≡ order) × (swap_reorder order winner loser ≡ order))
unfolding leapfrog_reorder swap_reorder
reorder-cases order winner loser = elim (Bool-cases (str_eq winner loser)) [
  | inl t ↦ inr (rw t refl, rw t refl)
  | inr f ↦ elim (Option-cases (index_of order winner)) [
    | inl n ↦ inr (rw (f, n) refl, rw (f, n) refl)
    | inr (wi, w) ↦ elim (Option-cases (index_of order loser)) [
      | inl n ↦ inr (rw (f, w, n) refl, rw (f, w, n) refl)
      | inr (li, l) ↦ elim (Bool-cases (leb wi li)) [
        | inl up ↦ inr (rw (f, w, l, up) refl, rw (f, w, l, up) refl)
        | inr down ↦
            let (higher, rest, split, len, first_winner) = index_of-some order winner wi w in
            let l' : index_of (higher ++ winner ∷ rest) loser ≡ some li =
              ap (λ xs. index_of xs loser) (sym split) ∙ l in
            let (above, between, split', _, first_loser) =
              index_of-some higher loser li
                (index_of_prefix higher (winner ∷ rest) loser li l' (ground (arith, len, down))) in
            inl (record {
              above = above;
              between = between;
              rest = rest;
              split = split ∙ ap (λ xs. xs ++ winner ∷ rest) split';
              first_loser = first_loser;
              first_winner = ap (count winner) (sym split') ∙ first_winner;
            })
      ]
    ]
  ]
]

module _ (above between rest : List String) (winner loser : String) where
  leapt-SameIds :
      SameIds
        (above ++ winner ∷ loser ∷ between ++ rest)
        (above ++ loser ∷ between ++ winner ∷ rest)
  leapt-SameIds a = omega (
    arith,
    count-append a (above ++ winner ∷ loser ∷ between) rest,
    count-append a above (winner ∷ loser ∷ between),
    count-append a (above ++ loser ∷ between) (winner ∷ rest),
    count-append a above (loser ∷ between),
  )

  swapped-SameIds :
      SameIds
        (above ++ winner ∷ between ++ loser ∷ rest)
        (above ++ loser ∷ between ++ winner ∷ rest)
  swapped-SameIds a = omega (
    arith,
    count-append a (above ++ winner ∷ between) (loser ∷ rest),
    count-append a above (winner ∷ between),
    count-append a (above ++ loser ∷ between) (winner ∷ rest),
    count-append a above (loser ∷ between),
  )

-- Under either rule everybody on the ladder is on it as often as before.
pub reorder-SameIds :
    (order : List String) (winner loser : String)
    → SameIds (leapfrog_reorder order winner loser) order
      × SameIds (swap_reorder order winner loser) order
reorder-SameIds order winner loser = elim (reorder-cases order winner loser) [
  | inl b ↦
      let h =
        leapfrog_reorder_lem b.above b.between b.rest winner loser b.first_loser b.first_winner in
      let k = swap_reorder_lem b.above b.between b.rest winner loser b.first_loser b.first_winner in
      (
        λ a.
            ap (λ xs. count a (leapfrog_reorder xs winner loser)) b.split
            ∙ ap (count a) h
            ∙ leapt-SameIds b.above b.between b.rest winner loser a
            ∙ ap (count a) (sym b.split),
        λ a.
            ap (λ xs. count a (swap_reorder xs winner loser)) b.split
            ∙ ap (count a) k
            ∙ swapped-SameIds b.above b.between b.rest winner loser a
            ∙ ap (count a) (sym b.split),
      )
  | inr (h, k) ↦ (λ a. ap (count a) h, λ a. ap (count a) k)
]

-- If the winner does not stand below the loser, neither rule changes the order.
pub reorder_unchanged :
    (order : List String) (winner loser : String)
    → ¬ IsBelow order winner loser
    → (leapfrog_reorder order winner loser ≡ order) × (swap_reorder order winner loser ≡ order)
reorder_unchanged order winner loser above = elim (reorder-cases order winner loser) [
  | inl b ↦ absurd (above b)
  | inr same ↦ same
]
