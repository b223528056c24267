-- ===== src/Ladder/Moves.antt =====
-- What the two rules do to the order of a ladder.
use plan_my_pickle_backend.Base.{
  ℕ, suc, ◌<◌, ◌≡◌, append_assoc, inl, inr, refl, sym, ap, ◌∙◌, true, false, none, some, List, [],
  ◌∷◌, ◌++◌, String, str_eq, eq_iff, leb, take, drop, get_or, set, length, length-append, count,
  count-append, str_eq-hit, str_ne-hit, Bool-cases, Option-cases, arith,
}
use plan_my_pickle_backend.Ladder.{below, index_of, leapfrog_reorder, swap_reorder}

module _ {ℓ} {A : Type ℓ} where
  take-append : (xs ys : List A) → take (length xs) (xs ++ ys) ≡ xs
  take-append [] ys = refl
  take-append (x ∷ xs) ys = ap (◌∷◌ x) (take-append xs ys)

  drop-append : (xs ys : List A) → drop (length xs) (xs ++ ys) ≡ ys
  drop-append [] ys = refl
  drop-append (x ∷ xs) ys = drop-append xs ys

  drop-append_one : (xs ys : List A) (y : A) → drop (suc (length xs)) (xs ++ y ∷ ys) ≡ ys
  drop-append_one [] ys y = refl
  drop-append_one (x ∷ xs) ys y = drop-append_one xs ys y

  get_or-append : (xs ys : List A) (y d : A) → get_or (xs ++ y ∷ ys) (length xs) d ≡ y
  get_or-append [] ys y d = refl
  get_or-append (x ∷ xs) ys y d = get_or-append xs ys y d

  set-append : (xs ys : List A) (y v : A) → set (xs ++ y ∷ ys) (length xs) v ≡ xs ++ v ∷ ys
  set-append [] ys y v = refl
  set-append (x ∷ xs) ys y v = ap (◌∷◌ x) (set-append xs ys y v)

index_of_here : (xs : List String) (x v : String) → str_eq x v ≡ true → index_of (x ∷ xs) v ≡ some 0
unfolding index_of
index_of_here xs x v t = rw t refl

index_of_next :
    (xs : List String) (x v : String)
    → str_eq x v ≡ false
    → index_of (x ∷ xs) v ≡ below (index_of xs v)
unfolding index_of
index_of_next xs x v f = rw f refl

-- Whoever is not in a list is not its head.
count-str_eq : (x v : String) (xs : List String) → count v (x ∷ xs) ≡ 0 → str_eq x v ≡ false
count-str_eq x v xs h = elim (Bool-cases (str_eq x v)) [
  | inl t ↦ absurd (omega (arith, h, str_eq-hit x v t))
  | inr f ↦ f
]

index_of-append :
    (xs ys : List String) (v : String)
    → count v xs ≡ 0
    → index_of (xs ++ v ∷ ys) v ≡ some (length xs)
index_of-append [] ys v h = index_of_here ys v v ((eq_iff v v).1 refl)
index_of-append (x ∷ xs) ys v h =
    let next = index_of_next (xs ++ v ∷ ys) x v (count-str_eq x v xs h) in
    next ∙ ap below (index_of-append xs ys v (omega (arith, h)))

-- The part before the first place.
pub index_of-some :
    (xs : List String) (v : String) (i : ℕ)
    → index_of xs v ≡ some i
    → (before after : List String) × (xs ≡ before ++ v ∷ after)
      × (length before ≡ i)
      × (count v before ≡ 0)
unfolding index_of
index_of-some [] v i e = cc
index_of-some (x ∷ xs) v i e = elim (Bool-cases (str_eq x v)) [
  | inl t ↦
      let same : x ≡ v = (eq_iff x v).0 t in
      let here : some 0 ≡ some i = sym (index_of_here xs x v t) ∙ e in
      ([], xs, ap (λ y. y ∷ xs) same, ground (arith, here), refl)
  | inr f ↦ elim (Option-cases (index_of xs v)) [
    | inl n ↦ let next : none ≡ some i = sym (index_of_next xs x v f ∙ ap below n) ∙ e in cc
    | inr (j, o) ↦
        let next : some (suc j) ≡ some i = sym (index_of_next xs x v f ∙ ap below o) ∙ e in
        let (before, after, split, len, fresh) = index_of-some xs v j o in
        (
          x ∷ before,
          after,
          ap (◌∷◌ x) split,
          ground (arith, next, len),
          omega (arith, fresh, str_ne-hit x v f),
        )
  ]
]

-- A first index in the front part is one of the whole.
pub index_of_prefix :
    (xs ys : List String) (v : String) (i : ℕ)
    → index_of (xs ++ ys) v ≡ some i
    → i < length xs
    → index_of xs v ≡ some i
index_of_prefix [] ys v i e h = absurd (omega arith)
index_of_prefix (x ∷ xs) ys v i e h = elim (Bool-cases (str_eq x v)) [
  | inl t ↦ index_of_here xs x v t ∙ sym (index_of_here (xs ++ ys) x v t) ∙ e
  | inr f ↦ elim (Option-cases (index_of (xs ++ ys) v)) [
    | inl n ↦ let next : none ≡ some i = sym (index_of_next (xs ++ ys) x v f ∙ ap below n) ∙ e in cc
    | inr (j, o) ↦
        let next : some (suc j) ≡ some i = sym (index_of_next (xs ++ ys) x v f ∙ ap below o) ∙ e in
        index_of_next xs x v f
        ∙ ap below (index_of_prefix xs ys v j o (ground (arith, next, h)))
        ∙ next
  ]
]

-- Two who stand at first places, the winner below the loser.
module _ (above between rest : List String) (winner loser : String) where
  abbrev order : List String
  order = above ++ loser ∷ between ++ winner ∷ rest

  abbrev higher : List String
  higher = above ++ loser ∷ between

  from_loser : order ≡ above ++ (loser ∷ between ++ winner ∷ rest)
  from_loser = append_assoc above (loser ∷ between) (winner ∷ rest)

  module _ (fresh_loser : count loser above ≡ 0) (fresh_winner : count winner higher ≡ 0) where
    index_of_winner : index_of order winner ≡ some (length higher)
    index_of_winner = index_of-append higher rest winner fresh_winner

    index_of_loser : index_of order loser ≡ some (length above)
    index_of_loser =
        ap (λ xs. index_of xs loser) from_loser
        ∙ index_of-append above (between ++ winner ∷ rest) loser fresh_loser

    differ : str_eq winner loser ≡ false
    differ = elim (Bool-cases (str_eq winner loser)) [
      | inl t ↦
          let same : winner ≡ loser = (eq_iff winner loser).0 t in
          absurd (
            omega (
              arith,
              fresh_winner,
              count-append winner above (loser ∷ between),
              str_eq-hit loser winner ((eq_iff loser winner).1 (sym same)),
            ))
      | inr f ↦ f
    ]

    lower : leb (length higher) (length above) ≡ false
    lower = ground (arith, length-append above (loser ∷ between))

    -- The winner takes the loser's place, and everybody from there to the winner's old place moves down one.
    pub leapfrog_reorder_lem :
        leapfrog_reorder order winner loser ≡ above ++ winner ∷ loser ∷ between ++ rest
    unfolding leapfrog_reorder
    leapfrog_reorder_lem =
        let head : take (length above) order ≡ above =
          ap (take (length above)) from_loser
          ∙ take-append above (loser ∷ between ++ winner ∷ rest) in
        let there : get_or order (length higher) "" ≡ winner =
          get_or-append higher rest winner "" in
        let block : drop (length above) (take (length higher) order) ≡ loser ∷ between =
          ap (drop (length above)) (take-append higher (winner ∷ rest))
          ∙ drop-append above (loser ∷ between) in
        let tail : drop (suc (length higher)) order ≡ rest = drop-append_one higher rest winner in
        rw (differ, index_of_winner, index_of_loser, lower, head, there, block, tail) refl

    pub swap_reorder_lem :
        swap_reorder order winner loser ≡ above ++ winner ∷ between ++ loser ∷ rest
    unfolding swap_reorder
    swap_reorder_lem =
        let there : get_or order (length higher) "" ≡ winner =
          get_or-append higher rest winner "" in
        let here : get_or order (length above) "" ≡ loser =
          ap (λ xs. get_or xs (length above) "") from_loser
          ∙ get_or-append above (between ++ winner ∷ rest) loser "" in
        let once : set order (length higher) loser ≡ above ++ (loser ∷ between ++ loser ∷ rest) =
          set-append higher rest winner loser
          ∙ append_assoc above (loser ∷ between) (loser ∷ rest) in
        let twice : set (above ++ (loser ∷ between ++ loser ∷ rest)) (length above) winner
            ≡ above ++ winner ∷ between ++ loser ∷ rest =
          set-append above (between ++ loser ∷ rest) loser winner
          ∙ sym (append_assoc above (winner ∷ between) (loser ∷ rest)) in
        rw (differ, index_of_winner, index_of_loser, lower, there, here, once, twice) refl
