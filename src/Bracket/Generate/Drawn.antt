-- ===== src/Bracket/Generate/Drawn.antt =====
-- What a match of round 1 is, said of the sides alone: who its seeds are, and for whom it is resolved.
use plan_my_pickle_backend.Base.{
  ℕ, ◌-◌, ◌≡◌, ◌≢◌, ◌⊎◌, refl, sym, ap, ◌∙◌, inl, inr, zero, suc, if◌then◌else◌, eq_iff, List, [],
  ◌∷◌, none, some, String, arith, ltb, length, get_or, get_elem?, Bool-cases, true, false,
}
use plan_my_pickle_backend.Bracket.Generate.{Side, is_bye, side_for_seed, past_bye}
use plan_my_pickle_backend.Bracket.Generate.Step.{entry}

-- The side of a seed, which counts from 1: a side of the field, or a bye for a seed beyond it.
pub seeded : List (List String) → ℕ → List String
seeded sides seed = elim (get_elem? sides (seed - 1)) [ none ↦ "__BYE__" ∷ [] | some ids ↦ ids ]

-- The winner of a match before it is played: the one side that is not a bye, if the other is one.
abbrev pub IsOpened : List String → List String → Side → Type 0
IsOpened a b winner =
    ((a ≡ "__BYE__" ∷ []) × (b ≢ "__BYE__" ∷ []) × (winner ≡ some b))
    ⊎ (((a ≢ "__BYE__" ∷ []) × (b ≡ "__BYE__" ∷ []) × (winner ≡ some a))
        ⊎ (((a ≢ "__BYE__" ∷ []) × (b ≢ "__BYE__" ∷ []) × (winner ≡ none))
            ⊎ ((a ≡ "__BYE__" ∷ []) × (b ≡ "__BYE__" ∷ []) × (winner ≡ none))))

elem_or_bye :
    (xs : List (List String)) (k : ℕ)
    → (if ltb k (length xs) then some (get_or xs k []) else some ("__BYE__" ∷ []))
      ≡ some (elim (get_elem? xs k) [ none ↦ "__BYE__" ∷ [] | some ids ↦ ids ])
elem_or_bye [] k = let beyond : ltb k 0 ≡ false = ground arith in rw beyond refl
elem_or_bye (x ∷ xs) zero =
    let within : ltb 0 (suc (length xs)) ≡ true = ground arith in rw within refl
elem_or_bye (x ∷ xs) (suc k) =
    let less : ltb (suc k) (suc (length xs)) ≡ ltb k (length xs) = ground arith in
    rw less (elem_or_bye xs k)

pub side_for_seed-seeded :
    (sides : List (List String)) (seed : ℕ) → side_for_seed sides seed ≡ some (seeded sides seed)
unfolding side_for_seed seeded
side_for_seed-seeded sides seed = elem_or_bye sides (seed - 1)

bye_alone : (ids : List String) → is_bye (some ids) ≡ true → ids ≡ "__BYE__" ∷ []
bye_alone [] h = cc
bye_alone (x ∷ []) h = ap (λ y. y ∷ []) ((eq_iff x "__BYE__").0 h)
bye_alone (x ∷ y ∷ rest) h = cc

not_bye : (ids : List String) → is_bye (some ids) ≡ false → ids ≢ "__BYE__" ∷ []
not_bye ids h e =
    let both : true ≡ false = sym (ap (λ x. is_bye (some x)) e) ∙ h in absurd (ground arith)

pub past_bye-IsOpened :
    (a b : List String) (i : ℕ) → IsOpened a b (past_bye (entry (some a) (some b) i none))
unfolding past_bye
past_bye-IsOpened a b i = elim (Bool-cases (is_bye (some a))) [
  | inl ea ↦ elim (Bool-cases (is_bye (some b))) [
    | inl eb ↦ rw (ea, eb) (inr (inr (inr (bye_alone a ea, bye_alone b eb, refl))))
    | inr eb ↦ rw (ea, eb) (inl (bye_alone a ea, not_bye b eb, refl))
  ]
  | inr ea ↦ elim (Bool-cases (is_bye (some b))) [
    | inl eb ↦ rw (ea, eb) (inr (inl (not_bye a ea, bye_alone b eb, refl)))
    | inr eb ↦ rw (ea, eb) (inr (inr (inl (not_bye a ea, not_bye b eb, refl))))
  ]
]
