-- ===== src/DoubleElim/Winners.antt =====
-- The winners bracket of a double elimination is the single elimination.
use plan_my_pickle_backend.Base.{
  ℕ, ◌*◌, ◌-◌, ◌≡◌, ◌≢◌, ◌⊎◌, refl, sym, subst, ap, arith, ◌∙◌, inl, inr, List, [], ◌∷◌, ◌++◌, map,
  String, length, leb, ◌==◌, if◌then◌else◌, Bool-cases,
}
use plan_my_pickle_backend.Bracket.Generate.{BracketMatchSpec, generate_bracket}
use plan_my_pickle_backend.Consolation.{ordered_rounds}
use plan_my_pickle_backend.DoubleElim.{
  grand_final, winners, is_winners, DeMatch, unset, de_match, winners_match, w1_bye, seed_rounds,
  losers_rounds, renumber_match, renumber_lb_rounds, losers_tree, single_match,
  generate_double_elim,
}
use plan_my_pickle_backend.DoubleElim.Wires.{
  winner_side, winners_part, set_lose-winners, append-winners, flow_rounds-winners,
}

renumber-winners :
    (rounds : List ℕ) (ms : List DeMatch)
    → winners_part (map (renumber_match rounds) ms) ≡ map (renumber_match rounds) (winners_part ms)
unfolding renumber_match
renumber-winners rounds [] = refl
renumber-winners rounds (m ∷ ms) = elim (Bool-cases (is_winners m.tier)) [
  | inl w ↦ rw w (ap (◌∷◌ (winner_side (renumber_match rounds m))) (renumber-winners rounds ms))
  | inr o ↦ rw o (renumber-winners rounds ms)
]

-- The matches of the single elimination, as winners matches.
abbrev drawn : List BracketMatchSpec → List DeMatch
drawn ms = map winners_match ms

winners_part-drawn : (ms : List BracketMatchSpec) → winners_part (drawn ms) ≡ drawn ms
unfolding winners_match
winners_part-drawn [] = refl
winners_part-drawn (m ∷ ms) = ap (◌∷◌ (winners_match m)) (winners_part-drawn ms)

-- No winners match feeds the losers bracket with its winner.
renumber_one :
    (rounds : List ℕ) (m : BracketMatchSpec)
    → renumber_match rounds (winners_match m) ≡ winners_match m
unfolding winners_match renumber_match
renumber_one rounds m = elim (Bool-cases (m.feeds_round == 0)) [
  | inl final ↦ rw final refl
  | inr fed ↦ rw fed refl
]

renumber-drawn :
    (rounds : List ℕ) (ms : List BracketMatchSpec)
    → map (renumber_match rounds) (drawn ms) ≡ drawn ms
renumber-drawn rounds [] = refl
renumber-drawn rounds (m ∷ ms) =
    ap (λ x. x ∷ map (renumber_match rounds) (drawn ms)) (renumber_one rounds m)
    ∙ ap (◌∷◌ (winners_match m)) (renumber-drawn rounds ms)

renumber_lb_rounds-drawn :
    (all : List DeMatch) (ms : List BracketMatchSpec)
    → winners_part all ≡ drawn ms
    → winners_part (renumber_lb_rounds all) ≡ drawn ms
unfolding renumber_lb_rounds
renumber_lb_rounds-drawn all ms e =
    let rounds = ordered_rounds (losers_rounds all) in
    elim (Bool-cases (length rounds == 0)) [
      | inl nothing ↦ rw nothing e
      | inr some_round ↦ rw some_round (
          renumber-winners rounds all
          ∙ ap (map (renumber_match rounds)) e
          ∙ renumber-drawn rounds ms)
    ]

losers_tree-winners :
    (n lb_rounds : ℕ) (ms : List DeMatch)
    → winners_part (losers_tree n lb_rounds ms) ≡ winners_part ms
unfolding losers_tree
losers_tree-winners n lb_rounds ms =
    flow_rounds-winners n lb_rounds lb_rounds 1
      (record { matches = ms; incoming = seed_rounds ms n lb_rounds 1 (λ lr s. (unset, unset)) })

single_match-winners : (ms : List DeMatch) → winners_part (single_match ms) ≡ winners_part ms
unfolding single_match
single_match-winners ms = elim (Bool-cases (w1_bye 0 ms)) [
  | inl bye ↦ rw bye refl
  | inr played ↦ rw played (set_lose-winners 1 0 grand_final 1 0 2 ms)
]

-- The winners matches of the plan, the wiring done.
generate_double_elim-drawn :
    (sides : List (List String))
    → winners_part (generate_double_elim sides).matches ≡ drawn (generate_bracket sides).matches
unfolding generate_double_elim
generate_double_elim-drawn sides =
    let wb = generate_bracket sides in
    let ms = wb.matches in
    let tree =
      losers_tree wb.size (if leb 2 wb.rounds then 2 * (wb.rounds - 1) else 0) (drawn ms) in
    elim (Bool-cases (wb.rounds == 1)) [
      | inl one ↦ rw one (
          append-winners (single_match (drawn ms)) (de_match grand_final 1 0) refl
          ∙ single_match-winners (drawn ms)
          ∙ winners_part-drawn ms)
      | inr more ↦ rw more (
          renumber_lb_rounds-drawn (tree ++ de_match grand_final 1 0 ∷ []) ms (
            append-winners tree (de_match grand_final 1 0) refl
            ∙ losers_tree-winners wb.size (if leb 2 wb.rounds then 2 * (wb.rounds - 1) else 0)
                (drawn ms)
            ∙ winners_part-drawn ms))
    ]

-- The winner goes on in the winners bracket, or from the final to side 1 of the grand final.
abbrev pub IsFed : BracketMatchSpec → DeMatch → Type 0
IsFed m d =
    ((m.feeds_round ≢ 0)
      × (d.win_tier ≡ winners)
      × (d.win_round ≡ m.feeds_round)
      × (d.win_slot ≡ m.feeds_slot)
      × (d.win_team ≡ m.feeds_team))
    ⊎ ((m.feeds_round ≡ 0)
        × (d.win_tier ≡ grand_final)
        × (d.win_round ≡ 1)
        × (d.win_slot ≡ 0)
        × (d.win_team ≡ 1))

-- A winners match of the plan for a match of the single elimination.
pub record IsDrawn (m : BracketMatchSpec) (d : DeMatch) : Type 0 where
  pub tier : d.tier ≡ winners
  pub round : d.round ≡ m.round
  pub slot : d.slot ≡ m.slot
  pub side1 : d.side1 ≡ m.side1
  pub side2 : d.side2 ≡ m.side2
  pub winner : d.resolved_winner ≡ m.resolved_winner
  pub feeds : IsFed m d

-- As many matches, and each for the one in its place.
abbrev pub AreDrawn : List BracketMatchSpec → List DeMatch → Type 0
AreDrawn [] [] = Unit
AreDrawn [] (d ∷ ds) = ⊥
AreDrawn (m ∷ ms) [] = ⊥
AreDrawn (m ∷ ms) (d ∷ ds) = IsDrawn m d × AreDrawn ms ds

winners_match-IsDrawn : (m : BracketMatchSpec) → IsDrawn m (winners_match m)
unfolding winners_match
winners_match-IsDrawn m = record {
  tier = refl;
  round = refl;
  slot = refl;
  side1 = refl;
  side2 = refl;
  winner = refl;
  feeds = elim (Bool-cases (m.feeds_round == 0)) [
    | inl final ↦ rw final (inr (ground arith, refl, refl, refl, refl))
    | inr fed ↦ rw fed (inl ((λ e. absurd (ground arith)), refl, refl, refl, refl))
  ];
}

drawn-AreDrawn : (ms : List BracketMatchSpec) → AreDrawn ms (drawn ms)
drawn-AreDrawn [] = tt
drawn-AreDrawn (m ∷ ms) = (winners_match-IsDrawn m, drawn-AreDrawn ms)

-- Whatever the field: the winners matches of the plan are, one for one and in order, the matches of
-- `GenerateBracket`: of the same round and slot, with the same sides and the same winner of a bye, and
-- their winners go where those go, but that the winner of the final goes to side 1 of the grand final.
pub generate_double_elim-AreDrawn :
    (sides : List (List String))
    → AreDrawn (generate_bracket sides).matches (winners_part (generate_double_elim sides).matches)
generate_double_elim-AreDrawn sides =
    subst (AreDrawn (generate_bracket sides).matches) (sym (generate_double_elim-drawn sides))
      (drawn-AreDrawn (generate_bracket sides).matches)
