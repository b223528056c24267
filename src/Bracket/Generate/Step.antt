-- ===== src/Bracket/Generate/Step.antt =====
-- One turn of the loop over round 1, and the call of `advance` in it.
use plan_my_pickle_backend.Base.{
  ℕ, suc, ◌+◌, ◌/◌, ◌%◌, ◌≡◌, refl, ap, ◌∙◌, inl, inr, true, false, ◌&&◌, List, none, some, String,
  arith, Bool-cases, get_or,
}
use plan_my_pickle_backend.Bracket.Generate.{
  Side, is_bye, is_real, BracketMatchSpec, Rounds, no_match, put_match, past_bye, seat_winner,
  advance_at, advance, resolve_bye,
}

pub is_real-is_bye : (s : Side) → is_real s ≡ true → is_bye s ≡ false
is_real-is_bye none h = cc
is_real-is_bye (some ids) h = ground arith

-- Who goes past a bye is not a bye.
pub past_bye-is_bye : (m : BracketMatchSpec) → is_bye (past_bye m) ≡ false
unfolding past_bye
past_bye-is_bye m = elim (Bool-cases (is_bye m.side1 && is_real m.side2)) [
  | inl e ↦ rw e (is_real-is_bye m.side2 (ground arith))
  | inr e ↦ elim (Bool-cases (is_bye m.side2 && is_real m.side1)) [
    | inl f ↦ rw (e, f) (is_real-is_bye m.side1 (ground arith))
    | inr f ↦ rw (e, f) refl
  ]
]

-- A match without a bye is left to be played.
pub past_bye-none :
    (m : BracketMatchSpec) → is_bye m.side1 ≡ false → is_bye m.side2 ≡ false → past_bye m ≡ none
unfolding past_bye
past_bye-none m e f = rw (e, f) refl

-- A match of round 1 with its feed, and a match of round 2 that has its sides from the feeds.
abbrev pub entry : Side → Side → ℕ → Side → BracketMatchSpec
entry s1 s2 i winner = record {
  round = 1;
  slot = i;
  side1 = s1;
  side2 = s2;
  feeds_round = 2;
  feeds_slot = i / 2;
  feeds_team = i % 2 + 1;
  resolved_winner = winner;
}

-- One call from round 1 whose target has no bye.
pub advance-seats :
    (fuel : ℕ) (rounds : Rounds) (k : ℕ) (winner s1 s2 : Side)
    → get_or (rounds 1) k no_match ≡ entry s1 s2 k none
    → past_bye (seat_winner (get_or (rounds 2) (k / 2) no_match) (k % 2 + 1) winner) ≡ none
    → advance (suc fuel) rounds 1 k winner
      ≡ put_match
          (put_match rounds 1 k (entry s1 s2 k winner))
          2
          (k / 2)
          (seat_winner (get_or (rounds 2) (k / 2) no_match) (k % 2 + 1) winner)
unfolding advance advance_at
advance-seats fuel rounds k winner s1 s2 em quiet =
    ap (λ m. advance_at (advance fuel) rounds 1 k m winner) em ∙ rw quiet refl

pub resolve_bye-none :
    (fuel k : ℕ) (rounds : Rounds)
    → past_bye (get_or (rounds 1) k no_match) ≡ none
    → resolve_bye fuel k rounds ≡ rounds
unfolding resolve_bye
resolve_bye-none fuel k rounds e = rw (e, resolve_bye) refl

pub resolve_bye-some :
    (fuel k : ℕ) (rounds : Rounds) (winner : Side) {ids : List String}
    → past_bye (get_or (rounds 1) k no_match) ≡ winner
    → winner ≡ some ids
    → resolve_bye fuel k rounds ≡ advance fuel rounds 1 k winner
unfolding resolve_bye
resolve_bye-some fuel k rounds winner e f = rw (e ∙ f, f, resolve_bye) refl

-- Who goes past a bye at slot `i` of round 1 with the sides `a i` and `b i`, if anybody.
abbrev pub bye_winner : (ℕ → Side) → (ℕ → Side) → ℕ → Side
bye_winner a b i = past_bye (entry (a i) (b i) i none)
