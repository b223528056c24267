-- ===== src/Bracket/Generate/Opening.antt =====
-- How a bracket opens: the seeds in round 1, and who is in round 2 before a game is played.
use plan_my_pickle_backend.Base.{
  ℕ, zero, suc, ◌+◌, ◌*◌, ◌/◌, ◌%◌, ◌^◌, ◌≤◌, ◌<◌, ◌≡◌, refl, sym, subst, ap, ◌∙◌, inl, inr, List,
  ◌∷◌, none, some, String, arith, map, pow-suc, ltb, leb, if◌then◌else◌, Bool-cases, length,
  length-tabulate, true, false, get_or, tabulate, lt→ltb,
}
use plan_my_pickle_backend.Bracket.Seeds.{next_pow2, seed_order}
use plan_my_pickle_backend.Bracket.Seeds.Powers.{next_pow2_lem, ilog2-pow}
use plan_my_pickle_backend.Bracket.Generate.{
  Side, BracketMatchSpec, Rounds, no_match, new_match, side_for_seed, first_match, new_rounds, feed,
  fed_rounds, bracket_rounds, past_bye,
}
use plan_my_pickle_backend.Bracket.Generate.Step.{entry, bye_winner}
use plan_my_pickle_backend.Bracket.Generate.Drawn.{
  seeded, IsOpened, side_for_seed-seeded, past_bye-IsOpened,
}
use plan_my_pickle_backend.Bracket.Generate.Byes.{
  Resolved, Resolved-zero, Resolved-byes, Resolved-first, Resolved-second,
}

-- The sides of the match at slot `i` of round 1 in a bracket of `n`.
abbrev pub side_a : List (List String) → ℕ → ℕ → Side
side_a sides n i = side_for_seed sides (get_or (seed_order n) (2 * i) 0)

abbrev pub side_b : List (List String) → ℕ → ℕ → Side
side_b sides n i = side_for_seed sides (get_or (seed_order n) (2 * i + 1) 0)

-- The match at slot `j` of round 2, of `total` rounds.
abbrev second_match : ℕ → ℕ → BracketMatchSpec
second_match total j = record {
  round = 2;
  slot = j;
  side1 = none;
  side2 = none;
  feeds_round = if ltb 2 total then 3 else 0;
  feeds_slot = if ltb 2 total then j / 2 else 0;
  feeds_team = if ltb 2 total then j % 2 + 1 else 0;
  resolved_winner = none;
}

get_or-tabulate {ℓ} :
    {A : Type ℓ} (f : ℕ → A) (k m i : ℕ) (d : A) → i < m → get_or (tabulate f k m) i d ≡ f (k + i)
get_or-tabulate f k zero i d h = absurd (omega arith)
get_or-tabulate f k (suc m) zero d h = let e : k ≡ k + 0 = omega arith in ap f e
get_or-tabulate f k (suc m) (suc i) d h =
    let e : suc k + i ≡ k + suc i = omega arith in
    get_or-tabulate f (suc k) m i d (omega arith) ∙ ap f e

map-tabulate {ℓ κ} :
    {A : Type ℓ} {B : Type κ} (g : A → B) (f : ℕ → A) (k m : ℕ)
    → map g (tabulate f k m) ≡ tabulate (λ i. g (f i)) k m
map-tabulate g f k zero = refl
map-tabulate g f k (suc m) = ap (◌∷◌ (g (f k))) (map-tabulate g f (suc k) m)

second_match-fed :
    (total j : ℕ) → ltb 2 total ≡ true → feed 2 (new_match 2 j none none) ≡ second_match total j
second_match-fed total j more = rw more refl

second_match-final :
    (total j : ℕ) → ltb 2 total ≡ false → new_match 2 j none none ≡ second_match total j
second_match-final total j last = rw last refl

zero_add : (i : ℕ) → 0 + i ≡ i
zero_add i = omega arith

module _ (sides : List (List String)) (n total : ℕ) where
  abbrev start : Rounds
  start = fed_rounds total (new_rounds sides (seed_order n) n total)

  start1 :
      1 < total
      → start 1 ≡ tabulate (λ i. entry (side_a sides n i) (side_b sides n i) i none) 0 (n / 2)
  unfolding fed_rounds new_rounds first_match
  start1 h =
      rw (lt→ltb 1 total h) (map-tabulate (feed 1) (first_match sides (seed_order n)) 0 (n / 2))

  start2 : 1 < total → start 2 ≡ tabulate (second_match total) 0 (n / 2 ^ 2)
  unfolding fed_rounds new_rounds
  start2 h =
      let there : leb 2 total ≡ true = ground arith in
      elim (Bool-cases (ltb 2 total)) [
        | inl more ↦
            rw (more, there) (map-tabulate (feed 2) (λ i. new_match 2 i none none) 0 (n / 4))
            ∙ ap (λ f. tabulate f 0 (n / 4)) (λ i j. second_match-fed total j more i)
        | inr last ↦
            rw (last, there)
              (ap (λ f. tabulate f 0 (n / 4)) (λ i j. second_match-final total j last i))
      ]

  opened-start :
      (h : ℕ)
      → 1 < total
      → n ≡ 4 * h
      → Resolved (side_a sides n) (side_b sides n) (second_match total) h 0 start
  opened-start h more e =
      Resolved-zero (side_a sides n) (side_b sides n) (second_match total) h start
        (ap length (start1 more) ∙ length-tabulate _ 0 (n / 2) ∙ omega (arith, e))
        (ap length (start2 more)
          ∙ length-tabulate (second_match total) 0 (n / 2 ^ 2)
          ∙ omega (arith, e))
        (λ i hi.
          ap (λ l. get_or l i no_match) (start1 more)
          ∙ get_or-tabulate (λ q. entry (side_a sides n q) (side_b sides n q) q none) 0 (n / 2) i
              no_match (omega (arith, e, hi))
          ∙ ap (λ q. entry (side_a sides n q) (side_b sides n q) q none) (zero_add i))
        (λ j hj.
          ap (λ l. get_or l j no_match) (start2 more)
          ∙ get_or-tabulate (second_match total) 0 (n / 2 ^ 2) j no_match (omega (arith, e, hj))
          ∙ ap (second_match total) (zero_add j))

-- The rounds of three sides or more when the loop is over.
opened_bracket :
    (sides : List (List String)) (k : ℕ)
    → 3 ≤ length sides
    → next_pow2 (length sides) ≡ 2 ^ suc (suc k)
    → Resolved
        (side_a sides (2 ^ suc (suc k)))
        (side_b sides (2 ^ suc (suc k)))
        (second_match (suc (suc k)))
        (2 ^ k)
        (2 * 2 ^ k)
        (bracket_rounds sides)
unfolding bracket_rounds
opened_bracket sides k h e =
    let n = 2 ^ suc (suc k) in
    let quarter : n ≡ 4 * 2 ^ k = omega (arith, pow-suc 2 k, pow-suc 2 (suc k)) in
    let v = opened-start sides n (suc (suc k)) (2 ^ k) (omega arith) quarter in
    rw (lt→ltb 2 (length sides) h, e, ilog2-pow (suc (suc k)))
      (Resolved-byes (side_a sides n) (side_b sides n) (second_match (suc (suc k))) (suc k) (2 ^ k)
        0 (length (start sides n (suc (suc k)) 1)) (start sides n (suc (suc k)))
        (omega (arith, v.length1)) v)

-- What the theorem says of a bracket of `n`.
opening_at :
    (sides : List (List String)) (i j k : ℕ)
    → 3 ≤ length sides
    → next_pow2 (length sides) ≡ 2 ^ k
    → 3 ≤ 2 ^ k
    → i < next_pow2 (length sides) / 2
    → j < next_pow2 (length sides) / 4
    → let n = next_pow2 (length sides) in
      let won = bye_winner (side_a sides n) (side_b sides n) in
      (get_or (bracket_rounds sides 1) i no_match
        ≡ entry (side_a sides n i) (side_b sides n i) i (won i))
      × ((get_or (bracket_rounds sides 2) j no_match).side1 ≡ won (2 * j))
      × ((get_or (bracket_rounds sides 2) j no_match).side2 ≡ won (2 * j + 1))
opening_at sides i j zero h e big hi hj = absurd (omega arith)
opening_at sides i j (suc zero) h e big hi hj = absurd (omega arith)
opening_at sides i j (suc (suc k)) h e big hi hj =
    let n = 2 ^ suc (suc k) in
    let quarter : n ≡ 4 * 2 ^ k = omega (arith, pow-suc 2 k, pow-suc 2 (suc k)) in
    let v = opened_bracket sides k h e in
    let a = side_a sides n in
    let b = side_b sides n in
    let (s1, s2) =
      Resolved-second a b (second_match (suc (suc k))) (2 ^ k) j (bracket_rounds sides) v
        (omega (arith, e, quarter, hj)) in
    rw e (
      Resolved-first a b (second_match (suc (suc k))) (2 ^ k) i (bracket_rounds sides) v
          (omega (arith, e, quarter, hi)),
      s1,
      s2,
    )

-- The match at slot `k` of round 1, and of round 2, when the bracket is generated.
abbrev pub first : List (List String) → ℕ → BracketMatchSpec
first sides k = get_or (bracket_rounds sides 1) k no_match

abbrev pub second : List (List String) → ℕ → BracketMatchSpec
second sides k = get_or (bracket_rounds sides 2) k no_match

-- For three sides or more, when the bracket of `n` is generated: a match of round 1, at slot `i`, has
-- the sides of the seeds at 2i and 2i + 1 of the seed order, each a side of the field in its order or
-- else a bye; it feeds side i % 2 + 1 at slot i / 2 of round 2, and is resolved for the one side that
-- is not a bye, or for nobody if neither or both are. And a match of round 2, at slot `j`, has as its
-- sides those for whom the matches at slots 2j and 2j + 1 are resolved, or nobody yet.
pub bracket_rounds-opening :
    (sides : List (List String)) (i j : ℕ)
    → 3 ≤ length sides
    → i < next_pow2 (length sides) / 2
    → j < next_pow2 (length sides) / 4
    → let order = seed_order (next_pow2 (length sides)) in
      let a = seeded sides (get_or order (2 * i) 0) in
      let b = seeded sides (get_or order (2 * i + 1) 0) in
      (first sides i ≡ entry (some a) (some b) i (first sides i).resolved_winner)
      × IsOpened a b (first sides i).resolved_winner
      × ((second sides j).side1 ≡ (first sides (2 * j)).resolved_winner)
      × ((second sides j).side2 ≡ (first sides (2 * j + 1)).resolved_winner)
bracket_rounds-opening sides i j h hi hj =
    let (k, e, ge, lt) = next_pow2_lem (length sides) (omega arith) in
    let n = next_pow2 (length sides) in
    let a = seeded sides (get_or (seed_order n) (2 * i) 0) in
    let b = seeded sides (get_or (seed_order n) (2 * i + 1) 0) in
    let big : 3 ≤ 2 ^ k = omega (arith, ge) in
    let (here, s1, s2) = opening_at sides i j k h e big hi hj in
    let (left, _, _) = opening_at sides (2 * j) j k h e big (omega (arith, hj)) hj in
    let (right, _, _) = opening_at sides (2 * j + 1) j k h e big (omega (arith, hj)) hj in
    let drawn : first sides i
        ≡ entry (some a) (some b) i (past_bye (entry (some a) (some b) i none)) =
      here
      ∙ ap (λ x. entry x (side_b sides n i) i (past_bye (entry x (side_b sides n i) i none)))
          (side_for_seed-seeded sides (get_or (seed_order n) (2 * i) 0))
      ∙ ap (λ x. entry (some a) x i (past_bye (entry (some a) x i none)))
          (side_for_seed-seeded sides (get_or (seed_order n) (2 * i + 1) 0)) in
    (
      drawn ∙ ap (λ m. entry (some a) (some b) i m.resolved_winner) (sym drawn),
      subst (IsOpened a b) (sym (ap (λ m. m.resolved_winner) drawn)) (past_bye-IsOpened a b i),
      s1 ∙ sym (ap (λ m. m.resolved_winner) left),
      s2 ∙ sym (ap (λ m. m.resolved_winner) right),
    )
