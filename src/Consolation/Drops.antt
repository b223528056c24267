-- ===== src/Consolation/Drops.antt =====
-- Every real loser of the main bracket drops into the back draw once, and it has a match less than them.
use plan_my_pickle_backend.Base.{
  ℕ, zero, suc, ◌+◌, ◌*◌, ◌/◌, ◌^◌, ◌≤◌, ◌≡◌, refl, sym, ap, ◌∙◌, inl, inr, ==_iff, Bool, true,
  false, not, ◌&&◌, List, [], ◌∷◌, map, ltb, ◌==◌, if◌then◌else◌, Bool-cases, length, tabulate,
  length-tabulate, total, arith, le→ltb,
}
use plan_my_pickle_backend.Bracket.Seeds.Powers.{ilog2-pow}
use plan_my_pickle_backend.Consolation.{
  ConsolationMatchSpec, LoserDrop, play_rounds, no_matches, main_token, relabel, relabel_match,
  relabel_drop, generate_consolation, ordered_rounds, match_rounds,
}
use plan_my_pickle_backend.Consolation.Meet.{live, is_loser, is_winner, drop_of}
use plan_my_pickle_backend.Consolation.Flow.{play_rounds-drops}

-- The slots from `i` on, `n` of them, that have a loser.
abbrev pub real_losers : (ℕ → Bool) → ℕ → ℕ → ℕ
real_losers is_bye i zero = 0
real_losers is_bye i (suc n) = (if is_bye i then 0 else 1) + real_losers is_bye (suc i) n

tokens-live :
    (is_bye : ℕ → Bool) (i n : ℕ)
    → total live (tabulate (main_token is_bye) i n) ≡ real_losers is_bye i n
tokens-live is_bye i zero = refl
tokens-live is_bye i (suc n) = elim (Bool-cases (is_bye i)) [
  | inl t ↦ rw t (omega (arith, tokens-live is_bye (suc i) n))
  | inr f ↦ rw f (omega (arith, tokens-live is_bye (suc i) n))
]

tokens-winner :
    (is_bye : ℕ → Bool) (i n : ℕ) → total is_winner (tabulate (main_token is_bye) i n) ≡ 0
tokens-winner is_bye i zero = refl
tokens-winner is_bye i (suc n) = elim (Bool-cases (is_bye i)) [
  | inl t ↦ rw t (omega (arith, tokens-winner is_bye (suc i) n))
  | inr f ↦ rw f (omega (arith, tokens-winner is_bye (suc i) n))
]

tokens-loser :
    (is_bye : ℕ → Bool) (s i n : ℕ)
    → total (is_loser s) (tabulate (main_token is_bye) i n)
      ≡ (if not (ltb s i) && ltb s (i + n) && not (is_bye s) then 1 else 0)
tokens-loser is_bye s i zero = ground arith
tokens-loser is_bye s i (suc n) = elim (Bool-cases (is_bye i)) [
  | inl t ↦ elim (Bool-cases (i == s)) [
    | inl same ↦
        let bye : is_bye s ≡ true = ap is_bye (sym ((==_iff i s).0 same)) ∙ t in
        rw t (ground (arith, tokens-loser is_bye s (suc i) n, bye, same))
    | inr other ↦ rw t (ground (arith, tokens-loser is_bye s (suc i) n, other))
  ]
  | inr f ↦ elim (Bool-cases (i == s)) [
    | inl same ↦
        let real : is_bye s ≡ false = ap is_bye (sym ((==_iff i s).0 same)) ∙ f in
        rw f (ground (arith, tokens-loser is_bye s (suc i) n, real, same))
    | inr other ↦ rw f (ground (arith, tokens-loser is_bye s (suc i) n, other))
  ]
]

pub real_losers-le : (is_bye : ℕ → Bool) (i n : ℕ) → real_losers is_bye i n ≤ n
real_losers-le is_bye i zero = omega arith
real_losers-le is_bye i (suc n) = ground (arith, real_losers-le is_bye (suc i) n)

map-total :
    (s : ℕ) (ordered : List ℕ) (ds : List LoserDrop)
    → total (drop_of s) (map (relabel_drop ordered) ds) ≡ total (drop_of s) ds
unfolding relabel_drop
map-total s ordered [] = refl
map-total s ordered (d ∷ ds) = omega (arith, map-total s ordered ds)

map-length :
    (ordered : List ℕ) (ms : List ConsolationMatchSpec)
    → length (map (relabel_match ordered) ms) ≡ length ms
map-length ordered [] = refl
map-length ordered (m ∷ ms) = ap suc (map-length ordered ms)

-- For a main bracket of size `2 * 2 ^ k` with two real losers or more.
pub generate_consolation-drops :
    (k : ℕ) (is_bye : ℕ → Bool)
    → 2 ≤ real_losers is_bye 0 (2 ^ k)
    → let plan = generate_consolation (2 * 2 ^ k) is_bye in
      (suc (length plan.matches) ≡ real_losers is_bye 0 (2 ^ k))
      × ((s : ℕ)
          → total (drop_of s) plan.drops ≡ (if ltb s (2 ^ k) && not (is_bye s) then 1 else 0))
unfolding generate_consolation relabel
generate_consolation-drops k is_bye two =
    let half : 2 * 2 ^ k / 2 ≡ 2 ^ k = omega arith in
    let big : ltb (2 ^ k) 2 ≡ false =
      le→ltb (2 ^ k) 2 (omega (arith, two, real_losers-le is_bye 0 (2 ^ k))) in
    let tokens = tabulate (main_token is_bye) 0 (2 ^ k) in
    let out = (play_rounds k 1 tokens no_matches).1 in
    let ordered = ordered_rounds (match_rounds out.matches) in
    let lives = tokens-live is_bye 0 (2 ^ k) in
    let (matches, drops) =
      play_rounds-drops k tokens (length-tabulate (main_token is_bye) 0 (2 ^ k))
        (omega (arith, lives, two)) (tokens-winner is_bye 0 (2 ^ k)) in
    rw (half, big, ilog2-pow k)
      (
        omega (arith, map-length ordered out.matches, matches, lives),
        λ s.
            ground (arith, map-total s ordered out.drops, drops s, tokens-loser is_bye s 0 (2 ^ k)),
      )
