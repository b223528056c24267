-- ===== src/Compass/Mirror.antt =====
-- `buildConsolationTree` mirrors `GenerateConsolation`.
use plan_my_pickle_backend.Base.{
  ℕ, zero, suc, ◌+◌, ◌*◌, ◌^◌, ◌/◌, ◌≤◌, ◌<◌, ◌≡◌, refl, ap, ◌∙◌, inl, inr, subst, Bool, false,
  some, [], ltb, Bool-cases, tabulate, le→ltb, ltb→lt, pow-suc, ◌-◌, arith,
}
use plan_my_pickle_backend.Bracket.Seeds.{next_pow2}
use plan_my_pickle_backend.Bracket.Seeds.Powers.{ilog2-pow, next_pow2_lem, pow_pos}
use plan_my_pickle_backend.Consolation.Drops.{real_losers, real_losers-le}
use plan_my_pickle_backend.Consolation.{main_token, generate_consolation}
use plan_my_pickle_backend.Compass.{
  ConsTree, lane_rounds, real_tokens, relabel_tree, build_consolation_tree,
}
use plan_my_pickle_backend.Compass.Steps.{play_rounds-drawn, plan_of, relabel-drawn, tokens_same}

real_tokens-main :
    (is_bye : ℕ → Bool) (i n : ℕ)
    → real_tokens (tabulate (main_token is_bye) i n) ≡ real_losers is_bye i n
real_tokens-main is_bye i zero = refl
real_tokens-main is_bye i (suc n) = elim (Bool-cases (is_bye i)) [
  | inl t ↦ rw t (omega (arith, real_tokens-main is_bye (suc i) n))
  | inr f ↦ rw f (omega (arith, real_tokens-main is_bye (suc i) n))
]

pow_mono : (a d : ℕ) → 2 ^ a ≤ 2 ^ (a + d)
pow_mono a zero = let e : a + 0 ≡ a = omega arith in rw e (omega arith)
pow_mono a (suc d) =
    let e : a + suc d ≡ suc (a + d) = omega arith in
    rw e (omega (arith, pow_mono a d, pow-suc 2 (a + d)))

pow_mono_lt : (a b : ℕ) → a < b → 2 * 2 ^ a ≤ 2 ^ b
pow_mono_lt a b h =
    let e : suc a + (b - suc a) ≡ b = omega (arith, h) in
    let up : 2 ^ suc a ≤ 2 ^ b = subst (λ n. 2 ^ suc a ≤ 2 ^ n) e (pow_mono (suc a) (b - suc a)) in
    omega (arith, up, pow-suc 2 a)

next_pow2-pow : (k : ℕ) → next_pow2 (2 ^ k) ≡ 2 ^ k
next_pow2-pow k =
    let (j, e, lo, hi) = next_pow2_lem (2 ^ k) (pow_pos k) in
    elim (Bool-cases (ltb j k)) [
      | inl t ↦ absurd (omega (arith, lo, pow_pos j, pow_mono_lt j k (ltb→lt j k t)))
      | inr f ↦ elim (Bool-cases (ltb k j)) [
        | inl t ↦ absurd (omega (arith, hi, pow_mono_lt k j (ltb→lt k j t)))
        | inr g ↦ let same : j ≡ k = ground (arith, f, g) in e ∙ ap (λ n. 2 ^ n) same
      ]
    ]

-- Over a power of two of sources, two of which have a loser or more, the tree is built, and it is the back
-- draw of the main bracket of twice that size with the same byes.
pub build_consolation_tree-mirrors :
    (k : ℕ) (is_bye : ℕ → Bool)
    → 2 ≤ real_losers is_bye 0 (2 ^ k)
    → (t : ConsTree) × (build_consolation_tree (2 ^ k) is_bye ≡ some t)
      × (generate_consolation (2 * 2 ^ k) is_bye ≡ plan_of t)
unfolding build_consolation_tree generate_consolation
build_consolation_tree-mirrors k is_bye two =
    let n = 2 ^ k in
    let tokens = tabulate (main_token is_bye) 0 n in
    let out = (lane_rounds k 1 tokens (record { nodes = []; drops = [] })).1 in
    let half : 2 * 2 ^ k / 2 ≡ 2 ^ k = omega arith in
    let big : ltb (2 ^ k) 2 ≡ false =
      le→ltb (2 ^ k) 2 (omega (arith, two, real_losers-le is_bye 0 (2 ^ k))) in
    let enough : ltb (real_tokens tokens) 2 ≡ false =
      le→ltb (real_tokens tokens) 2 (omega (arith, two, real_tokens-main is_bye 0 n)) in
    (
      relabel_tree k out,
      rw (next_pow2-pow k, big, tokens_same is_bye n 0 n (omega arith), enough, ilog2-pow k) refl,
      rw (half, big, ilog2-pow k, play_rounds-drawn k 1 tokens (record { nodes = []; drops = [] }))
          (relabel-drawn k out),
    )
