-- ===== src/Consolation/Flow.antt =====
-- What flows through the tree: each match takes two tokens and gives one, and each loser drops in once.
use plan_my_pickle_backend.Base.{
  ℕ, zero, suc, ◌+◌, ◌^◌, pow-suc, ◌≤◌, ◌<◌, ◌≡◌, refl, ap, ◌∙◌, ◌⊎◌, inl, inr, List, [], ◌∷◌,
  length, total, arith,
}
use plan_my_pickle_backend.Consolation.{
  Token, empty, loser, winner, Drawn, meet, play_round, play_rounds, no_matches,
}
use plan_my_pickle_backend.Consolation.Meet.{
  live, is_loser, is_winner, drop_of, Flows, Flows-trans, meet-Flows,
}

-- A round of `n` pairs.
play_round-Flows :
    (r j n : ℕ) (cur : List Token) (st : Drawn)
    → length cur ≡ n + n
    → let (next, out) = play_round r j cur st in Flows cur st next out × (length next ≡ n)
unfolding play_round
play_round-Flows r j n [] st e = (
  record { lives = refl; losers = λ s. refl; wins = λ h. (h, refl); none_live = λ h. h },
  omega (arith, e),
)
play_round-Flows r j n (a ∷ []) st e = absurd (omega (arith, e))
play_round-Flows r j zero (a ∷ b ∷ cur) st e = absurd (omega (arith, e))
play_round-Flows r j (suc n) (a ∷ b ∷ cur) st e =
    let (t, st1) = meet r j a b st in
    let (next, out) = play_round r (suc j) cur st1 in
    let f : Flows (a ∷ b ∷ []) st (t ∷ []) st1 = meet-Flows r j a b st in
    let (g, len) = play_round-Flows r (suc j) n cur st1 (omega (arith, e)) in
    (
      record {
        lives = omega (arith, f.lives, g.lives);
        losers = λ s. omega (arith, f.losers s, g.losers s);
        wins = λ h.
            let (w, same) = g.wins (omega (arith, h)) in
            let (v, same') = f.wins (omega (arith, h)) in (omega (arith, v, w), same ∙ same');
        none_live =
            λ h. omega (arith, f.none_live (omega (arith, h)), g.none_live (omega (arith, h)));
      },
      ap suc len,
    )

-- All rounds, from `2 ^ k` tokens to one.
pub play_rounds-Flows :
    (k r : ℕ) (cur : List Token) (st : Drawn)
    → length cur ≡ 2 ^ k
    → let (next, out) = play_rounds k r cur st in Flows cur st next out × (length next ≡ 1)
unfolding play_rounds
play_rounds-Flows zero r cur st e =
    (record { lives = refl; losers = λ s. refl; wins = λ h. (h, refl); none_live = λ h. h }, e)
play_rounds-Flows (suc k) r cur st e =
    let (next, st1) = play_round r 0 cur st in
    let (last, out) = play_rounds k (suc r) next st1 in
    let (f, half) = play_round-Flows r 0 (2 ^ k) cur st (omega (arith, e, pow-suc 2 k)) in
    let (g, one) = play_rounds-Flows k (suc r) next st1 half in
    (Flows-trans cur next last st st1 out f g, one)

pub zero_or_pos : (n : ℕ) → (n ≡ 0) ⊎ (0 < n)
zero_or_pos zero = inl refl
zero_or_pos (suc n) = inr (omega arith)

-- Of one token that is left.
lone_token :
    (last : List Token)
    → length last ≡ 1
    → (total live last ≤ 1) × ((total is_winner last ≡ 0) ⊎ ((s : ℕ) → total (is_loser s) last ≡ 0))
lone_token [] e = absurd (omega (arith, e))
lone_token (empty ∷ []) e = (omega arith, inl refl)
lone_token (loser i ∷ []) e = (omega arith, inl refl)
lone_token (winner r j ∷ []) e = (omega arith, inr (λ s. refl))
lone_token (a ∷ b ∷ last) e = absurd (omega (arith, e))

-- From `2 ^ k` tokens of which at least two are somebody, none of them a winner: a match less than they
-- are, and each of them dropped in once.
pub play_rounds-drops :
    (k : ℕ) (cur : List Token)
    → length cur ≡ 2 ^ k
    → 2 ≤ total live cur
    → total is_winner cur ≡ 0
    → let out = (play_rounds k 1 cur no_matches).1 in
      (suc (length out.matches) ≡ total live cur)
      × ((s : ℕ) → total (drop_of s) out.drops ≡ total (is_loser s) cur)
play_rounds-drops k cur e two w =
    let (last, out) = play_rounds k 1 cur no_matches in
    let (f, one) = play_rounds-Flows k 1 cur no_matches e in
    let live_last : total live last ≡ 0 → ⊥ = λ h. omega (arith, two, f.none_live h) in
    let (at_most_one, which) = lone_token last one in
    let win_last : total is_winner last ≡ 0 → ⊥ =
      λ h. let (_, same) = f.wins h in omega (arith, same, f.lives, at_most_one, two) in
    elim which [
      | inl h ↦ absurd (win_last h)
      | inr gone ↦ (
        elim (zero_or_pos (total live last)) [
          | inl h ↦ absurd (live_last h)
          | inr h ↦ omega (arith, f.lives, at_most_one, h)
        ],
        λ s. omega (arith, f.losers s, gone s),
      )
    ]
